-- ===== src/Idt/Gates.antt =====
-- Which stub each interrupt runs.
use torch_os.Base.{
  ℕ, zero, suc, ◌+◌, ◌-◌, ◌*◌, ◌/◌, ◌%◌, ◌^◌, ◌<◌, ◌≤◌, ◌≡◌, refl, sym, ap, ◌∙◌, arith, u8, List,
  length, get_or, replicate, if◌then◌else◌, ltb, get_or-set_self, get_or-set_ne, length-set,
  length-replicate, Bool-cases, inl, inr, ◌⊎◌,
}
use torch_os.Base.Bits.{bit_and_low}
use torch_os.Idt.{IdtEntry, idt_entry, idt_set_gate, empty_entry, set_gates, init_idt}

abbrev pub base_of : IdtEntry → ℕ
base_of e = e.base_lo + 2 ^ 16 * e.base_hi

abbrev pub entry_of : List IdtEntry → ℕ → IdtEntry
entry_of entries i = get_or entries i empty_entry

-- The address that the processor reads out of a gate is the 32-bit address that was given.
pub base_of-idt_entry :
    (base sel flags : ℕ) → base < 2 ^ 32 → base_of (idt_entry base sel flags) ≡ base
unfolding idt_entry
base_of-idt_entry base sel flags h =
    omega (arith, bit_and_low 16 base, bit_and_low 16 (base / 2 ^ 16))

module _ (stub : ℕ → ℕ) where
  length-set_gates :
      (left n k : ℕ) (entries : List IdtEntry)
      → length (set_gates left n k stub entries) ≡ length entries
  unfolding set_gates idt_set_gate
  length-set_gates zero n k entries = refl
  length-set_gates (suc left) n k entries =
      length-set_gates left (n + 1) (k + 1) _ ∙ length-set entries (u8 n) _

  -- Outside the numbers that are set the table is as before.
  set_gates-outside :
      (left n k i : ℕ) (entries : List IdtEntry)
      → n + left ≤ 256
      → (i < n) ⊎ (n + left ≤ i)
      → entry_of (set_gates left n k stub entries) i ≡ entry_of entries i
  unfolding set_gates idt_set_gate
  set_gates-outside zero n k i entries fits out = refl
  set_gates-outside (suc left) n k i entries fits out =
      set_gates-outside left (n + 1) (k + 1) i _ (omega arith) (widen out)
      ∙ get_or-set_ne entries (u8 n) i _ empty_entry (λ e. omega arith)
    where
      widen : (i < n) ⊎ (n + suc left ≤ i) → (i < n + 1) ⊎ (n + 1 + left ≤ i)
      widen (inl h) = inl (omega arith)
      widen (inr h) = inr (omega arith)

  set_gates-inside :
      (left n k j : ℕ) (entries : List IdtEntry)
      → length entries ≡ 256
      → n + left ≤ 256
      → j < left
      → entry_of (set_gates left n k stub entries) (n + j) ≡ idt_entry (stub (k + j)) 0x08 0x8E
  unfolding set_gates idt_set_gate
  set_gates-inside zero n k j entries full fits h = absurd (omega arith)
  set_gates-inside (suc left) n k zero entries full fits h =
      let at_n : n + 0 ≡ n = omega arith in
      let at_k : k + 0 ≡ k = omega arith in
      let fits' : u8 n ≡ n = omega arith in
      rw (at_n, at_k)
        (set_gates-outside left (n + 1) (k + 1) n _ (omega arith) (inl (omega arith))
          ∙ rw fits' (get_or-set_self entries n _ empty_entry (omega arith)))
  set_gates-inside (suc left) n k (suc j) entries full fits h =
      let at_n : n + suc j ≡ n + 1 + j = omega arith in
      let at_k : k + suc j ≡ k + 1 + j = omega arith in
      rw (at_n, at_k)
        (set_gates-inside left (n + 1) (k + 1) j _ (length-set entries (u8 n) _ ∙ full)
          (omega arith) (omega arith))

get_or-replicate : (n i : ℕ) → entry_of (replicate n empty_entry) i ≡ empty_entry
get_or-replicate zero i = refl
get_or-replicate (suc n) zero = refl
get_or-replicate (suc n) (suc i) = get_or-replicate n i

module _ (isr irq : ℕ → ℕ) (i : ℕ) where
  abbrev cleared : List IdtEntry
  cleared = replicate 256 empty_entry

  abbrev with_isr : List IdtEntry
  with_isr = set_gates 32 0 0 isr cleared

  full : length with_isr ≡ 256
  full = length-set_gates isr 32 0 0 cleared ∙ length-replicate 256 empty_entry

  gates_isr : i < 32 → entry_of (set_gates 16 32 0 irq with_isr) i ≡ idt_entry (isr i) 0x08 0x8E
  gates_isr h =
      let number : 0 + i ≡ i = omega arith in
      set_gates-outside irq 16 32 0 i with_isr (omega arith) (inl h)
      ∙ (rw number at (
          set_gates-inside isr 32 0 0 i cleared (length-replicate 256 empty_entry) (omega arith) h))

  gates_irq :
      32 ≤ i
      → i < 48
      → entry_of (set_gates 16 32 0 irq with_isr) i ≡ idt_entry (irq (i - 32)) 0x08 0x8E
  gates_irq h k =
      let number : 32 + (i - 32) ≡ i = omega arith in
      let line : 0 + (i - 32) ≡ i - 32 = omega arith in
      rw (number, line) at
        (set_gates-inside irq 16 32 0 (i - 32) with_isr full (omega arith) (omega arith))

  gates_rest : 48 ≤ i → entry_of (set_gates 16 32 0 irq with_isr) i ≡ empty_entry
  gates_rest h =
      set_gates-outside irq 16 32 0 i with_isr (omega arith) (inr h)
      ∙ set_gates-outside isr 32 0 0 i cleared (omega arith) (inr (omega arith))
      ∙ get_or-replicate 256 i

-- The entries of the table, as `idt_set_gate` packs them.
pub entry_of-init_idt :
    (address : ℕ) (isr irq : ℕ → ℕ) (i : ℕ)
    → entry_of (init_idt address isr irq).entries i ≡ (
        if ltb i 32
        then idt_entry (isr i) 0x08 0x8E
        else if ltb i 48
        then idt_entry (irq (i - 32)) 0x08 0x8E
        else empty_entry)
unfolding init_idt
entry_of-init_idt address isr irq i = elim (Bool-cases (ltb i 32)) [
  | inl low ↦ rw low (gates_isr isr irq i (ground arith))
  | inr high ↦ elim (Bool-cases (ltb i 48)) [
    | inl line ↦ rw (high, line) (gates_irq isr irq i (ground arith) (ground arith))
    | inr behind ↦ rw (high, behind) (gates_rest isr irq i (ground arith))
  ]
]

-- A gate for a 32-bit interrupt handler of the kernel at `base`, as the processor reads it: present
-- (bit 7 of the flags), of privilege level 0 (bits 5 and 6) and type 14 (bits 0 to 4), which
-- switches interrupts off, through the code segment 0x08, and with its reserved byte 0.
pub record IsGateTo (address : ℕ) (e : IdtEntry) : Type 0 where
  pub base : base_of e ≡ address
  pub sel : e.sel ≡ 0x08
  pub res : e.res ≡ 0
  pub present : e.flags / 2 ^ 7 ≡ 1
  pub level : e.flags / 2 ^ 5 % 2 ^ 2 ≡ 0
  pub type : e.flags % 2 ^ 5 ≡ 14

idt_entry-IsGateTo : (base : ℕ) → base < 2 ^ 32 → IsGateTo base (idt_entry base 0x08 0x8E)
unfolding idt_entry
idt_entry-IsGateTo base small = record {
  base = base_of-idt_entry base 0x08 0x8E small;
  sel = refl;
  res = refl;
  present = refl;
  level = refl;
  type = refl;
}

-- After `init_idt`, for stubs at 32-bit addresses, the processor reads entries 0 to 31 as present
-- interrupt gates of level 0 to their `isr` stub and 32 to 47 to the `irq` stub of their line,
-- through the kernel's code segment, and no other as present; the limit given is the table's size.
pub init_idt-gates :
    (address : ℕ) (isr irq : ℕ → ℕ) (i : ℕ)
    → ((k : ℕ) → k < 32 → isr k < 2 ^ 32)
    → ((k : ℕ) → k < 16 → irq k < 2 ^ 32)
    → let idt = init_idt address isr irq in
      let e = entry_of idt.entries i in
      (idt.ptr.base ≡ address)
      × (idt.ptr.limit ≡ 8 * length idt.entries)
      × (i < 32 → IsGateTo (isr i) e)
      × (32 ≤ i → i < 48 → IsGateTo (irq (i - 32)) e)
      × (48 ≤ i → e.flags / 2 ^ 7 ≡ 0)
unfolding init_idt
init_idt-gates address isr irq i isr_small irq_small = (
  refl,
  ap (λ n. 8 * n) (sym (length-set_gates irq 16 32 0 (with_isr isr irq i) ∙ full isr irq i)),
  λ h. rw (gates_isr isr irq i h) (idt_entry-IsGateTo (isr i) (isr_small i h)),
  λ h k.
      rw (gates_irq isr irq i h k)
        (idt_entry-IsGateTo (irq (i - 32)) (irq_small (i - 32) (omega arith))),
  λ h. rw (gates_rest isr irq i h) refl,
)
