-- ===== src/Interrupts/Resume.antt =====
-- After an interrupt the program goes on as if nothing had happened.
use torch_os.Base.{
  ℕ, ◌+◌, ◌-◌, ◌*◌, ◌^◌, ◌≤◌, ◌<◌, ◌≡◌, ◌≢◌, inl, inr, true, false, refl, ap, ◌∙◌, arith, [], u16,
  add32, if◌then◌else◌, Bool-cases, ok, get_or,
}
use torch_os.Hardware.Ram.{load32}
use torch_os.Idt.{IdtEntry}
use torch_os.Interrupts.{
  Cpu, Call, push, cli, deliver, save_context, restore_isr, restore_irq, has_code, pushes_code, isr,
  irq, isr_common_stub, irq_common_stub, exception, interrupt,
}
use torch_os.Interrupts.Stack.{Holds, onto, Holds-get, Holds-same}
use torch_os.Interrupts.Enter.{IsCpu, saved, Entered, stacked-Entered}

-- What a called function leaves alone: the stack's pointer, and the stack above its argument.
pub record Kept (c c' : Cpu) : Type 0 where
  pub esp : c'.esp ≡ c.esp
  pub memory : (a : ℕ) → c.esp + 4 ≤ a → a < c.esp + 60 → c'.memory a ≡ c.memory a

-- The interrupted program goes on with its registers; the four data segments are as DS was.
pub record Resumed (c c' : Cpu) : Type 0 where
  pub eax : c'.eax ≡ c.eax
  pub ecx : c'.ecx ≡ c.ecx
  pub edx : c'.edx ≡ c.edx
  pub ebx : c'.ebx ≡ c.ebx
  pub esp : c'.esp ≡ c.esp
  pub ebp : c'.ebp ≡ c.ebp
  pub esi : c'.esi ≡ c.esi
  pub edi : c'.edi ≡ c.edi
  pub eip : c'.eip ≡ c.eip
  pub eflags : c'.eflags ≡ c.eflags
  pub cs : c'.cs ≡ c.cs
  pub ds : c'.ds ≡ c.ds
  pub es : c'.es ≡ c.ds
  pub fs : c'.fs ≡ c.ds
  pub gs : c'.gs ≡ c.ds

module _ (n code : ℕ) (c c1 c2 : Cpu) (is : IsCpu c) (e : Entered n code c c1)
    (k : Kept c1 c2) where
  abbrev q : ℕ
  q = c.esp - 56

  still_saved : Holds c2.memory q (onto (saved n code c) [])
  still_saved =
      let room = is.room in
      let esp = e.esp in
      let up : c.esp - 60 + 4 ≡ q = omega arith in
      Holds-same c1.memory c2.memory q (onto (saved n code c) [])
        (λ a from below. k.memory a (omega arith) (omega arith)) (rw up at e.holds.1)

  word :
      (a i : ℕ)
      → a ≡ q + 4 * i
      → i < 14
      → load32 c2.memory a ≡ get_or (onto (saved n code c) []) i 0
  word a i at below = rw at (Holds-get (onto (saved n code c) []) c2.memory q i still_saved below)

  -- Both stubs do the same behind the call.
  restore-same : restore_irq c2 ≡ restore_isr c2
  unfolding restore_isr restore_irq
  restore-same = refl

  restore_isr-Resumed : Resumed c (restore_isr c2)
  unfolding restore_isr
  restore_isr-Resumed =
      let room = is.room in
      let small = is.esp in
      let from : c2.esp ≡ c.esp - 60 = k.esp ∙ e.esp in
      let ds = is.ds in
      let cs = is.cs in
      let segment : u16 (load32 c2.memory (add32 c2.esp 4)) ≡ c.ds =
        rw (word (add32 c2.esp 4) 0 (omega arith) (omega arith)) (omega arith) in
      record {
        eax = word _ 8 (omega arith) (omega arith);
        ecx = word _ 7 (omega arith) (omega arith);
        edx = word _ 6 (omega arith) (omega arith);
        ebx = word _ 5 (omega arith) (omega arith);
        esp = omega arith;
        ebp = word _ 3 (omega arith) (omega arith);
        esi = word _ 2 (omega arith) (omega arith);
        edi = word _ 1 (omega arith) (omega arith);
        eip = word _ 11 (omega arith) (omega arith);
        eflags = word _ 13 (omega arith) (omega arith);
        cs = ap u16 (word _ 12 (omega arith) (omega arith)) ∙ omega arith;
        ds = segment;
        es = segment;
        fs = segment;
        gs = segment;
      }

  pub restored : Resumed c (restore_isr c2) × Resumed c (restore_irq c2)
  restored = (restore_isr-Resumed, rw restore-same restore_isr-Resumed)

-- The stub's call returns, with the handlers' state `s'`, and leaves the stack alone.
abbrev pub Returns : {S : Type 0} → Call S → S → S → Cpu → Type 0
Returns call s s' c1 = (c2 : Cpu) × (call c1 s ≡ ok (c2, s')) × Kept c1 c2

-- The exceptions whose stub agrees with the processor about the error code.
abbrev pub Agrees : ℕ → Type 0
Agrees n = (n ≢ 17) × (n ≢ 21) × (n ≢ 29) × (n ≢ 30)

has_code-pushes_code : (n : ℕ) → Agrees n → has_code n ≡ pushes_code n
has_code-pushes_code n (ne_17, ne_21, ne_29, ne_30) = ground arith

module _ {S : Type 0} (call : Call S) (gate : IdtEntry) (n code : ℕ) (c : Cpu) (s s' : S)
    (is : IsCpu c) (code_word : code < 2 ^ 32) where
  -- At an interrupt below 32 but 17, 21, 29 and 30, in a program with 60 bytes of stack, its stub
  -- calls with a context of its registers, the number, and the error code, or 0 where none is
  -- pushed; if the call returns and keeps the stack, the program goes on with its registers, all
  -- segments as DS.
  pub exception-Resumed :
      n < 32
      → Agrees n
      → ((c1 : Cpu) → Entered n (if pushes_code n then code else 0) c c1 → Returns call s s' c1)
      → (c' : Cpu) × (exception call gate n code c s ≡ ok (c', s')) × Resumed c c'
  unfolding exception isr isr_common_stub deliver save_context
  exception-Resumed small agrees handles = elim (Bool-cases (pushes_code n)) [
    | inl with_code ↦
        let stub : has_code n ≡ true = has_code-pushes_code n agrees ∙ with_code in
        let c1 = save_context (push n (cli (push code (deliver gate c)))) in
        let e : Entered n code c c1 =
          stacked-Entered n code c is (omega arith) code_word c1 refl refl in
        let (c2, returns, k) = rw with_code at handles c1 e in
        (restore_isr c2, rw (with_code, stub, returns) refl, (restored n code c c1 c2 is e k).0)
    | inr without ↦
        let stub : has_code n ≡ false = has_code-pushes_code n agrees ∙ without in
        let c1 = save_context (push n (push 0 (cli (deliver gate c)))) in
        let e : Entered n 0 c c1 =
          stacked-Entered n 0 c is (omega arith) (omega arith) c1 refl refl in
        let (c2, returns, k) = rw without at handles c1 e in
        (restore_isr c2, rw (without, stub, returns) refl, (restored n 0 c c1 c2 is e k).0)
  ]

  pub interrupt-Resumed :
      n < 16
      → ((c1 : Cpu) → Entered (32 + n) 0 c c1 → Returns call s s' c1)
      → (c' : Cpu) × (interrupt call gate n c s ≡ ok (c', s')) × Resumed c c'
  unfolding interrupt irq irq_common_stub deliver save_context
  interrupt-Resumed small handles =
      let c1 = save_context (push (32 + n) (push 0 (cli (deliver gate c)))) in
      let e : Entered (32 + n) 0 c c1 =
        stacked-Entered (32 + n) 0 c is (omega arith) (omega arith) c1 refl refl in
      let (c2, returns, k) = handles c1 e in
      (restore_irq c2, rw returns refl, (restored (32 + n) 0 c c1 c2 is e k).1)
