-- ===== src/Idt.antt =====
-- kernel/idt.c: the interrupt descriptors. `isr k` and `irq k` are the addresses of the stubs of
-- kernel/interrupts.asm, which the linker chooses.
mod Tests
pub mod Gates
use torch_os.Base.{ℕ, zero, suc, ◌+◌, ◌*◌, ◌/◌, ◌^◌, List, set, replicate, bit_and, u8, u16}

abbrev pub idt_entries : ℕ
idt_entries = 256

pub record IdtEntry : Type 0 where
  pub base_lo : ℕ
  pub sel : ℕ
  pub res : ℕ
  pub flags : ℕ
  pub base_hi : ℕ

pub record IdtPtr : Type 0 where
  pub limit : ℕ
  pub base : ℕ

pub record Idt : Type 0 where
  pub ptr : IdtPtr
  pub entries : List IdtEntry

unfoldable pub idt_entry : (base sel flags : ℕ) → IdtEntry
idt_entry base sel flags = record {
  base_lo = u16 (bit_and base 0xFFFF);
  sel = u16 sel;
  res = 0;
  flags = u8 flags;
  base_hi = u16 (bit_and (base / 2 ^ 16) 0xFFFF);
}

unfoldable pub idt_set_gate : (n base sel flags : ℕ) → List IdtEntry → List IdtEntry
idt_set_gate n base sel flags entries = set entries (u8 n) (idt_entry base sel flags)

abbrev pub empty_entry : IdtEntry
empty_entry = record { base_lo = 0; sel = 0; res = 0; flags = 0; base_hi = 0 }

-- The calls `idt_set_gate(n, stub, 0x08, 0x8E)` for `left` numbers from `n` on, whose stubs are
-- those from `k` on.
unfoldable pub set_gates : (left n k : ℕ) → (ℕ → ℕ) → List IdtEntry → List IdtEntry
set_gates zero n k stub entries = entries
set_gates (suc left) n k stub entries =
    set_gates left (n + 1) (k + 1) stub (idt_set_gate n (stub k) 0x08 0x8E entries)

-- `address` is where the linker puts `idt`; an entry has 8 bytes. `memset` clears the table.
unfoldable pub init_idt : (address : ℕ) (isr irq : ℕ → ℕ) → Idt
init_idt address isr irq =
    let cleared = replicate idt_entries empty_entry in
    record {
      ptr = record { limit = u16 (8 * idt_entries); base = address };
      entries = set_gates 16 32 0 irq (set_gates 32 0 0 isr cleared);
    }
