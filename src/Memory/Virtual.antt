-- ===== src/Memory/Virtual.antt =====
-- Memory as the kernel's own loads and stores see it: through the page tables, once paging is on.
pub mod Page
use torch_os.Base.{
  ℕ, ◌+◌, ◌*◌, ◌/◌, ◌^◌, u8, none, some, Option, if◌then◌else◌, Outcome, ok, hang, ◌>>=◌,
}
use torch_os.Hardware.Ram.{load8, store8}
use torch_os.Hardware.Mmu.{translate}
use torch_os.Hardware.Bus.{Bus}
use torch_os.Memory.Machine.{Machine}

-- A page fault: `page_fault_handler` logs and hangs.
pub page_fault_handler : {A : Type 0} → Outcome A
page_fault_handler = hang

translated : Option ℕ → Outcome ℕ
translated none = page_fault_handler
translated (some a) = ok a

pub physical : ℕ → Machine → Outcome ℕ
unfolding translated
physical va m = if m.paging then translated (translate m.ram m.cr3 va) else ok va

unfoldable pub virtual_read : ℕ → Machine → Outcome ℕ
unfolding physical
virtual_read va m = do a ← physical va m; ok (load8 m.ram a)

unfoldable pub virtual_write : ℕ → ℕ → Machine → Outcome Machine
unfolding physical
virtual_write va v m = do a ← physical va m; ok (record m { ram = store8 m.ram a v })

abbrev pub virtual : Bus Machine
virtual = record { read = virtual_read; write = virtual_write }

-- A word, the low byte first.
unfoldable pub read_word : ℕ → Machine → Outcome ℕ
read_word a m = do
  b0 ← virtual_read a m
  b1 ← virtual_read (a + 1) m
  b2 ← virtual_read (a + 2) m
  b3 ← virtual_read (a + 3) m
  ok (b0 + 2 ^ 8 * b1 + 2 ^ 16 * b2 + 2 ^ 24 * b3)

unfoldable pub write_word : (a v : ℕ) → Machine → Outcome Machine
write_word a v m = do
  m1 ← virtual_write a (u8 v) m
  m2 ← virtual_write (a + 1) (u8 (v / 2 ^ 8)) m1
  m3 ← virtual_write (a + 2) (u8 (v / 2 ^ 16)) m2
  virtual_write (a + 3) (u8 (v / 2 ^ 24)) m3
