-- ===== src/Hardware/Bus.antt =====
-- What the string functions need of memory, and plain memory as the first that gives it. (Memory
-- behind the page tables is the other: Memory/Virtual.)
use torch_os.Base.{ℕ, Outcome, ok}
use torch_os.Hardware.Ram.{Ram, load8, store8}

pub record Bus (S : Type 0) : Type 0 where
  pub read : ℕ → S → Outcome ℕ
  pub write : ℕ → ℕ → S → Outcome S

abbrev pub flat : Bus Ram
flat = record { read = λ a m. ok (load8 m a); write = λ a v m. ok (store8 m a v) }
