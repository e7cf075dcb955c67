-- ===== src/Memory/Allocator.antt =====
-- What the file system needs of the heap: `kalloc`, which kernel/includes/memory.h defines as
-- `heap_allocate`.
use torch_os.Base.{ℕ, Outcome}
use torch_os.Memory.Machine.{Machine}
use torch_os.Memory.Heap.{heap_allocate}

pub record Allocator (S : Type 0) : Type 0 where
  pub kalloc : (size : ℕ) → S → Outcome (ℕ × S)

abbrev pub heap : (directory : ℕ) → Allocator Machine
heap directory = record { kalloc = heap_allocate directory }
