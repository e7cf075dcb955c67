-- ===== src/Memory/Init.antt =====
-- `init_paging` of kernel/memory.c.
pub mod Linked
pub mod Start
use torch_os.Base.{ℕ, zero, suc, ◌+◌, true, bit_or, Outcome, ok, ◌>>=◌}
use torch_os.Isr.{Handler, Handlers, register_interrupt_handler}
use torch_os.Memory.Machine.{Machine, kernel_start, kernel_end}
use torch_os.Memory.Paging.{set_entry, map_page, identity_map_range}
use torch_os.Memory.Frames.{init_page_frame_allocator}
use torch_os.Memory.Tables.{init_page_table_allocator}
use torch_os.Memory.Heap.{init_heap_allocator}

-- `for (unsigned int i = 0; i < 1024; i++) page_directory[i] = 0x00000002;` at `i`
unfoldable pub clear_directory : (left i directory : ℕ) → Machine → Machine
clear_directory zero i directory m = m
clear_directory (suc left) i directory m =
    clear_directory left (i + 1) directory (set_entry m directory i 0x00000002)

-- `load_page_directory` and `enable_paging` of kernel/utility.asm
unfoldable pub load_page_directory : ℕ → Machine → Machine
load_page_directory directory m = record m { cr3 = directory }

unfoldable pub enable_paging : Machine → Machine
enable_paging m = record m { paging = true }

-- `directory`, `first` and `second` are the addresses of the page directory and of the two first
-- page tables, which the linker chooses; `fault_handler` is `page_fault_handler`.
unfoldable pub init_paging :
    {S : Type 0}
    → (clear_behind : Machine → Machine) → (directory first second : ℕ) (fault_handler : Handler S)
    → Handlers S
    → Machine
    → Outcome (Handlers S × Machine)
unfolding clear_directory load_page_directory enable_paging
init_paging clear_behind directory first second fault_handler table m = do
  let table' = register_interrupt_handler 14 fault_handler table
  let m1 = clear_directory 1024 0 directory m
  let m2 = set_entry m1 directory 0 (bit_or first 3)
  let m3 = set_entry m2 directory 1 (bit_or second 3)
  m4 ← identity_map_range directory kernel_start kernel_end m3
  m5 ← init_page_frame_allocator m4
  m6 ← init_page_table_allocator clear_behind directory m5
  m7 ← init_heap_allocator m6
  m8 ← map_page directory 0xb8000 0xb8000 m7
  ok (table', enable_paging (load_page_directory directory m8))
