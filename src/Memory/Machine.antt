-- ===== src/Memory/Machine.antt =====
-- The state and the constants of kernel/memory.c and kernel/includes/memory.h.
use torch_os.Base.{ℕ, ◌-◌, ◌/◌, Bool, List}
use torch_os.Hardware.Ram.{Ram}

abbrev pub page_size : ℕ
page_size = 4096

abbrev pub kernel_start : ℕ
kernel_start = 0x00100000

abbrev pub kernel_end : ℕ
kernel_end = 0x00300000

abbrev pub page_table_area_start : ℕ
page_table_area_start = 0x00500000

abbrev pub page_table_area_end : ℕ
page_table_area_end = 0x00900000

abbrev pub page_frame_area_start : ℕ
page_frame_area_start = 0x00900000

abbrev pub page_frame_area_end : ℕ
page_frame_area_end = 0x0F000000

abbrev pub heap_area_start : ℕ
heap_area_start = 0x0F000000

abbrev pub heap_area_end : ℕ
heap_area_end = 0x11000000

abbrev pub page_frame_bitmap_size : ℕ
page_frame_bitmap_size = (page_frame_area_end - page_frame_area_start) / page_size / 32

abbrev pub page_table_bitmap_size : ℕ
page_table_bitmap_size = (page_table_area_end - page_table_area_start) / page_size / 32

-- The memory, the processor's paging registers, and the global variables of memory.c (but
-- `next_page_table`, which nothing reads or writes).
pub record Machine : Type 0 where
  pub ram : Ram
  -- the paging bit of CR0, and CR3
  pub paging : Bool
  pub cr3 : ℕ
  pub page_frame_bitmap : List ℕ
  pub page_table_bitmap : List ℕ
  pub heap_current : ℕ
  pub heap_mapped : ℕ
