-- ===== src/Memory/Frames.antt =====
-- The page frame allocator of kernel/memory.c.
pub mod Allocate
use torch_os.Base.{
  ℕ, ◌+◌, ◌*◌, ◌%◌, not, ◌==◌, List, replicate, Outcome, ok, ◌>>=◌, ◌>>◌, panic_if, expect,
}
use torch_os.Strings.{memset}
use torch_os.Memory.Machine.{
  Machine, page_size, page_frame_area_start, page_frame_area_end, page_frame_bitmap_size,
}
use torch_os.Memory.Bitmap.{claim}
use torch_os.Memory.Paging.{map_page}
use torch_os.Memory.Virtual.{virtual}

-- `memset` clears the whole array.
unfoldable pub init_page_frame_allocator : Machine → Outcome Machine
init_page_frame_allocator m = do
  let m1 = record m { page_frame_bitmap = replicate page_frame_bitmap_size 0 }
  panic_if (not (page_frame_area_start % page_size == 0))
      "Page Frame Allocator does not start at a page aligned address!"
  panic_if (not (page_frame_area_end % page_size == 0))
      "Page Frame Allocator does not end at a page aligned address!"
  ok m1

-- The pointer that is returned, and the machine. `page_index` is below 59136, so the address does
-- not wrap.
unfoldable pub page_frame_allocate :
    (directory virtual_address : ℕ) → Machine → Outcome (ℕ × Machine)
page_frame_allocate directory virtual_address m = do
  panic_if (not (virtual_address % page_size == 0))
      "Trying to allocate page frame at unaligned address!"
  (page_index, bitmap) ←
      expect (claim m.page_frame_bitmap) "Page frame allocator has run out of space!"
  let physical_address = page_frame_area_start + page_size * page_index
  m1 ← map_page directory virtual_address physical_address (record m { page_frame_bitmap = bitmap })
  (_, m2) ← memset virtual virtual_address 0 page_size m1
  ok (virtual_address, m2)
