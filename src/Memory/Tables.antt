-- ===== src/Memory/Tables.antt =====
-- `init_page_table_allocator` of kernel/memory.c.
pub mod Lost
use torch_os.Base.{ℕ, ◌≡◌, ◌%◌, not, ◌==◌, replicate, Outcome, ok, ◌>>=◌, ◌>>◌, panic_if}
use torch_os.Memory.Machine.{
  Machine, page_size, page_table_area_start, page_table_area_end, page_table_bitmap_size,
}
use torch_os.Memory.Bitmap.{bit_of}
use torch_os.Memory.Paging.{identity_map_range}

-- The linker puts neither the directory nor a table there; clearing sets no bit of the other array.
pub record IsBehind (clear_behind : Machine → Machine) : Type 0 where
  pub ram : (m : Machine) → (clear_behind m).ram ≡ m.ram
  pub frames :
      (m : Machine) (n : ℕ)
      → bit_of m.page_frame_bitmap n ≡ 0
      → bit_of (clear_behind m).page_frame_bitmap n ≡ 0

-- The source clears `sizeof(page_frame_bitmap)` bytes, 1848 words, from the start of an array of
-- 32: `clear_behind` clears what the linker puts in the 1816 words behind it.
unfoldable pub init_page_table_allocator :
    (clear_behind : Machine → Machine) → ℕ → Machine → Outcome Machine
init_page_table_allocator clear_behind directory m = do
  m1 ← identity_map_range directory page_table_area_start page_table_area_end m
  let m2 = record (clear_behind m1) { page_table_bitmap = replicate page_table_bitmap_size 0 }
  panic_if (not (page_table_area_start % page_size == 0))
      "Page Table Allocator does not start at a page aligned address!"
  panic_if (not (page_table_area_end % page_size == 0))
      "Page Table Allocator does not end at a page aligned address!"
  ok m2
