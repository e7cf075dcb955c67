-- ===== src/Memory/Paging.antt =====
-- `page_table_allocate`, `map_page`, `unmap_page` and `identity_map_range` of kernel/memory.c.
-- The directory and the tables are read and written at their own addresses, since the code keeps
-- them in memory that is mapped to itself.
pub mod Directory
pub mod Map
pub mod Unmap
pub mod Range
pub mod Grow
pub mod Write
pub mod Tables
use torch_os.Base.{
  ℕ, zero, suc, ◌+◌, ◌*◌, ◌/◌, ◌%◌, ◌^◌, Bool, not, List, Option, ◌==◌, ltb, if◌then◌else◌, add32,
  bit_or, Outcome, ok, panic, out_of_fuel, ◌>>=◌, ◌>>◌, panic_if, expect,
}
use torch_os.Hardware.Ram.{Ram, load32, store32}
use torch_os.Memory.Machine.{Machine, page_size, page_table_area_start}
use torch_os.Memory.Entry.{
  get_page_table_address, get_page_table_index, is_present, set_present, unset_present,
  set_read_write,
}
use torch_os.Memory.Bitmap.{claim}

-- `index` is below 1024, so the address does not wrap.
pub page_table_allocate : Machine → Outcome (ℕ × Machine)
page_table_allocate m = do
  (index, bitmap) ←
      expect (claim m.page_table_bitmap)
        "Trying to allocate page tables but no page tables left to allocate!"
  ok (page_table_area_start + page_size * index, record m { page_table_bitmap = bitmap })

-- `*(kernel_page_directory + index)`
abbrev pub entry_at : Ram → ℕ → ℕ → ℕ
entry_at ram directory index = load32 ram (directory + 4 * index)

abbrev pub set_entry : Machine → ℕ → ℕ → ℕ → Machine
set_entry m table index entry = record m { ram = store32 m.ram (table + 4 * index) entry }

-- The parts of `map_page` that see to the page table: a new table is put into the directory, and
-- the directory's entry is read once it is present.
pub add_table : ℕ → ℕ → Machine → Outcome (ℕ × Machine)
unfolding page_table_allocate
add_table directory index m = do
  (new_page_table, m1) ← page_table_allocate m
  let m2 = set_entry m1 directory index (bit_or new_page_table 3)
  ok (entry_at m2.ram directory index, m2)

pub present_entry : ℕ → ℕ → Machine → Outcome (ℕ × Machine)
unfolding add_table
present_entry directory index m =
    let pde = entry_at m.ram directory index in
    if not (is_present pde) then add_table directory index m else ok (pde, m)

unfoldable pub map_page :
    (directory virtual_address physical_address : ℕ) → Machine → Outcome Machine
unfolding present_entry
map_page directory virtual_address physical_address m = do
  panic_if (not (virtual_address % page_size == 0))
      "Trying to map a virtual address that is not page aligned!"
  panic_if (not (physical_address % page_size == 0))
      "Trying to map a physical address that is not page aligned!"
  (pde, m1) ← present_entry directory (virtual_address / 2 ^ 22) m
  let page_table = get_page_table_address pde
  let page_table_index = get_page_table_index virtual_address
  ok (set_entry m1 page_table page_table_index (set_read_write (set_present physical_address)))

unfoldable pub unmap_page : (directory virtual_address : ℕ) → Machine → Outcome Machine
unmap_page directory virtual_address m = do
  panic_if (not (virtual_address % page_size == 0))
      "Trying to unmap a virtual address that is not page aligned!"
  let pde = entry_at m.ram directory (virtual_address / 2 ^ 22)
  panic_if (not (is_present pde))
      "Trying to unmap a virtual address that does not have a page directory entry!"
  let page_table = get_page_table_address pde
  let page_table_index = get_page_table_index virtual_address
  let physical_address = entry_at m.ram page_table page_table_index
  panic_if (not (is_present physical_address))
      "Trying to unmap a virtual address that has not been mapped yet!"
  ok (set_entry m page_table page_table_index (unset_present physical_address))

-- The loop at `addr`, whose `addr += PAGE_SIZE` wraps. Each round moves on by a page.
pub map_from : (fuel directory addr end_address : ℕ) → Machine → Outcome Machine
map_from zero directory addr end_address m = out_of_fuel
map_from (suc fuel) directory addr end_address m =
    let rest = λ (m1 : Machine). map_from fuel directory (add32 addr page_size) end_address m1 in
    if ltb addr end_address then map_page directory addr addr m >>= rest else ok m

-- A range of 32-bit addresses has at most 2 ^ 20 pages.
unfoldable pub identity_map_range :
    (directory start_address end_address : ℕ) → Machine → Outcome Machine
unfolding map_from
identity_map_range directory start_address end_address m =
    map_from (2 ^ 20 + 1) directory start_address end_address m
