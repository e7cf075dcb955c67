-- ===== src/Hardware/Mmu.antt =====
-- The address translation that the processor makes with 32-bit paging and 4 KiB pages: the
-- specification that the page tables of kernel/memory.c are written for.
use torch_os.Base.{ℕ, ◌+◌, ◌*◌, ◌/◌, ◌%◌, ◌^◌, Bool, Option, none, some, ◌==◌, if◌then◌else◌}
use torch_os.Hardware.Ram.{Ram, load32}

-- Bit 0 of an entry says that it is present; bits 12 to 31 are the address of a page.
abbrev pub present : ℕ → Bool
present entry = entry % 2 == 1

abbrev pub page_of : ℕ → ℕ
page_of entry = entry / 2 ^ 12 * 2 ^ 12

-- Bits 22 to 31, 12 to 21 and 0 to 11 of a virtual address.
abbrev pub directory_index : ℕ → ℕ
directory_index va = va / 2 ^ 22

abbrev pub table_index : ℕ → ℕ
table_index va = va / 2 ^ 12 % 2 ^ 10

abbrev pub offset : ℕ → ℕ
offset va = va % 2 ^ 12

-- Where the entry of `va` stands in a directory or in a table.
abbrev pub directory_slot : ℕ → ℕ → ℕ
directory_slot directory va = directory + 4 * directory_index va

abbrev pub table_slot : ℕ → ℕ → ℕ
table_slot table va = table + 4 * table_index va

abbrev pub through_table : Ram → ℕ → ℕ → Option ℕ
through_table m table va =
    let pte = load32 m (table_slot table va) in
    if present pte then some (page_of pte + offset va) else none

-- `none` is a page fault.
unfoldable pub translate : Ram → ℕ → ℕ → Option ℕ
translate m directory va =
    let pde = load32 m (directory_slot directory va) in
    if present pde then through_table m (page_of pde) va else none
