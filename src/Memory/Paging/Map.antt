-- ===== src/Memory/Paging/Map.antt =====
-- `map_page` makes the processor translate the page as asked, and no other page differently.
use torch_os.Base.{
  ℕ, ◌+◌, ◌/◌, ◌%◌, ◌^◌, ◌≤◌, ◌<◌, ◌≡◌, ◌≢◌, ◌⊎◌, inl, inr, refl, ap, ◌∙◌, false, arith, List, none,
  some, Outcome, ok, panic, Bool-cases, Option-cases,
}
use torch_os.Hardware.Ram.{load32-lt}
use torch_os.Hardware.Mmu.{present, page_of, translate, table_index}
use torch_os.Memory.Machine.{Machine, page_table_area_end}
use torch_os.Memory.Entry.{
  get_page_table_address, get_page_table_index, set_present, set_read_write, set_present_read_write,
  get_page_table_address_lem, get_page_table_index_lem, is_present_lem,
}
use torch_os.Memory.Bitmap.{claim}
use torch_os.Memory.Bitmap.FirstFit.{AllTaken, claim-none}
use torch_os.Memory.Paging.{entry_at, set_entry, map_page}
use torch_os.Memory.Paging.Directory.{HasTable, table_at, IsPaged}
use torch_os.Memory.Paging.Grow.{entry-grown, translate-grown, grown-HasTable, grown-above}
use torch_os.Memory.Paging.Write.{
  entry-written, written-IsPaged, written-above, translate-written_self, translate-written_ne,
  other_page,
}
use torch_os.Memory.Paging.Tables.{
  with_table, with_table-IsPaged, add_table-ok, new_entry, table_page, table_index_lt, Slot, slot,
}

-- What `map_page` promises on success.
pub record Maps (directory va pa : ℕ) (m m' : Machine) : Type 0 where
  pub paged : IsPaged directory m'
  pub maps : (o : ℕ) → o < 4096 → translate m'.ram directory (va + o) ≡ some (pa + o)
  -- pages that had a table before are translated as before
  pub others :
      (wa : ℕ)
      → wa < 2 ^ 32
      → wa / 4096 ≢ va / 4096
      → HasTable m.ram directory (wa / 2 ^ 22)
      → translate m'.ram directory wa ≡ translate m.ram directory wa
  -- no table is lost, and a new one is from the page table area
  pub keeps :
      (j : ℕ)
      → j < 1024
      → HasTable m.ram directory j
      → entry_at m'.ram directory j ≡ entry_at m.ram directory j
  pub new_tables :
      (j : ℕ)
      → j < 1024
      → HasTable m'.ram directory j
      → HasTable m.ram directory j
        ⊎ ((n : ℕ) × (n < 1024) × (table_at m'.ram directory j ≡ table_page n))
  pub has : HasTable m'.ram directory (va / 2 ^ 22)
  pub above : (b : ℕ) → page_table_area_end ≤ b → m'.ram b ≡ m.ram b
  pub same_paging : m'.paging ≡ m.paging
  pub same_cr3 : m'.cr3 ≡ m.cr3
  pub same_frames : m'.page_frame_bitmap ≡ m.page_frame_bitmap
  pub same_heap : m'.heap_current ≡ m.heap_current
  pub same_mapped : m'.heap_mapped ≡ m.heap_mapped

-- `map_page` once the table is there
unfoldable pub finish : ℕ → ℕ → ℕ → Machine → Machine
finish directory va pa m =
    set_entry m (table_at m.ram directory (va / 2 ^ 22)) (table_index va) (pa + 3)

module _ (directory va pa : ℕ) (m : Machine) (p : IsPaged directory m) (small_va : va < 2 ^ 32)
    (small_pa : pa < 2 ^ 32) (aligned_va : va % 4096 ≡ 0) (aligned_pa : pa % 4096 ≡ 0) where
  finish-Maps :
      HasTable m.ram directory (va / 2 ^ 22) → Maps directory va pa m (finish directory va pa m)
  unfolding finish
  finish-Maps has = record {
    paged =
        written-IsPaged directory (va / 2 ^ 22) (table_index va) (pa + 3) m p (omega arith)
          (omega arith) has;
    maps = λ o h.
        translate-written_self directory (va / 2 ^ 22) (table_index va) (pa + 3) m p (omega arith)
          (omega arith) has (va + o) (omega arith) (omega arith) (omega arith) (omega arith)
        ∙ ap some (omega arith);
    others = λ wa h ne has'.
        translate-written_ne directory (va / 2 ^ 22) (table_index va) (pa + 3) m p (omega arith)
          (omega arith) has wa h has' (other_page va wa ne);
    keeps = λ j h has'.
        entry-written directory (va / 2 ^ 22) (table_index va) (pa + 3) m p (omega arith)
          (omega arith) has j h;
    new_tables = λ j h has'. inl (
        rw
          (entry-written directory (va / 2 ^ 22) (table_index va) (pa + 3) m p (omega arith)
            (omega arith) has j h)
          at has');
    has =
        rw
          (entry-written directory (va / 2 ^ 22) (table_index va) (pa + 3) m p (omega arith)
            (omega arith) has (va / 2 ^ 22) (omega arith))
          has;
    above = λ b h.
        written-above directory (va / 2 ^ 22) (table_index va) (pa + 3) m p (omega arith)
          (omega arith) has b h;
    same_paging = refl;
    same_cr3 = refl;
    same_frames = refl;
    same_heap = refl;
    same_mapped = refl;
  }

-- The same with the new table that `map_page` takes if there is none.
Maps-grown :
    (directory va pa n : ℕ) (m : Machine) (bitmap : List ℕ)
    → IsPaged directory m
    → va < 2 ^ 32
    → claim m.page_table_bitmap ≡ some (n, bitmap)
    → present (entry_at m.ram directory (va / 2 ^ 22)) ≡ false
    → Maps directory va pa
        (with_table directory (va / 2 ^ 22) m n bitmap)
        (finish directory va pa (with_table directory (va / 2 ^ 22) m n bitmap))
    → Maps directory va pa m
        (finish directory va pa (with_table directory (va / 2 ^ 22) m n bitmap))
unfolding finish
Maps-grown directory va pa n m bitmap p small found absent s = record {
  paged = s.paged;
  maps = s.maps;
  others = λ wa h ne has.
      s.others wa h ne (rw (entry (wa / 2 ^ 22) has) has)
      ∙ translate-grown directory (va / 2 ^ 22) n m bitmap p (omega arith) found absent wa h has;
  keeps = λ j h has. s.keeps j h (rw (entry j has) has) ∙ entry j has;
  new_tables = λ j h has. added j h has (s.new_tables j h has);
  has = s.has;
  above = λ b h.
      s.above b h ∙ grown-above directory (va / 2 ^ 22) n m bitmap p (omega arith) found absent b h;
  same_paging = refl;
  same_cr3 = refl;
  same_frames = refl;
  same_heap = refl;
  same_mapped = refl;
}
  where
    entry :
        (j : ℕ)
        → HasTable m.ram directory j
        → entry_at (with_table directory (va / 2 ^ 22) m n bitmap).ram directory j
          ≡ entry_at m.ram directory j
    entry = entry-grown directory (va / 2 ^ 22) n m bitmap p (omega arith) found absent

    after : Machine
    after = finish directory va pa (with_table directory (va / 2 ^ 22) m n bitmap)

    before : Machine
    before = with_table directory (va / 2 ^ 22) m n bitmap

    by_slot :
        (j : ℕ)
        → j < 1024
        → HasTable before.ram directory j
        → Slot directory (va / 2 ^ 22) n m bitmap p found j
        → HasTable m.ram directory j
          ⊎ ((k : ℕ) × (k < 1024) × (table_at after.ram directory j ≡ table_page k))
    by_slot j h has (inr (ne, old, t)) = inl old
    by_slot j h has (inl (same, t)) = inr (
      n,
      table_index_lt directory (va / 2 ^ 22) n m bitmap p found,
      ap (λ (e : ℕ). page_of e) (s.keeps j h has) ∙ t,
    )

    added :
        (j : ℕ)
        → j < 1024
        → HasTable after.ram directory j
        → HasTable before.ram directory j
          ⊎ ((k : ℕ) × (k < 1024) × (table_at after.ram directory j ≡ table_page k))
        → HasTable m.ram directory j
          ⊎ ((k : ℕ) × (k < 1024) × (table_at after.ram directory j ≡ table_page k))
    added j h has (inr new) = inr new
    added j h has (inl before') =
        by_slot j h before' (slot directory (va / 2 ^ 22) n m bitmap p found j before')

-- What `map_page` does on aligned addresses: it maps the page, or it panics because the page needs
-- a new table and every table is taken.
pub data Mapped (directory va pa : ℕ) (m : Machine) : Outcome Machine → Type 0 where
  mapped : {m' : Machine} → Maps directory va pa m m' → Mapped directory va pa m (ok m')
  no_tables :
      present (entry_at m.ram directory (va / 2 ^ 22)) ≡ false
      → AllTaken m.page_table_bitmap
      → Mapped directory va pa m
          (panic "Trying to allocate page tables but no page tables left to allocate!")

module _ (directory va pa : ℕ) (m : Machine) (small_va : va < 2 ^ 32) (aligned_va : va % 4096 ≡ 0)
    (aligned_pa : pa % 4096 ≡ 0) where
  -- The masks and flags of the source, as arithmetic.
  entry_written :
      (pde : ℕ) (m1 : Machine)
      → pde < 2 ^ 32
      → set_entry m1
          (get_page_table_address pde)
          (get_page_table_index va)
          (set_read_write (set_present pa))
        ≡ set_entry m1 (page_of pde) (table_index va) (pa + 3)
  entry_written pde m1 small = rw (
    get_page_table_address_lem pde small,
    get_page_table_index_lem va,
    set_present_read_write pa aligned_pa,
  )

  pub map_page-present :
      HasTable m.ram directory (va / 2 ^ 22)
      → map_page directory va pa m ≡ ok (finish directory va pa m)
  unfolding map_page finish
  map_page-present has =
      rw (aligned_va, aligned_pa, is_present_lem, has)
        (ap ok (entry_written (entry_at m.ram directory (va / 2 ^ 22)) m (load32-lt m.ram _)))

  map_page-grown :
      (n : ℕ) (bitmap : List ℕ)
      → IsPaged directory m
      → claim m.page_table_bitmap ≡ some (n, bitmap)
      → present (entry_at m.ram directory (va / 2 ^ 22)) ≡ false
      → map_page directory va pa m
        ≡ ok (finish directory va pa (with_table directory (va / 2 ^ 22) m n bitmap))
  unfolding map_page finish
  map_page-grown n bitmap p found absent =
      let new = new_entry directory (va / 2 ^ 22) n m bitmap p found in
      rw
        (
          aligned_va,
          aligned_pa,
          is_present_lem,
          absent,
          add_table-ok directory (va / 2 ^ 22) n m bitmap p found,
          new,
        )
        (ap ok (
          entry_written (table_page n + 3) (with_table directory (va / 2 ^ 22) m n bitmap)
            (omega (arith, table_index_lt directory (va / 2 ^ 22) n m bitmap p found))))

  map_page-none :
      claim m.page_table_bitmap ≡ none
      → present (entry_at m.ram directory (va / 2 ^ 22)) ≡ false
      → map_page directory va pa m
        ≡ panic "Trying to allocate page tables but no page tables left to allocate!"
  unfolding map_page
  map_page-none found absent = rw (aligned_va, aligned_pa, is_present_lem, absent, found)

-- On a well-formed directory and for aligned 32-bit addresses `map_page` makes the processor
-- translate the page `va` to the page `pa` and every other page that had a table as before, and
-- keeps the directory well formed; or the page has no table, all tables are taken, and it panics.
pub map_page-Mapped :
    (directory va pa : ℕ) (m : Machine)
    → IsPaged directory m
    → va < 2 ^ 32
    → pa < 2 ^ 32
    → va % 4096 ≡ 0
    → pa % 4096 ≡ 0
    → Mapped directory va pa m (map_page directory va pa m)
map_page-Mapped directory va pa m p small_va small_pa aligned_va aligned_pa =
    elim (Bool-cases (present (entry_at m.ram directory (va / 2 ^ 22)))) [
      | inl has ↦
          rw (map_page-present directory va pa m small_va aligned_va aligned_pa has)
            (mapped (finish-Maps directory va pa m p small_va small_pa aligned_va aligned_pa has))
      | inr absent ↦ elim (Option-cases (claim m.page_table_bitmap)) [
        | inl full ↦
            rw (map_page-none directory va pa m small_va aligned_va aligned_pa full absent)
              (no_tables absent (claim-none m.page_table_bitmap p.bitmap_words full))
        | inr ((n, bitmap), found) ↦
            rw
              (map_page-grown directory va pa m small_va aligned_va aligned_pa n bitmap p found
                absent)
              (mapped (
                Maps-grown directory va pa n m bitmap p small_va found absent (
                  finish-Maps directory va pa _
                    (with_table-IsPaged directory (va / 2 ^ 22) n m bitmap p found) small_va
                    small_pa aligned_va aligned_pa
                    (grown-HasTable directory (va / 2 ^ 22) n m bitmap p (omega arith) found
                      absent))))
      ]
    ]
