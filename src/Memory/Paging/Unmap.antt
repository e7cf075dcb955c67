-- ===== src/Memory/Paging/Unmap.antt =====
-- `unmap_page` takes the page out of the translation, and no other page.
use torch_os.Base.{
  ℕ, ◌+◌, ◌/◌, ◌%◌, ◌^◌, ◌<◌, ◌-◌, ◌≡◌, ◌≢◌, inl, inr, refl, false, arith, none, some, Outcome, ok,
  panic, Bool-cases, if◌then◌else◌,
}
use torch_os.Hardware.Ram.{load32-lt}
use torch_os.Hardware.Mmu.{present, page_of, translate, table_index, table_slot}
use torch_os.Memory.Machine.{Machine}
use torch_os.Memory.Entry.{
  get_page_table_address_lem, get_page_table_index_lem, is_present_lem, unset_present_lem,
}
use torch_os.Memory.Paging.{entry_at, set_entry, unmap_page}
use torch_os.Memory.Paging.Directory.{HasTable, table_at, IsPaged}
use torch_os.Memory.Paging.Write.{
  written-IsPaged, translate-written_clear, translate-written_ne, other_page,
}

-- What `unmap_page` promises on success.
pub record Unmaps (directory va : ℕ) (m m' : Machine) : Type 0 where
  pub paged : IsPaged directory m'
  pub gone : (o : ℕ) → o < 4096 → translate m'.ram directory (va + o) ≡ none
  pub others :
      (wa : ℕ)
      → wa < 2 ^ 32
      → wa / 4096 ≢ va / 4096
      → HasTable m.ram directory (wa / 2 ^ 22)
      → translate m'.ram directory wa ≡ translate m.ram directory wa
  pub same_tables : m'.page_table_bitmap ≡ m.page_table_bitmap
  pub same_frames : m'.page_frame_bitmap ≡ m.page_frame_bitmap

-- On an aligned address `unmap_page` unmaps a page that was mapped, and panics on any other.
pub data Unmapped (directory va : ℕ) (m : Machine) : Outcome Machine → Type 0 where
  unmapped :
      {m' : Machine}
      → translate m.ram directory va ≢ none
      → Unmaps directory va m m'
      → Unmapped directory va m (ok m')
  no_entry :
      present (entry_at m.ram directory (va / 2 ^ 22)) ≡ false
      → translate m.ram directory va ≡ none
      → Unmapped directory va m
          (panic "Trying to unmap a virtual address that does not have a page directory entry!")
  no_page :
      HasTable m.ram directory (va / 2 ^ 22)
      → translate m.ram directory va ≡ none
      → Unmapped directory va m
          (panic "Trying to unmap a virtual address that has not been mapped yet!")

module _ (directory va : ℕ) (m : Machine) (p : IsPaged directory m) (small_va : va < 2 ^ 32)
    (aligned_va : va % 4096 ≡ 0) where
  abbrev page_entry : ℕ
  page_entry = entry_at m.ram (table_at m.ram directory (va / 2 ^ 22)) (table_index va)

  abbrev cleared : Machine
  cleared =
      set_entry m (table_at m.ram directory (va / 2 ^ 22)) (table_index va)
        (page_entry - page_entry % 2)

  cleared-Unmaps : HasTable m.ram directory (va / 2 ^ 22) → Unmaps directory va m cleared
  cleared-Unmaps has = record {
    paged =
        written-IsPaged directory (va / 2 ^ 22) (table_index va) _ m p (omega arith) (omega arith)
          has;
    gone = λ o h.
        translate-written_clear directory (va / 2 ^ 22) (table_index va)
          (page_entry - page_entry % 2) m p (omega arith) (omega arith) has (va + o) (omega arith)
          (omega arith)
          (omega (arith, load32-lt m.ram (table_slot (table_at m.ram directory (va / 2 ^ 22)) va)))
          (omega arith);
    others = λ wa h ne has'.
        translate-written_ne directory (va / 2 ^ 22) (table_index va) _ m p (omega arith)
          (omega arith) has wa h has' (other_page va wa ne);
    same_tables = refl;
    same_frames = refl;
  }

  unmap-at_table :
      HasTable m.ram directory (va / 2 ^ 22)
      → unmap_page directory va m ≡ (
          if present page_entry
          then ok cleared
          else panic "Trying to unmap a virtual address that has not been mapped yet!")
  unfolding unmap_page
  unmap-at_table has =
      rw
        (
          aligned_va,
          is_present_lem,
          has,
          get_page_table_address_lem (entry_at m.ram directory (va / 2 ^ 22)) (load32-lt m.ram _),
          get_page_table_index_lem va,
          is_present_lem,
          unset_present_lem page_entry (load32-lt m.ram _),
        )
        (elim (Bool-cases (present page_entry)) [ inl e ↦ rw e | inr e ↦ rw e ])

  translate-at_table :
      HasTable m.ram directory (va / 2 ^ 22)
      → translate m.ram directory va
        ≡ (if present page_entry then some (page_of page_entry + va % 4096) else none)
  unfolding translate
  translate-at_table has = rw has

  translate-no_entry :
      present (entry_at m.ram directory (va / 2 ^ 22)) ≡ false → translate m.ram directory va ≡ none
  unfolding translate
  translate-no_entry absent = rw absent

  unmap-no_entry :
      present (entry_at m.ram directory (va / 2 ^ 22)) ≡ false
      → unmap_page directory va m
        ≡ panic "Trying to unmap a virtual address that does not have a page directory entry!"
  unfolding unmap_page
  unmap-no_entry absent = rw (aligned_va, is_present_lem, absent)

  -- On a well-formed directory and an aligned 32-bit address `unmap_page` takes exactly that page
  -- out of the translation if it was translated, and panics if it was not, with one message where
  -- the page has no table and another where it has.
  pub unmap_page-Unmapped : Unmapped directory va m (unmap_page directory va m)
  unmap_page-Unmapped = elim (Bool-cases (present (entry_at m.ram directory (va / 2 ^ 22)))) [
    | inr absent ↦ rw (unmap-no_entry absent) (no_entry absent (translate-no_entry absent))
    | inl has ↦ elim (Bool-cases (present page_entry)) [
      | inl there ↦
          rw (unmap-at_table has, there)
            (unmapped (λ e. let t = rw (translate-at_table has, there) at e in cc)
              (cleared-Unmaps has))
      | inr gone ↦ rw (unmap-at_table has, gone) (no_page has (rw (translate-at_table has, gone)))
    ]
  ]
