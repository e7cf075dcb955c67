-- ===== src/Memory/Tables/Lost.antt =====
-- The page table that `init_page_table_allocator` takes is marked free again.
use torch_os.Base.{
  ℕ, zero, suc, ◌*◌, ◌/◌, ◌^◌, ◌<◌, ◌-◌, ◌≡◌, inl, inr, refl, sym, ◌∙◌, false, arith, some, Outcome,
  ok, panic, Bool-cases, ltb, replicate,
}
use mathlib.Core.Bool.{false≢true}
use torch_os.Base.Bits.{bit_zero}
use torch_os.Hardware.Ram.{Ram}
use torch_os.Memory.Paging.Tables.{table_page}
use torch_os.Hardware.Mmu.{present, translate}
use torch_os.Memory.Machine.{Machine, page_table_area_start, page_table_area_end}
use torch_os.Memory.Bitmap.{bit_of}
use torch_os.Memory.Paging.{entry_at, identity_map_range}
use torch_os.Memory.Paging.Directory.{HasTable, table_at, IsPaged}
use torch_os.Memory.Paging.Range.{
  MapsUpTo, IdentityMaps, RangeMapped, range_mapped, no_tables_left, identity_map_range-RangeMapped,
}
use torch_os.Memory.Bitmap.FirstFit.{AllTaken}
use torch_os.Memory.Tables.{IsBehind, init_page_table_allocator}

-- A page that is translated has a table.
pub HasTable-of_translate :
    (ram : Ram) (directory va a : ℕ)
    → translate ram directory va ≡ some a
    → HasTable ram directory (va / 2 ^ 22)
unfolding translate
HasTable-of_translate ram directory va a e =
    elim (Bool-cases (present (entry_at ram directory (va / 2 ^ 22)))) [
      | inl has ↦ has
      | inr absent ↦ let e' = rw absent at e in cc
    ]

pub bit_of-replicate : (k n : ℕ) → n < 32 * k → bit_of (replicate k 0) n ≡ 0
bit_of-replicate zero n h = absurd (omega arith)
bit_of-replicate (suc k) n h = elim (Bool-cases (ltb n 32)) [
  | inl low ↦ rw low (bit_zero n)
  | inr high ↦ rw high (bit_of-replicate k (n - 32) (ground arith))
]

-- Part 2 of the directory is left with a table of the page table area that counts as free.
pub data Lost (directory : ℕ) (m : Machine) : Outcome Machine → Type 0 where
  lost :
      {m' : Machine} (n : ℕ)
      → n < 1024
      → HasTable m'.ram directory 2
      → table_at m'.ram directory 2 ≡ table_page n
      → bit_of m'.page_table_bitmap n ≡ 0
      → Lost directory m (ok m')
  no_tables :
      -- the area was mapped up to a page, then every table was taken
      {addr : ℕ} {m1 : Machine}
      → MapsUpTo directory page_table_area_start m addr m1
      → AllTaken m1.page_table_bitmap
      → Lost directory m
          (panic "Trying to allocate page tables but no page tables left to allocate!")

abbrev reset : (Machine → Machine) → Machine → Machine
reset clear_behind m = record (clear_behind m) { page_table_bitmap = replicate 32 0 }

module _ (clear_behind : Machine → Machine) (behind : IsBehind clear_behind) (directory : ℕ)
    (m : Machine) (absent : present (entry_at m.ram directory 2) ≡ false) where
  Lost-mapped :
      (m1 : Machine)
      → IdentityMaps directory page_table_area_start page_table_area_end m m1
      → Lost directory m (ok (reset clear_behind m1))
  Lost-mapped m1 maps =
      let has =
        HasTable-of_translate m1.ram directory 0x800000 0x800000
          (maps.identity 0x800000 (omega arith) (omega arith)) in
      elim (maps.new_tables 2 (omega arith) has) [
        | inl old ↦ absurd (false≢true (sym absent ∙ old))
        | inr (n, low, at) ↦
            let same = behind.ram m1 in
            lost n low (rw same has) (rw same at) (bit_of-replicate 32 n (omega arith))
      ]

  init-RangeMapped :
      {r : Outcome Machine}
      → identity_map_range directory page_table_area_start page_table_area_end m ≡ r
      → RangeMapped directory page_table_area_start page_table_area_end m r
      → Lost directory m (init_page_table_allocator clear_behind directory m)
  unfolding init_page_table_allocator
  init-RangeMapped e (range_mapped {m'} maps) = rw e (Lost-mapped m' maps)
  init-RangeMapped e (no_tables_left j p q missing up here full) = rw e (no_tables up full)

  -- If the directory is well formed, has no table for the addresses from 0x800000, and nothing of
  -- it is behind the bitmap, `init_page_table_allocator` panics, every table being taken, or
  -- leaves the directory with a table of the page table area for them that its bitmap counts as
  -- free.
  pub init_page_table_allocator-Lost :
      IsPaged directory m → Lost directory m (init_page_table_allocator clear_behind directory m)
  init_page_table_allocator-Lost p = init-RangeMapped refl (
      identity_map_range-RangeMapped directory page_table_area_start page_table_area_end m p
        (omega arith) (omega arith) (omega arith))
