-- ===== src/Memory/Paging/Range.antt =====
-- `identity_map_range` maps each page of the range to itself.
use torch_os.Base.{
  ℕ, zero, suc, ◌+◌, ◌*◌, ◌/◌, ◌%◌, ◌^◌, ◌≤◌, ◌<◌, ◌-◌, ◌≡◌, ◌⊎◌, inl, inr, refl, ap, ◌∙◌, false,
  arith, some, Outcome, ok, panic, Bool-cases, ltb, ◌>>=◌, add32,
}
use torch_os.Memory.Bitmap.FirstFit.{AllTaken}
use torch_os.Hardware.Mmu.{present, page_of, translate}
use torch_os.Memory.Machine.{Machine, page_size}
use torch_os.Memory.Paging.{entry_at, map_page, map_from, identity_map_range}
use torch_os.Memory.Paging.Directory.{HasTable, table_at, IsPaged}
use torch_os.Memory.Paging.Tables.{table_page}
use torch_os.Memory.Paging.Map.{Maps, Mapped, mapped, no_tables, map_page-Mapped}

-- The pages of `[start, end)` are mapped to themselves.
pub record IdentityMaps (directory start end : ℕ) (m m' : Machine) : Type 0 where
  pub paged : IsPaged directory m'
  pub identity : (a : ℕ) → start ≤ a → a < end → translate m'.ram directory a ≡ some a
  pub others :
      (wa : ℕ)
      → wa < 2 ^ 32
      → (wa < start) ⊎ (end ≤ wa)
      → HasTable m.ram directory (wa / 2 ^ 22)
      → translate m'.ram directory wa ≡ translate m.ram directory wa
  pub keeps :
      (j : ℕ)
      → j < 1024
      → HasTable m.ram directory j
      → entry_at m'.ram directory j ≡ entry_at m.ram directory j
  pub new_tables :
      (j : ℕ)
      → j < 1024
      → HasTable m'.ram directory j
      → HasTable m.ram directory j
        ⊎ ((n : ℕ) × (n < 1024) × (table_at m'.ram directory j ≡ table_page n))
  pub same_paging : m'.paging ≡ m.paging
  pub same_cr3 : m'.cr3 ≡ m.cr3
  pub same_frames : m'.page_frame_bitmap ≡ m.page_frame_bitmap
  pub same_heap : m'.heap_current ≡ m.heap_current
  pub same_mapped : m'.heap_mapped ≡ m.heap_mapped

-- Mapping the pages from `start` up to another takes the first machine to the second.
pub data MapsUpTo (directory : ℕ) : ℕ → Machine → ℕ → Machine → Type 0 where
  maps_none : {addr : ℕ} {m : Machine} → MapsUpTo directory addr m addr m
  maps_page :
      {addr addr' : ℕ} {m m1 m2 : Machine}
      → map_page directory addr addr m ≡ ok m1
      → MapsUpTo directory (addr + 4096) m1 addr' m2
      → MapsUpTo directory addr m addr' m2

-- The loop maps the range, or runs out of page tables at a part of it that had none.
pub data RangeMapped (directory start end : ℕ) (m : Machine) : Outcome Machine → Type 0 where
  range_mapped :
      {m' : Machine}
      → IdentityMaps directory start end m m'
      → RangeMapped directory start end m (ok m')
  no_tables_left :
      (j : ℕ)
      → start / 2 ^ 22 ≤ j
      → j * 2 ^ 22 < end
      → present (entry_at m.ram directory j) ≡ false
      -- the pages before one of the part were mapped, then every table was taken
      → {addr : ℕ} {m1 : Machine} → MapsUpTo directory start m addr m1
      → addr / 2 ^ 22 ≡ j
      → AllTaken m1.page_table_bitmap
      → RangeMapped directory start end m
          (panic "Trying to allocate page tables but no page tables left to allocate!")

IdentityMaps-empty :
    (directory addr end : ℕ) (m : Machine)
    → IsPaged directory m
    → end ≤ addr
    → IdentityMaps directory addr end m m
IdentityMaps-empty directory addr end m p h = record {
  paged = p;
  identity = λ a q r. absurd (omega arith);
  others = λ wa q r has. refl;
  keeps = λ j q has. refl;
  new_tables = λ j q has. inl has;
  same_paging = refl;
  same_cr3 = refl;
  same_frames = refl;
  same_heap = refl;
  same_mapped = refl;
}

module _ (directory addr end : ℕ) (m m1 : Machine) (aligned : addr % 4096 ≡ 0) (fits : end ≤ 2 ^ 32)
    (aligned_end : end % 4096 ≡ 0) (below : addr < end)
    (first : Maps directory addr addr m m1) where
  outside : (wa : ℕ) → (wa < addr) ⊎ (end ≤ wa) → (wa < addr + 4096) ⊎ (end ≤ wa)
  outside wa (inl h) = inl (omega arith)
  outside wa (inr h) = inr h

  kept : (j : ℕ) → j < 1024 → HasTable m.ram directory j → HasTable m1.ram directory j
  kept j h has = rw (first.keeps j h has) has

  added :
      (m' : Machine)
      → IdentityMaps directory (addr + 4096) end m1 m'
      → (j : ℕ) → j < 1024
      → HasTable m1.ram directory j
        ⊎ ((n : ℕ) × (n < 1024) × (table_at m'.ram directory j ≡ table_page n))
      → HasTable m.ram directory j
        ⊎ ((n : ℕ) × (n < 1024) × (table_at m'.ram directory j ≡ table_page n))
  added m' rest j h (inr new) = inr new
  added m' rest j h (inl has) = elim (first.new_tables j h has) [
    | inl old ↦ inl old
    | inr (n, low, t) ↦ inr (n, low, ap (λ (e : ℕ). page_of e) (rest.keeps j h has) ∙ t)
  ]

  -- A round, then the rest of the loop.
  IdentityMaps-step :
      (m' : Machine)
      → IdentityMaps directory (addr + 4096) end m1 m'
      → IdentityMaps directory addr end m m'
  IdentityMaps-step m' rest = record {
    paged = rest.paged;
    identity = λ a q r. elim (Bool-cases (ltb a (addr + 4096))) [
      | inl on_page ↦
          let here : addr + (a - addr) ≡ a = omega arith in
          let slot : a / 2 ^ 22 ≡ addr / 2 ^ 22 = ground arith in
          rest.others a (omega arith) (inl (ground arith)) (rw slot first.has)
          ∙ (rw here at (first.maps (a - addr) (ground arith)))
      | inr behind ↦ rest.identity a (ground arith) r
    ];
    others = λ wa q r has.
        rest.others wa q (outside wa r) (kept (wa / 2 ^ 22) (omega arith) has)
        ∙ first.others wa q (λ e. omega arith) has;
    keeps = λ j q has. rest.keeps j q (kept j q has) ∙ first.keeps j q has;
    new_tables = λ j q has. added m' rest j q (rest.new_tables j q has);
    same_paging = rest.same_paging ∙ first.same_paging;
    same_cr3 = rest.same_cr3 ∙ first.same_cr3;
    same_frames = rest.same_frames ∙ first.same_frames;
    same_heap = rest.same_heap ∙ first.same_heap;
    same_mapped = rest.same_mapped ∙ first.same_mapped;
  }

  RangeMapped-step :
      {r : Outcome Machine}
      → map_page directory addr addr m ≡ ok m1
      → RangeMapped directory (addr + 4096) end m1 r
      → RangeMapped directory addr end m r
  RangeMapped-step e (range_mapped rest) = range_mapped (IdentityMaps-step _ rest)
  RangeMapped-step e (no_tables_left j p q absent up here full) =
      no_tables_left j (omega arith) q
        (elim (Bool-cases (present (entry_at m.ram directory j))) [
          | inl has ↦ let has' = kept j (omega arith) has in cc
          | inr missing ↦ missing
        ])
        (maps_page e up) here full

module _ (directory end : ℕ) (fits : end ≤ 2 ^ 32 - 4096) (aligned_end : end % 4096 ≡ 0) where
  round :
      (fuel addr : ℕ) (m : Machine) {r : Outcome Machine}
      → addr % 4096 ≡ 0
      → addr < end
      → map_page directory addr addr m ≡ r
      → Mapped directory addr addr m r
      → ((m1 : Machine)
          → IsPaged directory m1
          → RangeMapped directory
              (addr + 4096)
              end
              m1
              (map_from fuel directory (addr + 4096) end m1))
      → RangeMapped directory addr end m
          (r >>= λ m1. map_from fuel directory (add32 addr page_size) end m1)
  round fuel addr m aligned below e (mapped {m'} first) next =
      let no_wrap : add32 addr page_size ≡ addr + 4096 = omega arith in
      rw no_wrap (
        RangeMapped-step directory addr end m m' aligned (omega arith) aligned_end below first e
          (next m' first.paged))
  round fuel addr m aligned below e (no_tables absent full) next =
      no_tables_left (addr / 2 ^ 22) (omega arith) (omega arith) absent maps_none refl full

  map_from-RangeMapped :
      (fuel addr : ℕ) (m : Machine)
      → IsPaged directory m
      → addr % 4096 ≡ 0
      → end - addr + 4096 ≤ 4096 * fuel
      → RangeMapped directory addr end m (map_from fuel directory addr end m)
  unfolding map_from
  map_from-RangeMapped zero addr m p aligned enough = absurd (omega arith)
  map_from-RangeMapped (suc fuel) addr m p aligned enough = elim (Bool-cases (ltb addr end)) [
    | inl below ↦ rw below (
        round fuel addr m aligned (ground arith) refl
          (map_page-Mapped directory addr addr m p (ground arith) (ground arith) aligned aligned)
          (λ m1 p1. map_from-RangeMapped fuel (addr + 4096) m1 p1 (omega arith) (ground arith)))
    | inr done ↦ rw done (range_mapped (IdentityMaps-empty directory addr end m p (ground arith)))
  ]

-- On a well-formed directory and for aligned bounds, the end at most 2 ^ 32 - 4096,
-- `identity_map_range` ends: each address of the range is translated to itself and pages outside
-- that had a table as before, or it panics at a part of the range that had no table.
pub identity_map_range-RangeMapped :
    (directory start end : ℕ) (m : Machine)
    → IsPaged directory m
    → start % 4096 ≡ 0
    → end % 4096 ≡ 0
    → end ≤ 2 ^ 32 - 4096
    → RangeMapped directory start end m (identity_map_range directory start end m)
unfolding identity_map_range
identity_map_range-RangeMapped directory start end m p aligned aligned_end fits =
    map_from-RangeMapped directory end fits aligned_end (2 ^ 20 + 1) start m p aligned (omega arith)

pub identity_map_range-ok :
    (directory start end : ℕ) (m : Machine)
    → IsPaged directory m
    → start % 4096 ≡ 0
    → end % 4096 ≡ 0
    → end ≤ 2 ^ 32 - 4096
    → ((j : ℕ) → start / 2 ^ 22 ≤ j → j * 2 ^ 22 < end → HasTable m.ram directory j)
    → (m' : Machine) × (identity_map_range directory start end m ≡ ok m')
      × IdentityMaps directory start end m m'
identity_map_range-ok directory start end m p aligned aligned_end fits covered =
    conclude (identity_map_range-RangeMapped directory start end m p aligned aligned_end fits)
  where
    conclude :
        {r : Outcome Machine}
        → RangeMapped directory start end m r
        → (m' : Machine) × (r ≡ ok m') × IdentityMaps directory start end m m'
    conclude (range_mapped {m'} maps) = (m', refl, maps)
    conclude (no_tables_left j q r absent up here full) = let has = covered j q r in cc
