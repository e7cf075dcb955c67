-- ===== src/Memory/Virtual/Page.antt =====
-- Filling a mapped page through the page tables.
use torch_os.Base.{
  ℕ, zero, suc, ◌+◌, ◌*◌, ◌/◌, ◌^◌, ◌≤◌, ◌<◌, ◌≡◌, inl, inr, refl, ap, ◌∙◌, true, arith, some, ok,
  Bool-cases, u8,
}
use torch_os.Hardware.Ram.{Ram, store8, load32-same}
use torch_os.Hardware.Mmu.{present, translate, table_index}
use torch_os.Memory.Machine.{Machine, page_table_area_end}
use torch_os.Memory.Paging.{entry_at}
use torch_os.Memory.Paging.Directory.{table_at, IsPaged}
use torch_os.Memory.Paging.Write.{IsPaged-same}
use torch_os.Memory.Virtual.{virtual, virtual_write}
use torch_os.Strings.{memset_from}
use torch_os.Strings.Fill.{filled, filled-zero, filled-store8}

-- Memory above the page tables does not matter for the translation.
module _ (directory : ℕ) (m m' : Machine) (p : IsPaged directory m)
    (same : (b : ℕ) → b < page_table_area_end → m'.ram b ≡ m.ram b) where
  pub entry-above : (j : ℕ) → j < 1024 → entry_at m'.ram directory j ≡ entry_at m.ram directory j
  entry-above j h =
      load32-same m.ram m'.ram (directory + 4 * j)
        (λ b q. same b (omega (arith, p.outside, p.aligned)))

  pub IsPaged-above : m'.page_table_bitmap ≡ m.page_table_bitmap → IsPaged directory m'
  IsPaged-above bits = IsPaged-same directory m m' p bits entry-above

  pub translate-above :
      (va : ℕ) → va < 2 ^ 32 → translate m'.ram directory va ≡ translate m.ram directory va
  unfolding translate
  translate-above va small = elim (Bool-cases (present (entry_at m.ram directory (va / 2 ^ 22)))) [
    | inr absent ↦ rw (entry-above (va / 2 ^ 22) (omega arith), absent)
    | inl has ↦
        let low = p.tables_low (va / 2 ^ 22) (omega arith) has in
        rw (
          entry-above (va / 2 ^ 22) (omega arith),
          has,
          load32-same m.ram m'.ram (table_at m.ram directory (va / 2 ^ 22) + 4 * table_index va)
              (λ b q. same b (omega arith)),
        )
  ]

-- Paging is on, and the page at `va` is the page at `pa`, which lies above the page tables.
pub record PageAt (directory va pa : ℕ) (m : Machine) : Type 0 where
  pub paged : IsPaged directory m
  pub on : m.paging ≡ true
  pub root : m.cr3 ≡ directory
  pub fits : va + 4096 ≤ 2 ^ 32
  pub high : page_table_area_end ≤ pa
  pub maps : (o : ℕ) → o < 4096 → translate m.ram directory (va + o) ≡ some (pa + o)

module _ (directory va pa : ℕ) where
  abbrev stored : Machine → (i v : ℕ) → Machine
  stored m i v = record m { ram = store8 m.ram (pa + i) v }

  write-PageAt :
      (m : Machine) (i v : ℕ)
      → PageAt directory va pa m
      → i < 4096
      → virtual_write (va + i) v m ≡ ok (stored m i v)
  unfolding virtual_write
  write-PageAt m i v at h = rw (at.on, at.root, at.maps i h)

  stored-PageAt :
      (m : Machine) (i v : ℕ) → PageAt directory va pa m → PageAt directory va pa (stored m i v)
  unfolding store8
  stored-PageAt m i v at = record {
    paged = IsPaged-above directory m (stored m i v) at.paged low refl;
    on = at.on;
    root = at.root;
    fits = at.fits;
    high = at.high;
    maps = λ o h.
        translate-above directory m (stored m i v) at.paged low (va + o) (omega (arith, at.fits))
        ∙ at.maps o h;
  }
    where
      low : (b : ℕ) → b < page_table_area_end → (stored m i v).ram b ≡ m.ram b
      low b h = ground (arith, at.high)

  -- `memset` within the page fills the physical page.
  pub memset_from-PageAt :
      (left i value : ℕ) (m : Machine)
      → PageAt directory va pa m
      → i + left ≤ 4096
      → memset_from virtual left va value i m
        ≡ ok (record m { ram = filled m.ram (pa + i) value left })
  unfolding memset_from
  memset_from-PageAt zero i value m at h = rw filled-zero
  memset_from-PageAt (suc left) i value m at h =
      let next : pa + (i + 1) ≡ pa + i + 1 = omega arith in
      rw (write-PageAt m i (u8 value) at (omega arith)) (
        memset_from-PageAt left (i + 1) value (stored m i (u8 value))
          (stored-PageAt m i (u8 value) at) (omega arith)
        ∙ rw next
            (ap (λ (r : Ram). ok (record m { ram = r })) (filled-store8 m.ram (pa + i) value left)))
