-- ===== src/Memory/Init/Linked.antt =====
-- The page directory that `init_paging` builds, with its first two tables, is well formed.
use torch_os.Base.{
  ℕ, zero, suc, ◌+◌, ◌*◌, ◌%◌, ◌≤◌, ◌<◌, ◌≡◌, ◌≢◌, ◌⊎◌, inl, inr, refl, ◌∙◌, arith, true, false,
  ltb, leb, ◌&&◌, ◌==◌, if◌then◌else◌, bit_or, length, Bool-cases, ==_iff,
}
use mathlib.Core.Bool.{false≢true}
use torch_os.Hardware.Ram.{load32-store32, load32-store32_self}
use torch_os.Memory.Machine.{Machine, page_table_area_start}
use torch_os.Memory.Entry.{flags_lem}
use torch_os.Memory.Bitmap.FirstFit.{IsWords}
use torch_os.Memory.Paging.{entry_at, set_entry}
use torch_os.Memory.Paging.Directory.{HasTable, table_at, IsPaged, words-Apart}
use torch_os.Memory.Init.{clear_directory}

-- The loop clears the entries from `i` on.
cleared_entry :
    (left i directory j : ℕ) (m : Machine)
    → entry_at (clear_directory left i directory m).ram directory j
      ≡ (if leb i j && ltb j (i + left) then 2 else entry_at m.ram directory j)
unfolding clear_directory
cleared_entry zero i directory j m =
    let out : (leb i j && ltb j (i + 0)) ≡ false = ground arith in rw out
cleared_entry (suc left) i directory j m =
    cleared_entry left (i + 1) directory j (set_entry m directory i 2)
    ∙ elim (Bool-cases (i == j)) [
      | inl here ↦
          let at = (==_iff i j).0 here in
          let stored = load32-store32_self m.ram (directory + 4 * i) 2 (omega arith) in
          let out : (leb (i + 1) j && ltb j (i + 1 + left)) ≡ false = ground arith in
          let in_range : (leb i j && ltb j (i + suc left)) ≡ true = ground arith in
          rw (out, in_range, ← at) stored
      | inr other ↦
          let ne : i ≢ j = λ e. ground arith in
          let kept =
            load32-store32 m.ram (directory + 4 * i) (directory + 4 * j) 2
              (words-Apart directory i j ne) in
          let same : (leb (i + 1) j && ltb j (i + 1 + left)) ≡ (leb i j && ltb j (i + suc left)) =
            ground arith in
          rw (same, kept)
    ]

cleared_bitmap :
    (left i directory : ℕ) (m : Machine)
    → (clear_directory left i directory m).page_table_bitmap ≡ m.page_table_bitmap
unfolding clear_directory
cleared_bitmap zero i directory m = refl
cleared_bitmap (suc left) i directory m =
    cleared_bitmap left (i + 1) directory (set_entry m directory i 2)

-- Where the linker puts the directory and the two first tables.
pub record IsLinked (directory first second : ℕ) : Type 0 where
  pub directory_aligned : directory % 4096 ≡ 0
  pub first_aligned : first % 4096 ≡ 0
  pub second_aligned : second % 4096 ≡ 0
  pub directory_low : directory < page_table_area_start
  pub first_low : first < page_table_area_start
  pub second_low : second < page_table_area_start
  pub first_apart : first ≢ directory
  pub second_apart : second ≢ directory
  pub tables_apart : first ≢ second

module _ (directory first second : ℕ) (l : IsLinked directory first second) (m : Machine)
    (bits : length m.page_table_bitmap ≡ 32) (words : IsWords m.page_table_bitmap) where
  abbrev blank : Machine
  blank = clear_directory 1024 0 directory m

  abbrev pub linked : Machine
  linked = set_entry (set_entry blank directory 0 (bit_or first 3)) directory 1 (bit_or second 3)

  pub entry_zero : entry_at linked.ram directory 0 ≡ first + 3
  entry_zero =
      let or = flags_lem first 3 l.first_aligned (omega arith) in
      load32-store32 (set_entry blank directory 0 (bit_or first 3)).ram (directory + 4 * 1)
        (directory + 4 * 0) (bit_or second 3) (words-Apart directory 1 0 (omega arith))
      ∙ rw or (
          load32-store32_self blank.ram (directory + 4 * 0) (first + 3)
            (omega (arith, l.first_low)))

  entry_one : entry_at linked.ram directory 1 ≡ second + 3
  entry_one =
      let or = flags_lem second 3 l.second_aligned (omega arith) in
      rw or (
        load32-store32_self (set_entry blank directory 0 (bit_or first 3)).ram (directory + 4 * 1)
          (second + 3) (omega (arith, l.second_low)))

  entry_other : (j : ℕ) → 2 ≤ j → j < 1024 → entry_at linked.ram directory j ≡ 2
  entry_other j low high =
      let inside : (leb 0 j && ltb j 1024) ≡ true = ground arith in
      load32-store32 (set_entry blank directory 0 (bit_or first 3)).ram (directory + 4 * 1)
        (directory + 4 * j) (bit_or second 3) (words-Apart directory 1 j (omega arith))
      ∙ load32-store32 blank.ram (directory + 4 * 0) (directory + 4 * j) (bit_or first 3)
          (words-Apart directory 0 j (omega arith))
      ∙ rw (cleared_entry 1024 0 directory j m, inside)

  -- Only the first two entries name tables.
  low_slot : (j : ℕ) → j < 1024 → HasTable linked.ram directory j → (j ≡ 0) ⊎ (j ≡ 1)
  low_slot j high has = elim (Bool-cases (ltb j 2)) [
    | inl low ↦ ground arith
    | inr not_low ↦
        let other = entry_other j (ground arith) high in
        let gone = rw other at has in absurd (false≢true gone)
  ]

  table_zero : table_at linked.ram directory 0 ≡ first
  table_zero = omega (arith, entry_zero, l.first_aligned)

  table_one : table_at linked.ram directory 1 ≡ second
  table_one = omega (arith, entry_one, l.second_aligned)

  -- The table of a slot that has one.
  table_of :
      (j : ℕ)
      → (j ≡ 0) ⊎ (j ≡ 1)
      → ((j ≡ 0) × (table_at linked.ram directory j ≡ first))
        ⊎ ((j ≡ 1) × (table_at linked.ram directory j ≡ second))
  table_of j (inl e) = inl (e, rw e table_zero)
  table_of j (inr e) = inr (e, rw e table_one)

  pub linked-IsPaged : IsPaged directory linked
  linked-IsPaged = record {
    aligned = l.directory_aligned;
    outside = l.directory_low;
    tables_low =
        λ i hi has. ground (arith, table_of i (low_slot i hi has), l.first_low, l.second_low);
    bitmap_length = rw (cleared_bitmap 1024 0 directory m) bits;
    bitmap_words = rw (cleared_bitmap 1024 0 directory m) words;
    tables_apart =
        λ i hi has e. ground (arith, table_of i (low_slot i hi has), l.first_apart, l.second_apart);
    tables_distinct = λ i j hi hj ne has has' e.
        ground
          (arith, table_of i (low_slot i hi has), table_of j (low_slot j hj has'), l.tables_apart);
    tables_claimed =
        λ i n hi has at. ground (arith, table_of i (low_slot i hi has), l.first_low, l.second_low);
  }
