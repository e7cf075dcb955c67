-- ===== src/Memory/Paging/Tables.antt =====
-- A new page table keeps the directory well formed.
use torch_os.Base.{
  ℕ, ◌+◌, ◌*◌, ◌^◌, ◌<◌, ◌≡◌, ◌≢◌, ◌⊎◌, inl, inr, sym, ap, ◌∙◌, arith, List, some, ok, Bool-cases,
  ◌==◌, ==_iff,
}
use torch_os.Hardware.Ram.{Ram, store32, load32-store32, load32-store32_self}
use torch_os.Memory.Machine.{Machine, page_table_area_start, page_table_area_end}
use torch_os.Memory.Entry.{flags_lem}
use torch_os.Memory.Bitmap.{bit_of, claim}
use torch_os.Memory.Bitmap.FirstFit.{Claimed, claim-Claimed, claim-IsWords}
use torch_os.Memory.Paging.{entry_at, set_entry, add_table}
use torch_os.Memory.Paging.Directory.{HasTable, table_at, IsPaged, words-Apart}

-- The address of the page table with index `n`.
abbrev pub table_page : ℕ → ℕ
table_page n = page_table_area_start + 4096 * n

entry_at-store_self :
    (ram : Ram) (d i e : ℕ) → e < 2 ^ 32 → entry_at (store32 ram (d + 4 * i) e) d i ≡ e
entry_at-store_self ram d i e h = load32-store32_self ram (d + 4 * i) e h

entry_at-store_ne :
    (ram : Ram) (d i j e : ℕ) → i ≢ j → entry_at (store32 ram (d + 4 * i) e) d j ≡ entry_at ram d j
entry_at-store_ne ram d i j e ne =
    load32-store32 ram (d + 4 * i) (d + 4 * j) e (words-Apart d i j ne)

-- `m` with table `n` taken and put into slot `i`
abbrev pub with_table : ℕ → ℕ → Machine → ℕ → List ℕ → Machine
with_table directory i m n bitmap =
    set_entry (record m { page_table_bitmap = bitmap }) directory i (table_page n + 3)

module _ (directory i n : ℕ) (m : Machine) (bitmap : List ℕ) (p : IsPaged directory m)
    (found : claim m.page_table_bitmap ≡ some (n, bitmap)) where
  claimed : Claimed m.page_table_bitmap n bitmap
  claimed = claim-Claimed m.page_table_bitmap n bitmap found

  pub table_index_lt : n < 1024
  table_index_lt = omega (arith, p.bitmap_length, claimed.in_range)

  pub new_entry : entry_at (with_table directory i m n bitmap).ram directory i ≡ table_page n + 3
  new_entry =
      entry_at-store_self m.ram directory i (table_page n + 3) (omega (arith, table_index_lt))

  pub other_entry :
      (j : ℕ)
      → i ≢ j
      → entry_at (with_table directory i m n bitmap).ram directory j ≡ entry_at m.ram directory j
  other_entry j ne = entry_at-store_ne m.ram directory i j (table_page n + 3) ne

  new_table : table_at (with_table directory i m n bitmap).ram directory i ≡ table_page n
  new_table = omega (arith, new_entry)

  fresh :
      (j : ℕ) → j < 1024 → HasTable m.ram directory j → table_at m.ram directory j ≢ table_page n
  fresh j h has same = omega (arith, p.tables_claimed j n h has same, claimed.was_clear)

  -- A slot holds the new table, or what it held before.
  abbrev pub Slot : ℕ → Type 0
  Slot j =
      ((i ≡ j) × (table_at (with_table directory i m n bitmap).ram directory j ≡ table_page n))
      ⊎ ((i ≢ j)
          × HasTable m.ram directory j
          × (table_at (with_table directory i m n bitmap).ram directory j
              ≡ table_at m.ram directory j))

  pub slot : (j : ℕ) → HasTable (with_table directory i m n bitmap).ram directory j → Slot j
  slot j has = elim (Bool-cases (i == j)) [
    | inl e ↦ let same = (==_iff i j).0 e in inl (same, rw (← same) new_table)
    | inr ne ↦
        let ne' : i ≢ j = λ e. ground arith in
        inr (ne', rw (other_entry j ne') at has, rw (other_entry j ne'))
  ]

  page_ne_directory : table_page n ≢ directory
  page_ne_directory e = omega (arith, p.outside, table_index_lt)

  low :
      (j : ℕ)
      → j < 1024
      → Slot j
      → table_at (with_table directory i m n bitmap).ram directory j < page_table_area_end
  low j h (inl (same, t)) = omega (arith, t, table_index_lt)
  low j h (inr (ne, has, t)) = omega (arith, t, p.tables_low j h has)

  apart :
      (j : ℕ)
      → j < 1024
      → Slot j
      → table_at (with_table directory i m n bitmap).ram directory j ≢ directory
  apart j h (inl (same, t)) e = page_ne_directory (sym t ∙ e)
  apart j h (inr (ne, has, t)) e = p.tables_apart j h has (sym t ∙ e)

  distinct :
      (j k : ℕ)
      → j < 1024
      → k < 1024
      → j ≢ k
      → Slot j
      → Slot k
      → table_at (with_table directory i m n bitmap).ram directory j
        ≢ table_at (with_table directory i m n bitmap).ram directory k
  distinct j k hj hk ne (inl (same, t)) (inl (same', t')) e = ne (sym same ∙ same')
  distinct j k hj hk ne (inl (same, t)) (inr (ne', has, t')) e = fresh k hk has (sym t' ∙ sym e ∙ t)
  distinct j k hj hk ne (inr (ne', has, t)) (inl (same, t')) e = fresh j hj has (sym t ∙ e ∙ t')
  distinct j k hj hk ne (inr (ne', has, t)) (inr (ne'', has', t')) e =
      p.tables_distinct j k hj hk ne has has' (sym t ∙ e ∙ t')

  marked :
      (j k : ℕ)
      → j < 1024
      → Slot j
      → table_at (with_table directory i m n bitmap).ram directory j ≡ table_page k
      → bit_of bitmap k ≡ 1
  marked j k h (inl (same, t)) at =
      let here : n ≡ k = omega (arith, sym t ∙ at) in rw (← here) claimed.is_set
  marked j k h (inr (ne, has, t)) at =
      let old = p.tables_claimed j k h has (sym t ∙ at) in
      claimed.others k
        (λ e. absurd (omega (arith, claimed.was_clear, old, ap (bit_of m.page_table_bitmap) e)))
      ∙ old

  pub with_table-IsPaged : IsPaged directory (with_table directory i m n bitmap)
  with_table-IsPaged = record {
    aligned = p.aligned;
    outside = p.outside;
    tables_low = λ j h has. low j h (slot j has);
    bitmap_length = claimed.same_length ∙ p.bitmap_length;
    bitmap_words = claim-IsWords m.page_table_bitmap n bitmap p.bitmap_words found;
    tables_apart = λ j h has. apart j h (slot j has);
    tables_distinct =
        λ j k hj hk ne has_j has_k. distinct j k hj hk ne (slot j has_j) (slot k has_k);
    tables_claimed = λ j k h has at. marked j k h (slot j has) at;
  }

  pub add_table-ok :
      add_table directory i m ≡ ok (table_page n + 3, with_table directory i m n bitmap)
  unfolding add_table
  add_table-ok = rw (found, flags_lem (table_page n) 3 (omega arith) (omega arith), new_entry)
