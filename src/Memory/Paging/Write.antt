-- ===== src/Memory/Paging/Write.antt =====
-- A write into a page table changes the translation of one page.
use torch_os.Base.{
  ℕ, ◌+◌, ◌*◌, ◌/◌, ◌%◌, ◌^◌, ◌≤◌, ◌<◌, ◌≡◌, ◌≢◌, ◌⊎◌, inl, inr, refl, true, false, arith, none,
  some, Bool-cases, ◌==◌, ==_iff,
}
use torch_os.Hardware.Ram.{store32-other, Apart, load32-store32, load32-store32_self}
use torch_os.Hardware.Mmu.{present, page_of, translate, table_index}
use torch_os.Memory.Machine.{Machine, page_table_area_end}
use torch_os.Memory.Paging.{entry_at, set_entry}
use torch_os.Memory.Paging.Directory.{HasTable, table_at, IsPaged, words-Apart, pages-Apart}

-- A machine with the same directory and bitmap is as well formed.
pub IsPaged-same :
    (directory : ℕ) (m m' : Machine)
    → IsPaged directory m
    → m'.page_table_bitmap ≡ m.page_table_bitmap
    → ((j : ℕ) → j < 1024 → entry_at m'.ram directory j ≡ entry_at m.ram directory j)
    → IsPaged directory m'
IsPaged-same directory m m' p bits same = record {
  aligned = p.aligned;
  outside = p.outside;
  tables_low = λ j h has. rw (same j h) (p.tables_low j h (rw (same j h) at has));
  bitmap_length = rw bits p.bitmap_length;
  bitmap_words = rw bits p.bitmap_words;
  tables_apart = λ j h has. rw (same j h) (p.tables_apart j h (rw (same j h) at has));
  tables_distinct = λ j k hj hk ne has has'.
      rw (same j hj, same k hk)
        (p.tables_distinct j k hj hk ne (rw (same j hj) at has) (rw (same k hk) at has'));
  tables_claimed = λ j n h has at_n.
      rw bits (p.tables_claimed j n h (rw (same j h) at has) (rw (same j h) at at_n));
}

-- A write into the table of slot `i`.
module _ (directory i k e : ℕ) (m : Machine) (p : IsPaged directory m) (hi : i < 1024)
    (hk : k < 1024) (has : HasTable m.ram directory i) where
  abbrev pub written : Machine
  written = set_entry m (table_at m.ram directory i) k e

  pub entry-written :
      (j : ℕ) → j < 1024 → entry_at written.ram directory j ≡ entry_at m.ram directory j
  entry-written j h = load32-store32 m.ram _ _ e (
      pages-Apart (table_at m.ram directory i) directory k j (omega arith) p.aligned
        (p.tables_apart i hi has) hk h)

  pub written-IsPaged : IsPaged directory written
  written-IsPaged = IsPaged-same directory m written p refl entry-written

  other_table :
      (j l : ℕ)
      → j < 1024
      → l < 1024
      → HasTable m.ram directory j
      → i ≢ j
      → Apart (table_at m.ram directory i + 4 * k) (table_at m.ram directory j + 4 * l)
  other_table j l hj hl has' ne =
      pages-Apart (table_at m.ram directory i) (table_at m.ram directory j) k l (omega arith)
        (omega arith) (p.tables_distinct i j hi hj ne has has') hk hl

  word-Apart :
      (j l : ℕ)
      → j < 1024
      → l < 1024
      → HasTable m.ram directory j
      → (i ≢ j) ⊎ (k ≢ l)
      → Apart (table_at m.ram directory i + 4 * k) (table_at m.ram directory j + 4 * l)
  word-Apart j l hj hl has' (inl ne) = other_table j l hj hl has' ne
  word-Apart j l hj hl has' (inr ne) = elim (Bool-cases (i == j)) [
    | inl same ↦ rw (← (==_iff i j).0 same) (words-Apart (table_at m.ram directory i) k l ne)
    | inr other ↦ other_table j l hj hl has' (λ e. ground arith)
  ]

  -- Nothing above the page table area is written.
  pub written-above : (b : ℕ) → page_table_area_end ≤ b → written.ram b ≡ m.ram b
  written-above b h =
      store32-other m.ram (table_at m.ram directory i + 4 * k) e b
        (inr (omega (arith, p.tables_low i hi has)))

  -- The page of `va` is the one that the entry names.
  pub translate-written_self :
      (va : ℕ)
      → va / 2 ^ 22 ≡ i
      → table_index va ≡ k
      → e < 2 ^ 32
      → e % 2 ≡ 1
      → translate written.ram directory va ≡ some (page_of e + va % 2 ^ 12)
  unfolding translate
  translate-written_self va at_i at_k small set =
      let stored = load32-store32_self m.ram (table_at m.ram directory i + 4 * k) e small in
      let is : present e ≡ true = ground arith in
      rw (at_i, entry-written i hi, has, at_k, stored, is)

  -- Any other page that has a table is translated as before.
  pub translate-written_ne :
      (va : ℕ)
      → va < 2 ^ 32
      → HasTable m.ram directory (va / 2 ^ 22)
      → (i ≢ va / 2 ^ 22) ⊎ (k ≢ table_index va)
      → translate written.ram directory va ≡ translate m.ram directory va
  unfolding translate
  translate-written_ne va small has' ne =
      let same =
        load32-store32 m.ram _ _ e
          (word-Apart (va / 2 ^ 22) (table_index va) (omega arith) (omega arith) has' ne) in
      rw (entry-written (va / 2 ^ 22) (omega arith), has', same)

  -- Without the present bit the page is gone.
  pub translate-written_clear :
      (va : ℕ)
      → va / 2 ^ 22 ≡ i
      → table_index va ≡ k
      → e < 2 ^ 32
      → e % 2 ≡ 0
      → translate written.ram directory va ≡ none
  unfolding translate
  translate-written_clear va at_i at_k small clear =
      let stored = load32-store32_self m.ram (table_at m.ram directory i + 4 * k) e small in
      let is : present e ≡ false = ground arith in
      rw (at_i, entry-written i hi, has, at_k, stored, is)

pub other_page :
    (va wa : ℕ)
    → wa / 4096 ≢ va / 4096
    → (va / 2 ^ 22 ≢ wa / 2 ^ 22) ⊎ (table_index va ≢ table_index wa)
other_page va wa ne = elim (Bool-cases (va / 2 ^ 22 == wa / 2 ^ 22)) [
  | inl same ↦ inr (λ e. ground arith)
  | inr other ↦ inl (λ e. ground arith)
]
