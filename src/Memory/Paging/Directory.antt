-- ===== src/Memory/Paging/Directory.antt =====
-- A well-formed page directory: the tables that it names are pages of their own.
use torch_os.Base.{
  ℕ, ◌+◌, ◌*◌, ◌%◌, ◌^◌, ◌<◌, ◌≡◌, ◌≢◌, inl, inr, true, arith, length, Bool-cases, ltb,
}
use torch_os.Hardware.Ram.{Ram, Apart}
use torch_os.Hardware.Mmu.{present, page_of}
use torch_os.Memory.Machine.{Machine, page_table_area_start, page_table_area_end}
use torch_os.Memory.Bitmap.{bit_of}
use torch_os.Memory.Bitmap.FirstFit.{IsWords}
use torch_os.Memory.Paging.{entry_at}

abbrev pub HasTable : Ram → ℕ → ℕ → Type 0
HasTable ram directory i = present (entry_at ram directory i) ≡ true

abbrev pub table_at : Ram → ℕ → ℕ → ℕ
table_at ram directory i = page_of (entry_at ram directory i)

pub record IsPaged (directory : ℕ) (m : Machine) : Type 0 where
  pub aligned : directory % 2 ^ 12 ≡ 0
  -- the directory lies below the page table area, and no table above it
  pub outside : directory < page_table_area_start
  pub tables_low :
      (i : ℕ)
      → i < 1024
      → HasTable m.ram directory i
      → table_at m.ram directory i < page_table_area_end
  pub bitmap_length : length m.page_table_bitmap ≡ 32
  pub bitmap_words : IsWords m.page_table_bitmap
  -- no table is the directory itself
  pub tables_apart :
      (i : ℕ) → i < 1024 → HasTable m.ram directory i → table_at m.ram directory i ≢ directory
  -- no two entries share a table
  pub tables_distinct :
      (i j : ℕ)
      → i < 1024
      → j < 1024
      → i ≢ j
      → HasTable m.ram directory i
      → HasTable m.ram directory j
      → table_at m.ram directory i ≢ table_at m.ram directory j
  -- a table in the page table area is marked in the bitmap
  pub tables_claimed :
      (i n : ℕ)
      → i < 1024
      → HasTable m.ram directory i
      → table_at m.ram directory i ≡ page_table_area_start + 4096 * n
      → bit_of m.page_table_bitmap n ≡ 1

-- Words of different pages have no byte in common, and neither have different words of one page.
pub pages-Apart :
    (p q s t : ℕ)
    → p % 2 ^ 12 ≡ 0
    → q % 2 ^ 12 ≡ 0
    → p ≢ q
    → s < 1024
    → t < 1024
    → Apart (p + 4 * s) (q + 4 * t)
pages-Apart p q s t hp hq ne hs ht = elim (Bool-cases (ltb p q)) [
  | inl below ↦ inl (ground arith)
  | inr above ↦ inr (ground arith)
]

pub words-Apart : (p s t : ℕ) → s ≢ t → Apart (p + 4 * s) (p + 4 * t)
words-Apart p s t ne = elim (Bool-cases (ltb s t)) [
  | inl below ↦ inl (ground arith)
  | inr above ↦ inr (ground arith)
]
