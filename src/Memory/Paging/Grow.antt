-- ===== src/Memory/Paging/Grow.antt =====
-- A new table in slot `i` leaves the translation of the pages that had a table.
use torch_os.Base.{ℕ, ◌+◌, ◌*◌, ◌/◌, ◌^◌, ◌≤◌, ◌<◌, ◌≡◌, ◌≢◌, inr, sym, false, arith, List, some}
use torch_os.Hardware.Ram.{store32-other, load32-store32}
use torch_os.Hardware.Mmu.{present, translate, table_index}
use torch_os.Memory.Machine.{Machine, page_table_area_end}
use torch_os.Memory.Bitmap.{claim}
use torch_os.Memory.Paging.{entry_at}
use torch_os.Memory.Paging.Directory.{HasTable, table_at, IsPaged, pages-Apart}
use torch_os.Memory.Paging.Tables.{with_table, new_entry, other_entry, table_page}

module _ (directory i n : ℕ) (m : Machine) (bitmap : List ℕ) (p : IsPaged directory m)
    (hi : i < 1024) (found : claim m.page_table_bitmap ≡ some (n, bitmap))
    (absent : present (entry_at m.ram directory i) ≡ false) where
  abbrev pub grown : Machine
  grown = with_table directory i m n bitmap

  slot_ne : (j : ℕ) → HasTable m.ram directory j → i ≢ j
  slot_ne j has e = let absent' = rw e at absent in cc

  pub entry-grown :
      (j : ℕ)
      → HasTable m.ram directory j
      → entry_at grown.ram directory j ≡ entry_at m.ram directory j
  entry-grown j has = other_entry directory i n m bitmap p found j (slot_ne j has)

  pub translate-grown :
      (wa : ℕ)
      → wa < 2 ^ 32
      → HasTable m.ram directory (wa / 2 ^ 22)
      → translate grown.ram directory wa ≡ translate m.ram directory wa
  unfolding translate
  translate-grown wa small has =
      let apart =
        pages-Apart directory (table_at m.ram directory (wa / 2 ^ 22)) i (table_index wa) p.aligned
          (omega arith) (λ e. p.tables_apart (wa / 2 ^ 22) (omega arith) has (sym e)) hi
          (omega arith) in
      let same = load32-store32 m.ram _ _ (table_page n + 3) apart in
      rw (entry-grown (wa / 2 ^ 22) has, has, same)

  pub grown-above : (b : ℕ) → page_table_area_end ≤ b → grown.ram b ≡ m.ram b
  grown-above b h =
      store32-other m.ram (directory + 4 * i) (table_page n + 3) b (inr (omega (arith, p.outside)))

  pub grown-HasTable : HasTable grown.ram directory i
  grown-HasTable = rw (new_entry directory i n m bitmap p found) (ground arith)
