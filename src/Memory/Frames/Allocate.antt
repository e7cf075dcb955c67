-- ===== src/Memory/Frames/Allocate.antt =====
-- `page_frame_allocate` gives the page the first free frame, cleared.
use torch_os.Base.{
  ℕ, ◌+◌, ◌*◌, ◌/◌, ◌%◌, ◌^◌, ◌≤◌, ◌<◌, ◌≡◌, ◌≢◌, ◌⊎◌, inl, inr, refl, ◌∙◌, true, arith, none, some,
  Outcome, ok, panic, Option-cases, length, List, String,
}
use torch_os.Hardware.Ram.{load8}
use torch_os.Hardware.Mmu.{translate}
use torch_os.Strings.{memset}
use torch_os.Memory.Machine.{
  Machine, page_table_area_end, page_frame_area_start, page_frame_area_end, page_frame_bitmap_size,
}
use torch_os.Memory.Bitmap.{claim}
use torch_os.Memory.Bitmap.FirstFit.{
  IsWords, AllTaken, Claimed, claim-Claimed, claim-IsWords, claim-none,
}
use torch_os.Memory.Paging.{map_page}
use torch_os.Memory.Paging.Directory.{HasTable, IsPaged}
use torch_os.Memory.Paging.Map.{Maps, Mapped, mapped, map_page-Mapped, no_tables as map_no_tables}
use torch_os.Memory.Paging.Write.{IsPaged-same}
use torch_os.Memory.Virtual.{virtual}
use torch_os.Memory.Virtual.Page.{PageAt, IsPaged-above, translate-above, memset_from-PageAt}
use torch_os.Memory.Frames.{page_frame_allocate}
use torch_os.Strings.Fill.{filled, load8-filled_inside, filled_outside}

-- The kernel runs with paging on, under `directory`, and its bitmaps have their sizes.
pub record IsRunning (directory : ℕ) (m : Machine) : Type 0 where
  pub paged : IsPaged directory m
  pub on : m.paging ≡ true
  pub root : m.cr3 ≡ directory
  pub frames_length : length m.page_frame_bitmap ≡ page_frame_bitmap_size
  pub frames_words : IsWords m.page_frame_bitmap

abbrev pub frame_page : ℕ → ℕ
frame_page n = page_frame_area_start + 4096 * n

-- What a call promises on success: frame `n` was the first free one, and is now behind `va`.
pub record Allocates (directory va n : ℕ) (m m' : Machine) : Type 0 where
  pub running : IsRunning directory m'
  pub claimed : Claimed m.page_frame_bitmap n m'.page_frame_bitmap
  pub in_area : frame_page n + 4096 ≤ page_frame_area_end
  pub maps : (o : ℕ) → o < 4096 → translate m'.ram directory (va + o) ≡ some (frame_page n + o)
  pub cleared : (o : ℕ) → o < 4096 → load8 m'.ram (frame_page n + o) ≡ 0
  -- the memory behind the page tables, other than the frame, is as before
  pub same_memory :
      (b : ℕ)
      → page_table_area_end ≤ b
      → (b < frame_page n) ⊎ (frame_page n + 4096 ≤ b)
      → m'.ram b ≡ m.ram b
  pub others :
      (wa : ℕ)
      → wa < 2 ^ 32
      → wa / 4096 ≢ va / 4096
      → HasTable m.ram directory (wa / 2 ^ 22)
      → translate m'.ram directory wa ≡ translate m.ram directory wa
  pub same_heap : m'.heap_current ≡ m.heap_current
  pub same_mapped : m'.heap_mapped ≡ m.heap_mapped

-- A call on an aligned address succeeds, or there is no frame left, or no page table.
pub data Allocated (directory va : ℕ) (m : Machine) : Outcome (ℕ × Machine) → Type 0 where
  allocated :
      {m' : Machine} (n : ℕ)
      → Allocates directory va n m m'
      → Allocated directory va m (ok (va, m'))
  no_frames :
      AllTaken m.page_frame_bitmap
      → Allocated directory va m (panic "Page frame allocator has run out of space!")
  no_tables :
      AllTaken m.page_table_bitmap
      → Allocated directory va m
          (panic "Trying to allocate page tables but no page tables left to allocate!")

module _ (directory va n : ℕ) (m : Machine) (bitmap : List ℕ) (run : IsRunning directory m)
    (small : va < 2 ^ 32) (aligned : va % 4096 ≡ 0)
    (found : claim m.page_frame_bitmap ≡ some (n, bitmap)) where
  claimed : Claimed m.page_frame_bitmap n bitmap
  claimed = claim-Claimed m.page_frame_bitmap n bitmap found

  below : n < 59136
  below = omega (arith, claimed.in_range, run.frames_length)

  abbrev taken : Machine
  taken = record m { page_frame_bitmap = bitmap }

  taken-IsPaged : IsPaged directory taken
  taken-IsPaged = IsPaged-same directory m taken run.paged refl (λ j h. refl)

  -- `memset` after the mapping
  abbrev cleared_page : Machine → Machine
  cleared_page m1 = record m1 { ram = filled m1.ram (frame_page n) 0 4096 }

  module _ (m1 : Machine) (maps : Maps directory va (frame_page n) taken m1) where
    page_at : PageAt directory va (frame_page n) m1
    page_at = record {
      paged = maps.paged;
      on = maps.same_paging ∙ run.on;
      root = maps.same_cr3 ∙ run.root;
      fits = omega arith;
      high = omega arith;
      maps = maps.maps;
    }

    memset-page : memset virtual va 0 4096 m1 ≡ ok (va, cleared_page m1)
    unfolding memset
    memset-page =
        let start : frame_page n + 0 ≡ frame_page n = omega arith in
        rw (memset_from-PageAt directory va (frame_page n) 4096 0 0 m1 page_at (omega arith), start)

    low : (b : ℕ) → b < page_table_area_end → (cleared_page m1).ram b ≡ m1.ram b
    low b h = ground arith

    cleared-Allocates : Allocates directory va n m (cleared_page m1)
    cleared-Allocates = record {
      running = record {
        paged = IsPaged-above directory m1 (cleared_page m1) maps.paged low refl;
        on = page_at.on;
        root = page_at.root;
        frames_length = rw maps.same_frames (claimed.same_length ∙ run.frames_length);
        frames_words =
            rw maps.same_frames (claim-IsWords m.page_frame_bitmap n bitmap run.frames_words found);
      };
      claimed = rw maps.same_frames claimed;
      in_area = omega (arith, below);
      maps = λ o h.
          translate-above directory m1 (cleared_page m1) maps.paged low (va + o) (omega arith)
          ∙ maps.maps o h;
      cleared = λ o h.
          load8-filled_inside m1.ram (frame_page n) 0 4096 (frame_page n + o) (omega arith)
            (omega arith);
      same_memory = λ b h out. filled_outside m1.ram (frame_page n) 0 4096 b out ∙ maps.above b h;
      others = λ wa h ne has.
          translate-above directory m1 (cleared_page m1) maps.paged low wa h
          ∙ maps.others wa h ne has;
      same_heap = maps.same_heap;
      same_mapped = maps.same_mapped;
    }

    page_frame_allocate-ok :
        map_page directory va (frame_page n) taken ≡ ok m1
        → page_frame_allocate directory va m ≡ ok (va, cleared_page m1)
    unfolding page_frame_allocate
    page_frame_allocate-ok e = rw (aligned, found, e, memset-page)

  page_frame_allocate-panic :
      (message : String)
      → map_page directory va (frame_page n) taken ≡ panic message
      → page_frame_allocate directory va m ≡ panic message
  unfolding page_frame_allocate
  page_frame_allocate-panic message e = rw (aligned, found, e)

  conclude :
      {r : Outcome Machine}
      → map_page directory va (frame_page n) taken ≡ r
      → Mapped directory va (frame_page n) taken r
      → Allocated directory va m (page_frame_allocate directory va m)
  conclude e (mapped {m'} maps) =
      rw (page_frame_allocate-ok m' maps e) (allocated n (cleared-Allocates m' maps))
  conclude e (map_no_tables absent full) = rw (page_frame_allocate-panic _ e) (no_tables full)

page_frame_allocate-none :
    (directory va : ℕ) (m : Machine)
    → va % 4096 ≡ 0
    → claim m.page_frame_bitmap ≡ none
    → page_frame_allocate directory va m ≡ panic "Page frame allocator has run out of space!"
unfolding page_frame_allocate
page_frame_allocate-none directory va m aligned found = rw (aligned, found)

pub page_frame_allocate-Allocated :
    (directory va : ℕ) (m : Machine)
    → IsRunning directory m
    → va < 2 ^ 32
    → va % 4096 ≡ 0
    → Allocated directory va m (page_frame_allocate directory va m)
page_frame_allocate-Allocated directory va m run small aligned =
    elim (Option-cases (claim m.page_frame_bitmap)) [
      | inl full ↦
          rw (page_frame_allocate-none directory va m aligned full)
            (no_frames (claim-none m.page_frame_bitmap run.frames_words full))
      | inr ((n, bitmap), found) ↦ conclude directory va n m bitmap run small aligned found refl (
          map_page-Mapped directory va (frame_page n)
            (taken directory va n m bitmap run small aligned found)
            (taken-IsPaged directory va n m bitmap run small aligned found) small
            (omega (arith, below directory va n m bitmap run small aligned found)) aligned
            (omega arith))
    ]
