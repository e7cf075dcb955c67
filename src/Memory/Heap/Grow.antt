-- ===== src/Memory/Heap/Grow.antt =====
-- The heap's well-formedness, and the loop that maps more pages.
use torch_os.Base.{
  ℕ, zero, suc, ◌+◌, ◌*◌, ◌%◌, ◌-◌, ◌≤◌, ◌<◌, ◌≡◌, ◌≢◌, ap, sym, ◌/◌, some, inl, inr, refl, ◌∙◌,
  arith, false, ltb, add32, Outcome, ok, panic, some-injective, ◌>>=◌, Bool-cases,
}
use torch_os.Hardware.Mmu.{translate}
use torch_os.Memory.Machine.{Machine, page_size, heap_area_start, heap_area_end}
use torch_os.Memory.Paging.Write.{IsPaged-same}
use torch_os.Memory.Tables.Lost.{HasTable-of_translate}
use torch_os.Memory.Frames.{page_frame_allocate}
use torch_os.Memory.Frames.Allocate.{
  IsRunning, Allocates, Allocated, allocated, no_frames, no_tables, frame_page,
  page_frame_allocate-Allocated,
}
use torch_os.Memory.Bitmap.{bit_of}
use torch_os.Memory.Bitmap.FirstFit.{AllTaken}
use torch_os.Memory.Virtual.{virtual_read}
use torch_os.Hardware.Ram.{load8, load8-same}
use torch_os.Memory.Heap.{heap_grow}

-- Address `a` is translated to its place in frame `k`, which is marked.
abbrev pub InFrame : ℕ → Machine → ℕ → ℕ → Type 0
InFrame directory m a k = translate m.ram directory a ≡ some (frame_page k + a % 4096)

abbrev pub Backed : ℕ → Machine → ℕ → Type 0
Backed directory m a = (k : ℕ) × (bit_of m.page_frame_bitmap k ≡ 1) × InFrame directory m a k

-- The heap lies in its area, in whole pages, each of which has a frame of its own.
pub record IsHeap (directory : ℕ) (m : Machine) : Type 0 where
  pub running : IsRunning directory m
  pub aligned : m.heap_mapped % 4096 ≡ 0
  pub start : heap_area_start ≤ m.heap_current
  pub current : m.heap_current ≤ m.heap_mapped
  pub end : m.heap_mapped ≤ heap_area_end
  pub backed : (a : ℕ) → heap_area_start ≤ a → a < m.heap_mapped → Backed directory m a
  pub distinct :
      (a b k : ℕ)
      → heap_area_start ≤ a
      → a < m.heap_mapped
      → heap_area_start ≤ b
      → b < m.heap_mapped
      → InFrame directory m a k
      → InFrame directory m b k
      → a / 4096 ≡ b / 4096

-- The bytes of the heap from `low` to `high` are as before.
abbrev pub SameBytes : (low high : ℕ) (m m' : Machine) → Type 0
SameBytes low high m m' = (a : ℕ) → low ≤ a → a < high → virtual_read a m' ≡ virtual_read a m

pub read-InFrame :
    (directory a k : ℕ) (m : Machine)
    → IsRunning directory m
    → InFrame directory m a k
    → virtual_read a m ≡ ok (load8 m.ram (frame_page k + a % 4096))
unfolding virtual_read
read-InFrame directory a k m r at = rw (r.on, r.root, at)

abbrev pub advance : Machine → Machine
advance m = record m { heap_mapped = add32 m.heap_mapped page_size }

-- Some rounds of the loop, each with a page of its own, take one machine to the other.
pub data Grew (directory : ℕ) : Machine → Machine → Type 0 where
  grew_none : {m : Machine} → Grew directory m m
  grew_page :
      {m m1 m2 : Machine} {va : ℕ}
      → page_frame_allocate directory m.heap_mapped m ≡ ok (va, m1)
      → Grew directory (advance m1) m2
      → Grew directory m m2

-- The loop's outcomes: the heap reaches up to `top`, or some rounds lead to a machine
-- where it does not and where every frame, or every page table, is taken.
pub data Grown (directory top : ℕ) (m : Machine) : Outcome Machine → Type 0 where
  grown :
      {m' : Machine}
      → IsHeap directory m'
      → top ≤ m'.heap_mapped
      → m'.heap_current ≡ m.heap_current
      → SameBytes heap_area_start m.heap_mapped m m'
      → m.heap_mapped ≤ m'.heap_mapped
      → Grown directory top m (ok m')
  frames_taken :
      {m1 : Machine}
      → Grew directory m m1
      → m1.heap_mapped < top
      → AllTaken m1.page_frame_bitmap
      → Grown directory top m (panic "Page frame allocator has run out of space!")
  tables_taken :
      {m1 : Machine}
      → Grew directory m m1
      → m1.heap_mapped < top
      → AllTaken m1.page_table_bitmap
      → Grown directory top m
          (panic "Trying to allocate page tables but no page tables left to allocate!")

advance-IsRunning :
    (directory : ℕ) (m : Machine) → IsRunning directory m → IsRunning directory (advance m)
advance-IsRunning directory m r = record {
  paged = IsPaged-same directory m (advance m) r.paged refl (λ j h. refl);
  on = r.on;
  root = r.root;
  frames_length = r.frames_length;
  frames_words = r.frames_words;
}

module _ (directory n : ℕ) (m m1 : Machine) (h : IsHeap directory m)
    (room : m.heap_mapped < heap_area_end) (a : Allocates directory m.heap_mapped n m m1) where
  -- A marked frame is not the new one.
  other_frame : (k : ℕ) → bit_of m.page_frame_bitmap k ≡ 1 → k ≢ n
  other_frame k marked e =
      let same = ap (bit_of m.page_frame_bitmap) e in
      omega (arith, same, marked, a.claimed.was_clear)

  same_page :
      (x : ℕ)
      → heap_area_start ≤ x
      → x < m.heap_mapped
      → translate m1.ram directory x ≡ translate m.ram directory x
  same_page x low high =
      let (k, marked, at) = h.backed x low high in
      let has = HasTable-of_translate m.ram directory x (frame_page k + x % 4096) at in
      let end = h.end in let aligned = h.aligned in a.others x (omega arith) (omega arith) has

  Backed-before : (x : ℕ) → heap_area_start ≤ x → x < m.heap_mapped → Backed directory m1 x
  Backed-before x low high =
      let (k, marked, at) = h.backed x low high in
      (k, a.claimed.others k (other_frame k marked) ∙ marked, same_page x low high ∙ at)

  new_page : (x : ℕ) → m.heap_mapped ≤ x → x < m.heap_mapped + 4096 → InFrame directory m1 x n
  new_page x low high =
      let split : m.heap_mapped + (x - m.heap_mapped) ≡ x = omega arith in
      let place : x - m.heap_mapped ≡ x % 4096 = omega (arith, h.aligned) in
      rw (← place) (rw split at (a.maps (x - m.heap_mapped) (omega arith)))

  Backed-new : (x : ℕ) → m.heap_mapped ≤ x → x < m.heap_mapped + 4096 → Backed directory m1 x
  Backed-new x low high = (n, a.claimed.is_set, new_page x low high)

  -- An address below the new page and one in it are in different frames.
  frames_apart :
      (x y k : ℕ)
      → heap_area_start ≤ x
      → x < m.heap_mapped
      → m.heap_mapped ≤ y
      → y < m.heap_mapped + 4096
      → InFrame directory m1 x k
      → InFrame directory m1 y k
      → x / 4096 ≡ y / 4096
  frames_apart x y k low high low' high' at_x at_y =
      let (j, marked, at) = h.backed x low high in
      let old : frame_page k + x % 4096 ≡ frame_page j + x % 4096 =
        some-injective _ _ (sym at_x ∙ same_page x low high ∙ at) in
      let new : frame_page k + y % 4096 ≡ frame_page n + y % 4096 =
        some-injective _ _ (sym at_y ∙ new_page y low' high') in
      absurd (other_frame j marked (omega (arith, old, new)))

  -- A byte of the heap as it was keeps its place and its value.
  same_byte : SameBytes heap_area_start m.heap_mapped m (advance m1)
  same_byte x low high =
      let (j, marked, at) = h.backed x low high in
      let other = other_frame j marked in
      let kept : m1.ram (frame_page j + x % 4096) ≡ m.ram (frame_page j + x % 4096) =
        a.same_memory (frame_page j + x % 4096) (omega arith) (ground (arith, other)) in
      read-InFrame directory x j (advance m1) (advance-IsRunning directory m1 a.running)
        (same_page x low high ∙ at)
      ∙ ap ok (load8-same m.ram m1.ram (frame_page j + x % 4096) kept)
      ∙ sym (read-InFrame directory x j m h.running at)

  moved_on : (advance m1).heap_mapped ≡ m.heap_mapped + 4096
  moved_on = omega (arith, a.same_mapped, h.end)

  advance-IsHeap : IsHeap directory (advance m1)
  advance-IsHeap = record {
    running = advance-IsRunning directory m1 a.running;
    aligned = omega (arith, moved_on, h.aligned);
    start = omega (arith, a.same_heap, h.start);
    current = omega (arith, a.same_heap, h.current, moved_on);
    end = omega (arith, moved_on, h.aligned);
    backed = λ x low high. elim (Bool-cases (ltb x m.heap_mapped)) [
      | inl before ↦ Backed-before x low (ground arith)
      | inr new ↦ Backed-new x (ground arith) (ground (arith, moved_on))
    ];
    distinct = λ x y k lx hx ly hy at_x at_y. elim (Bool-cases (ltb x m.heap_mapped)) [
      | inl old ↦ elim (Bool-cases (ltb y m.heap_mapped)) [
        | inl old' ↦
            h.distinct x y k lx (ground arith) ly (ground arith)
              (sym (same_page x lx (ground arith)) ∙ at_x)
              (sym (same_page y ly (ground arith)) ∙ at_y)
        | inr new ↦
            frames_apart x y k lx (ground arith) (ground arith) (ground (arith, moved_on)) at_x at_y
      ]
      | inr new ↦ elim (Bool-cases (ltb y m.heap_mapped)) [
        | inl old ↦ sym (
            frames_apart y x k ly (ground arith) (ground arith) (ground (arith, moved_on)) at_y
              at_x)
        | inr new' ↦ ground (arith, moved_on, h.aligned)
      ]
    ];
  }

-- One round, by the outcome of the allocation.
round :
    (directory top : ℕ) (m : Machine) {r : Outcome (ℕ × Machine)} (next : Machine → Outcome Machine)
    → IsHeap directory m
    → m.heap_mapped < heap_area_end
    → m.heap_mapped < top
    → page_frame_allocate directory m.heap_mapped m ≡ r
    → Allocated directory m.heap_mapped m r
    → ((m1 : Machine)
        → page_frame_allocate directory m.heap_mapped m ≡ ok (m.heap_mapped, m1)
        → IsHeap directory (advance m1)
        → m1.heap_current ≡ m.heap_current
        → (advance m1).heap_mapped ≡ m.heap_mapped + 4096
        → SameBytes heap_area_start m.heap_mapped m (advance m1)
        → Grown directory top m (next (advance m1)))
    → Grown directory top m (r >>= λ p. next (advance p.1))
round directory top m next h room more e (allocated {m'} n a) go =
    go m' e (advance-IsHeap directory n m m' h room a) a.same_heap
      (moved_on directory n m m' h room a) (same_byte directory n m m' h room a)
round directory top m next h room more e (no_frames all) go = frames_taken grew_none more all
round directory top m next h room more e (no_tables all) go = tables_taken grew_none more all

Grown-same :
    (directory top : ℕ) (m m1 : Machine) {r : Outcome Machine}
    → page_frame_allocate directory m.heap_mapped m ≡ ok (m.heap_mapped, m1)
    → (advance m1).heap_current ≡ m.heap_current
    → m.heap_mapped ≤ (advance m1).heap_mapped
    → SameBytes heap_area_start m.heap_mapped m (advance m1)
    → Grown directory top (advance m1) r
    → Grown directory top m r
Grown-same directory top m m1 e same up before (grown h reached kept bytes more) =
    grown h reached (kept ∙ same) (λ a low high. bytes a low (omega arith) ∙ before a low high)
      (omega arith)
Grown-same directory top m m1 e same up before (frames_taken grew short all) =
    frames_taken (grew_page e grew) short all
Grown-same directory top m m1 e same up before (tables_taken grew short all) =
    tables_taken (grew_page e grew) short all

pub heap_grow-Grown :
    (k directory top : ℕ) (m : Machine)
    → IsHeap directory m
    → top ≤ heap_area_end
    → top ≤ m.heap_mapped + 4096 * k
    → Grown directory top m (heap_grow (suc k) directory top m)
unfolding heap_grow
heap_grow-Grown zero directory top m h small enough =
    let done : ltb m.heap_mapped top ≡ false = ground arith in
    rw done (grown h (omega arith) refl (λ a low high. refl) (omega arith))
heap_grow-Grown (suc k) directory top m h small enough = elim (Bool-cases (ltb m.heap_mapped top)) [
  | inr done ↦ rw done (grown h (ground arith) refl (λ a low high. refl) (omega arith))
  | inl more ↦
      let room : m.heap_mapped < heap_area_end = ground arith in
      rw more (
        round directory top m (heap_grow (suc k) directory top) h room (ground arith) refl
          (page_frame_allocate-Allocated directory m.heap_mapped m h.running (omega arith)
            h.aligned)
          (λ m1 e h1 same moved before.
            Grown-same directory top m m1 e same (omega arith) before (
              heap_grow-Grown k directory top (advance m1) h1 small
                (omega (arith, moved, enough)))))
]
