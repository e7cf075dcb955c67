-- ===== src/Memory/Heap/Allocate.antt =====
-- `heap_allocate` gives out the heap's bytes in order, and none twice.
use torch_os.Base.{
  ℕ, ◌+◌, ◌^◌, ◌≤◌, ◌<◌, ◌≡◌, inl, inr, refl, ◌∙◌, arith, ltb, add32, Outcome, ok, panic, ◌>>=◌,
  Bool-cases,
}
use torch_os.Strings.{memset}
use torch_os.Memory.Machine.{Machine, heap_area_start, heap_area_end}
use torch_os.Memory.Virtual.{virtual, virtual_read}
use torch_os.Memory.Virtual.Page.{IsPaged-above}
use torch_os.Memory.Bitmap.FirstFit.{AllTaken}
use torch_os.Memory.Heap.{heap_allocate}
use torch_os.Memory.Heap.Grow.{
  IsHeap, SameBytes, Grew, Grown, grown, frames_taken, tables_taken, heap_grow-Grown,
}
use torch_os.Memory.Heap.Fill.{memset_from-Sets}

-- How a call for `size` bytes ends.
pub data HeapAllocated (directory size : ℕ) (m : Machine) : Outcome (ℕ × Machine) → Type 0 where
  given :
      {m' : Machine}
      → IsHeap directory m'
      → m'.heap_current ≡ m.heap_current + size
      → ((b : ℕ) → m.heap_current ≤ b → b < m.heap_current + size → virtual_read b m' ≡ ok 0)
      → SameBytes heap_area_start m.heap_current m m'
      → HeapAllocated directory size m (ok (m.heap_current, m'))
  overflow :
      heap_area_end < m.heap_current + size
      → HeapAllocated directory size m (panic "Heap is overflowing! Cannot allocate!")
  -- further pages were mapped, then no frame or no table was left for the next
  out_of_frames :
      {m1 : Machine}
      → Grew directory m m1
      → m1.heap_mapped < m.heap_current + size
      → AllTaken m1.page_frame_bitmap
      → HeapAllocated directory size m (panic "Page frame allocator has run out of space!")
  out_of_tables :
      {m1 : Machine}
      → Grew directory m m1
      → m1.heap_mapped < m.heap_current + size
      → AllTaken m1.page_table_bitmap
      → HeapAllocated directory size m
          (panic "Trying to allocate page tables but no page tables left to allocate!")

abbrev take : ℕ → Machine → ℕ × Machine
take size m = (m.heap_current, record m { heap_current = add32 m.heap_current size })

take-IsHeap :
    (directory size : ℕ) (m : Machine)
    → IsHeap directory m
    → m.heap_current + size ≤ m.heap_mapped
    → IsHeap directory (take size m).1
take-IsHeap directory size m h fits =
    let sum : add32 m.heap_current size ≡ m.heap_current + size = omega (arith, h.end) in
    record {
      running = record {
        paged = IsPaged-above directory m (take size m).1 h.running.paged (λ b low. refl) refl;
        on = h.running.on;
        root = h.running.root;
        frames_length = h.running.frames_length;
        frames_words = h.running.frames_words;
      };
      aligned = h.aligned;
      start = omega (arith, sum, h.start);
      current = omega (arith, sum);
      end = h.end;
      backed = h.backed;
      distinct = h.distinct;
    }

-- The rest of the call, once the heap has grown.
clear : ℕ → Machine → Outcome (ℕ × Machine)
clear size m1 = memset virtual m1.heap_current 0 size m1 >>= λ p. ok (take size p.1)

clear-HeapAllocated :
    (directory size : ℕ) (m m1 : Machine)
    → IsHeap directory m
    → IsHeap directory m1
    → m.heap_current + size ≤ m1.heap_mapped
    → m1.heap_current ≡ m.heap_current
    → SameBytes heap_area_start m.heap_mapped m m1
    → HeapAllocated directory size m (clear size m1)
unfolding clear memset virtual_read
clear-HeapAllocated directory size m m1 h0 h reached same before =
    let (ram, filled, sets) =
      memset_from-Sets size directory m1.heap_current 0 0 m1 h h.start (omega (arith, same)) in
    let sum : add32 m1.heap_current size ≡ m.heap_current + size = omega (arith, same, h.end) in
    let current = h0.current in
    rw (filled, ← same)
      (given (take-IsHeap directory size (record m1 { ram = ram }) sets.heap (omega (arith, same)))
        (sum ∙ rw same) (λ b low high. sets.inside b (omega arith) (omega arith))
        (λ b low high.
          sets.outside b low (omega (arith, reached)) (omega (arith, same))
          ∙ before b low (omega (arith, current))))

finish :
    (directory size : ℕ) (m : Machine) {r : Outcome Machine}
    → IsHeap directory m
    → Grown directory (m.heap_current + size) m r
    → HeapAllocated directory size m (r >>= clear size)
finish directory size m h0 (grown {m'} h reached same before more) =
    clear-HeapAllocated directory size m m' h0 h reached same before
finish directory size m h0 (frames_taken grew short all) = out_of_frames grew short all
finish directory size m h0 (tables_taken grew short all) = out_of_tables grew short all

pub heap_allocate-HeapAllocated :
    (directory size : ℕ) (m : Machine)
    → IsHeap directory m
    → m.heap_current + size < 2 ^ 32
    → HeapAllocated directory size m (heap_allocate directory size m)
unfolding heap_allocate clear
heap_allocate-HeapAllocated directory size m h small =
    let sum : add32 m.heap_current size ≡ m.heap_current + size = omega arith in
    elim (Bool-cases (ltb heap_area_end (m.heap_current + size))) [
      | inl over ↦ rw (sum, over) (overflow (ground arith))
      | inr fits ↦
          rw (sum, fits)
            (finish directory size m h (
              heap_grow-Grown (2 ^ 20) directory (m.heap_current + size) m h (ground arith)
                (ground (arith, h.end, h.start, h.current))))
    ]
