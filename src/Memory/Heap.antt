-- ===== src/Memory/Heap.antt =====
-- The heap allocator of kernel/memory.c.
pub mod Grow
pub mod Fill
pub mod Allocate
pub mod Words
use torch_os.Base.{
  ℕ, zero, suc, ◌+◌, ◌%◌, ◌^◌, not, ◌==◌, ltb, if◌then◌else◌, add32, Outcome, ok, out_of_fuel,
  ◌>>=◌, ◌>>◌, panic_if,
}
use torch_os.Strings.{memset}
use torch_os.Memory.Machine.{Machine, page_size, heap_area_start, heap_area_end}
use torch_os.Memory.Frames.{page_frame_allocate}
use torch_os.Memory.Virtual.{virtual}

unfoldable pub init_heap_allocator : Machine → Outcome Machine
init_heap_allocator m = do
  panic_if (not (heap_area_start % page_size == 0))
      "Heap allocator does not start at a page aligned address!"
  panic_if (not (heap_area_end % page_size == 0))
      "Heap allocator does not end at a page aligned address!"
  ok (record m { heap_current = heap_area_start; heap_mapped = heap_area_start })

-- `while (heap_current + size > heap_mapped)`, with `top` for the sum, which the loop does not
-- change
unfoldable pub heap_grow : (fuel directory top : ℕ) → Machine → Outcome Machine
heap_grow zero directory top m = out_of_fuel
heap_grow (suc fuel) directory top m =
    let rest = λ (m1 : Machine).
      heap_grow fuel directory top (record m1 { heap_mapped = add32 m1.heap_mapped page_size }) in
    if ltb m.heap_mapped top
    then (do (_, m1) ← page_frame_allocate directory m.heap_mapped m; rest m1)
    else ok m

-- Both sums of `heap_current + size` wrap at 32 bits. From `heap_mapped` to `top` there are fewer
-- pages than there are in all, 2 ^ 20.
unfoldable pub heap_allocate : (directory size : ℕ) → Machine → Outcome (ℕ × Machine)
heap_allocate directory size m = do
  panic_if (ltb heap_area_end (add32 m.heap_current size)) "Heap is overflowing! Cannot allocate!"
  m1 ← heap_grow (2 ^ 20 + 1) directory (add32 m.heap_current size) m
  (_, m2) ← memset virtual m1.heap_current 0 size m1
  ok (m2.heap_current, record m2 { heap_current = add32 m2.heap_current size })
