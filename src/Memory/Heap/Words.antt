-- ===== src/Memory/Heap/Words.antt =====
-- Words on the heap.
use torch_os.Base.{ℕ, ◌+◌, ◌*◌, ◌/◌, ◌^◌, ◌≤◌, ◌<◌, ◌≡◌, ◌⊎◌, inl, refl, ap, ◌∙◌, arith, u8, ok}
use torch_os.Hardware.Ram.{Ram}
use torch_os.Memory.Machine.{Machine, heap_area_start}
use torch_os.Memory.Virtual.{virtual_read, read_word, write_word}
use torch_os.Memory.Heap.Grow.{IsHeap, SameBytes}
use torch_os.Memory.Heap.Fill.{Sets, write-Sets}

pub read_word-bytes :
    (a b0 b1 b2 b3 : ℕ) (m : Machine)
    → virtual_read a m ≡ ok b0
    → virtual_read (a + 1) m ≡ ok b1
    → virtual_read (a + 2) m ≡ ok b2
    → virtual_read (a + 3) m ≡ ok b3
    → read_word a m ≡ ok (b0 + 2 ^ 8 * b1 + 2 ^ 16 * b2 + 2 ^ 24 * b3)
unfolding read_word
read_word-bytes a b0 b1 b2 b3 m e0 e1 e2 e3 = rw (e0, e1, e2, e3) refl

-- A word whose bytes are as before.
pub read_word-same :
    (low high a : ℕ) (m m' : Machine)
    → SameBytes low high m m'
    → low ≤ a
    → a + 4 ≤ high
    → read_word a m' ≡ read_word a m
unfolding read_word
read_word-same low high a m m' same above below =
    rw
      (
        same a above (omega arith),
        same (a + 1) (omega arith) (omega arith),
        same (a + 2) (omega arith) (omega arith),
        same (a + 3) (omega arith) (omega arith),
      )
      refl

-- The four stores of a word, from `m` to `r3`.
module _ (directory a b0 b1 b2 b3 : ℕ) (m : Machine) (r0 r1 r2 r3 : Ram)
    (above : heap_area_start ≤ a) (below : a + 4 ≤ m.heap_mapped)
    (s0 : Sets directory a (a + 1) b0 m r0)
    (s1 : Sets directory (a + 1) (a + 1 + 1) b1 (record m { ram = r0 }) r1)
    (s2 : Sets directory (a + 2) (a + 2 + 1) b2 (record m { ram = r1 }) r2)
    (s3 : Sets directory (a + 3) (a + 3 + 1) b3 (record m { ram = r2 }) r3) where
  stored_others :
      (b : ℕ)
      → heap_area_start ≤ b
      → b < m.heap_mapped
      → (b < a) ⊎ (a + 4 ≤ b)
      → virtual_read b (record m { ram = r3 }) ≡ virtual_read b m
  stored_others b low high out =
      s3.outside b low high (ground arith)
      ∙ s2.outside b low high (ground arith)
      ∙ s1.outside b low high (ground arith)
      ∙ s0.outside b low high (ground arith)

  stored_word :
      read_word a (record m { ram = r3 }) ≡ ok (b0 + 2 ^ 8 * b1 + 2 ^ 16 * b2 + 2 ^ 24 * b3)
  stored_word =
      read_word-bytes a b0 b1 b2 b3 (record m { ram = r3 })
        (s3.outside a (omega arith) (omega arith) (inl (omega arith))
          ∙ s2.outside a (omega arith) (omega arith) (inl (omega arith))
          ∙ s1.outside a (omega arith) (omega arith) (inl (omega arith))
          ∙ s0.inside a (omega arith) (omega arith))
        (s3.outside (a + 1) (omega arith) (omega arith) (inl (omega arith))
          ∙ s2.outside (a + 1) (omega arith) (omega arith) (inl (omega arith))
          ∙ s1.inside (a + 1) (omega arith) (omega arith))
        (s3.outside (a + 2) (omega arith) (omega arith) (inl (omega arith))
          ∙ s2.inside (a + 2) (omega arith) (omega arith))
        (s3.inside (a + 3) (omega arith) (omega arith))

bytes_of_word :
    (v : ℕ)
    → v < 2 ^ 32
    → u8 v + 2 ^ 8 * u8 (v / 2 ^ 8) + 2 ^ 16 * u8 (v / 2 ^ 16) + 2 ^ 24 * u8 (v / 2 ^ 24) ≡ v
bytes_of_word v small = omega arith

-- What is written is read again, and the rest of the heap is as before.
pub write_word-heap :
    (directory a v : ℕ) (m : Machine)
    → IsHeap directory m
    → heap_area_start ≤ a
    → a + 4 ≤ m.heap_mapped
    → v < 2 ^ 32
    → (ram : Ram) × (write_word a v m ≡ ok (record m { ram = ram }))
      × IsHeap directory (record m { ram = ram })
      × (read_word a (record m { ram = ram }) ≡ ok v)
      × ((b : ℕ)
          → heap_area_start ≤ b
          → b < m.heap_mapped
          → (b < a) ⊎ (a + 4 ≤ b)
          → virtual_read b (record m { ram = ram }) ≡ virtual_read b m)
unfolding write_word
write_word-heap directory a v m h above below small =
    let (r0, w0, s0) = write-Sets directory a (u8 v) m h above (omega arith) (omega arith) in
    let (r1, w1, s1) =
      write-Sets directory (a + 1) (u8 (v / 2 ^ 8)) (record m { ram = r0 }) s0.heap (omega arith)
        (omega arith) (omega arith) in
    let (r2, w2, s2) =
      write-Sets directory (a + 2) (u8 (v / 2 ^ 16)) (record m { ram = r1 }) s1.heap (omega arith)
        (omega arith) (omega arith) in
    let (r3, w3, s3) =
      write-Sets directory (a + 3) (u8 (v / 2 ^ 24)) (record m { ram = r2 }) s2.heap (omega arith)
        (omega arith) (omega arith) in
    (
      r3,
      rw (w0, w1, w2, w3) refl,
      s3.heap,
      stored_word directory a (u8 v) (u8 (v / 2 ^ 8)) (u8 (v / 2 ^ 16)) (u8 (v / 2 ^ 24)) m r0 r1 r2
            r3 above below s0 s1 s2 s3
          ∙ ap ok (bytes_of_word v small),
      stored_others directory a (u8 v) (u8 (v / 2 ^ 8)) (u8 (v / 2 ^ 16)) (u8 (v / 2 ^ 24)) m r0 r1
          r2 r3 above below s0 s1 s2 s3,
    )
