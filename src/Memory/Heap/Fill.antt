-- ===== src/Memory/Heap/Fill.antt =====
-- Writing and filling the heap's bytes.
use torch_os.Base.{
  ℕ, zero, suc, ◌+◌, ◌^◌, ◌≤◌, ◌<◌, ◌≡◌, inl, inr, refl, sym, ap, ◌⊎◌, ◌≢◌, ◌%◌, ◌∙◌, arith, ltb,
  u8, ok, Bool-cases,
}
use torch_os.Hardware.Ram.{Ram, store8, load8-store8}
use torch_os.Memory.Frames.Allocate.{frame_page}
use torch_os.Strings.{memset_from}
use torch_os.Memory.Machine.{Machine, page_table_area_end, heap_area_start}
use torch_os.Memory.Virtual.{virtual, virtual_write, virtual_read}
use torch_os.Memory.Virtual.Page.{IsPaged-above, translate-above}
use torch_os.Memory.Heap.Grow.{IsHeap, InFrame, read-InFrame}

-- A change of memory behind the page tables keeps the heap.
pub IsHeap-above :
    (directory : ℕ) (m : Machine) (ram : Ram) (h : IsHeap directory m)
    → ((b : ℕ) → b < page_table_area_end → ram b ≡ m.ram b)
    → IsHeap directory (record m { ram = ram })
IsHeap-above directory m ram h same =
    let m' : Machine = record m { ram = ram } in
    let paged = h.running.paged in
    record {
      running = record {
        paged = IsPaged-above directory m m' paged same refl;
        on = h.running.on;
        root = h.running.root;
        frames_length = h.running.frames_length;
        frames_words = h.running.frames_words;
      };
      aligned = h.aligned;
      start = h.start;
      current = h.current;
      end = h.end;
      backed = λ a low high.
          let (pa, above, at) = h.backed a low high in
          (pa, above, translate-above directory m m' paged same a (omega (arith, h.end)) ∙ at);
      distinct = λ a b k la ha lb hb at_a at_b.
          h.distinct a b k la ha lb hb
            (sym (translate-above directory m m' paged same a (omega (arith, h.end))) ∙ at_a)
            (sym (translate-above directory m m' paged same b (omega (arith, h.end))) ∙ at_b);
    }

-- The heap's bytes from `low` to `high` are set to `v`, and nothing else changes.
pub record Sets (directory low high v : ℕ) (m : Machine) (ram : Ram) : Type 0 where
  pub heap : IsHeap directory (record m { ram = ram })
  pub inside : (b : ℕ) → low ≤ b → b < high → virtual_read b (record m { ram = ram }) ≡ ok v
  pub outside :
      (b : ℕ)
      → heap_area_start ≤ b
      → b < m.heap_mapped
      → (b < low) ⊎ (high ≤ b)
      → virtual_read b (record m { ram = ram }) ≡ virtual_read b m

module _ (directory a v : ℕ) (m : Machine) (h : IsHeap directory m) (low : heap_area_start ≤ a)
    (high : a < m.heap_mapped) (k : ℕ) (at : InFrame directory m a k) (byte : v < 2 ^ 8) where
  abbrev pa : ℕ
  pa = frame_page k + a % 4096

  abbrev ram1 : Ram
  ram1 = store8 m.ram pa v

  behind : (b : ℕ) → b < page_table_area_end → ram1 b ≡ m.ram b
  unfolding store8
  behind b below = ground arith

  still :
      (b j : ℕ)
      → b < m.heap_mapped
      → InFrame directory m b j
      → InFrame directory (record m { ram = ram1 }) b j
  still b j small at_b =
      translate-above directory m (record m { ram = ram1 }) h.running.paged behind b
        (omega (arith, h.end))
      ∙ at_b

  stored-IsHeap : IsHeap directory (record m { ram = ram1 })
  stored-IsHeap = IsHeap-above directory m ram1 h behind

  read_it : virtual_read a (record m { ram = ram1 }) ≡ ok v
  read_it =
      read-InFrame directory a k (record m { ram = ram1 }) stored-IsHeap.running (still a k high at)
      ∙ ap ok (load8-store8 m.ram pa pa v ∙ ground (arith, byte))

  read_other :
      (b : ℕ)
      → heap_area_start ≤ b
      → b < m.heap_mapped
      → b ≢ a
      → virtual_read b (record m { ram = ram1 }) ≡ virtual_read b m
  read_other b low' high' other =
      let (j, marked, at_b) = h.backed b low' high' in
      let apart : frame_page j + b % 4096 ≢ pa = λ same.
        let one : j ≡ k = omega (arith, same) in
        let page = h.distinct b a k low' high' low high (rw (← one) at_b) at in
        absurd (other (omega (arith, same, page))) in
      read-InFrame directory b j (record m { ram = ram1 }) stored-IsHeap.running
        (still b j high' at_b)
      ∙ ap ok (load8-store8 m.ram pa (frame_page j + b % 4096) v ∙ ground (arith, apart))
      ∙ sym (read-InFrame directory b j m h.running at_b)

  stored-Sets : Sets directory a (a + 1) v m ram1
  stored-Sets = record {
    heap = stored-IsHeap;
    inside = λ b l r. let it : a ≡ b = omega (arith, l, r) in rw (← it) read_it;
    outside = λ b l r out. read_other b l r (ground arith);
  }

-- A byte of the heap is written behind the page tables.
pub write-Sets :
    (directory a v : ℕ) (m : Machine)
    → IsHeap directory m
    → heap_area_start ≤ a
    → a < m.heap_mapped
    → v < 2 ^ 8
    → (ram : Ram) × (virtual_write a v m ≡ ok (record m { ram = ram }))
      × Sets directory a (a + 1) v m ram
unfolding virtual_write
write-Sets directory a v m h low high byte =
    let (k, marked, at) = h.backed a low high in
    (
      store8 m.ram (frame_page k + a % 4096) v,
      rw (h.running.on, h.running.root, at),
      stored-Sets directory a v m h low high k at byte,
    )

pub memset_from-Sets :
    (left directory a i v : ℕ) (m : Machine)
    → IsHeap directory m
    → heap_area_start ≤ a
    → a + i + left ≤ m.heap_mapped
    → (ram : Ram) × (memset_from virtual left a v i m ≡ ok (record m { ram = ram }))
      × Sets directory (a + i) (a + i + left) (u8 v) m ram
unfolding memset_from
memset_from-Sets zero directory a i v m h low fits = (
  m.ram,
  refl,
  record { heap = h; inside = λ b l r. absurd (omega arith); outside = λ b l r out. refl },
)
memset_from-Sets (suc left) directory a i v m h low fits =
    let (ram, first, s1) =
      write-Sets directory (a + i) (u8 v) m h (omega arith) (omega arith) (omega arith) in
    let (ram', rest, s2) =
      memset_from-Sets left directory a (i + 1) v (record m { ram = ram }) s1.heap low
        (omega arith) in
    (
      ram',
      rw (first, rest),
      record {
        heap = s2.heap;
        inside = λ b l r. elim (Bool-cases (ltb (a + i) b)) [
          | inl later ↦ s2.inside b (ground arith) (ground arith)
          | inr now ↦
              s2.outside b (omega arith) (omega arith) (ground arith) ∙ s1.inside b l (ground arith)
        ];
        outside = λ b l r out. s2.outside b l r (ground arith) ∙ s1.outside b l r (ground arith);
      },
    )
