-- ===== src/Memory/Sample.antt =====
-- A machine with paging on, no page mapped and nothing taken.
use torch_os.Base.{ℕ, zero, suc, ◌≡◌, refl, arith, true, false, replicate, length-replicate}
use torch_os.Hardware.Ram.{Ram, load32-store32_self}
use torch_os.Hardware.Mmu.{present}
use torch_os.Memory.Machine.{Machine}
use torch_os.Memory.Bitmap.FirstFit.{IsWords}
use torch_os.Memory.Paging.{entry_at}
use torch_os.Memory.Paging.Directory.{HasTable, IsPaged}
use torch_os.Memory.Heap.Grow.{IsHeap}
use torch_os.Memory.Frames.Allocate.{IsRunning}

abbrev pub empty : Ram
empty b = 0

abbrev pub fresh : Machine
fresh = record {
  ram = empty;
  paging = true;
  cr3 = 0x00200000;
  page_frame_bitmap = replicate 1848 0;
  page_table_bitmap = replicate 32 0;
  heap_current = 0x0F000000;
  heap_mapped = 0x0F000000;
}

-- Nothing is present in the empty memory.
pub absent : (i : ℕ) → present (entry_at empty 0x00200000 i) ≡ false
unfolding torch_os.Hardware.Ram.load32
absent i = refl

pub replicate-IsWords : (n : ℕ) → IsWords (replicate n 0)
replicate-IsWords zero = tt
replicate-IsWords (suc n) = (omega arith, replicate-IsWords n)

no_table : {A : Type 0} (i : ℕ) → HasTable empty 0x00200000 i → A
no_table i has = let gone = absent i in cc

pub fresh-IsPaged : IsPaged 0x00200000 fresh
fresh-IsPaged = record {
  aligned = refl;
  outside = omega arith;
  tables_low = λ i h has. no_table i has;
  bitmap_length = length-replicate {A = ℕ} 32 0;
  bitmap_words = replicate-IsWords 32;
  tables_apart = λ i h has. no_table i has;
  tables_distinct = λ i j hi hj ne has has'. no_table i has;
  tables_claimed = λ i n h has at. no_table i has;
}

pub fresh-IsRunning : IsRunning 0x00200000 fresh
fresh-IsRunning = record {
  paged = fresh-IsPaged;
  on = refl;
  root = refl;
  frames_length = length-replicate {A = ℕ} 1848 0;
  frames_words = replicate-IsWords 1848;
}

pub fresh-IsHeap : IsHeap 0x00200000 fresh
fresh-IsHeap = record {
  running = fresh-IsRunning;
  aligned = refl;
  start = omega arith;
  current = omega arith;
  end = omega arith;
  backed = λ a low high. absurd (omega arith);
  distinct = λ a b k low high low' high' at_a at_b. absurd (omega arith);
}
