-- ===== src/Memory/Init/Start.antt =====
-- `init_paging` starts paging with the kernel, the page tables and the screen at their addresses.
use torch_os.Base.{
  ℕ, ◌+◌, ◌/◌, ◌^◌, ◌≤◌, ◌<◌, ◌≡◌, ◌≢◌, inl, refl, sym, ap, ◌∙◌, arith, true, some, length,
  replicate, Outcome, ok, panic, ◌>>=◌,
}
use mathlib.Core.Bool.{false≢true}
use torch_os.Hardware.Mmu.{translate, table_index}
use torch_os.Memory.Machine.{
  Machine, page_table_area_start, page_table_area_end, kernel_start, kernel_end, heap_area_start,
  page_frame_bitmap_size, page_table_bitmap_size,
}
use torch_os.Memory.Bitmap.{bit_of}
use torch_os.Memory.Bitmap.FirstFit.{IsWords, AllTaken}
use torch_os.Memory.Paging.{identity_map_range, map_page}
use torch_os.Memory.Paging.Directory.{HasTable}
use torch_os.Memory.Paging.Range.{
  MapsUpTo, IdentityMaps, RangeMapped, range_mapped, no_tables_left, identity_map_range-RangeMapped,
}
use torch_os.Memory.Paging.Write.{
  written, IsPaged-same, translate-written_self, translate-written_ne, other_page,
}
use torch_os.Memory.Tables.Lost.{HasTable-of_translate, bit_of-replicate}
use torch_os.Memory.Init.Linked.{IsLinked, linked, entry_zero, linked-IsPaged}
use torch_os.Isr.{Handler, Handlers, register_interrupt_handler}
use torch_os.Memory.Paging.Map.{finish, map_page-present}
use torch_os.Memory.Frames.{init_page_frame_allocator}
use torch_os.Memory.Tables.{IsBehind, init_page_table_allocator}
use torch_os.Memory.Heap.{init_heap_allocator}
use torch_os.Memory.Init.{init_paging}

-- Paging is on; the kernel, the page tables' area and the page of the screen are translated to
-- themselves, every frame is free, and the heap is empty.
pub record Starts (directory : ℕ) (m : Machine) : Type 0 where
  pub on : m.paging ≡ true
  pub root : m.cr3 ≡ directory
  pub kernel : (a : ℕ) → kernel_start ≤ a → a < kernel_end → translate m.ram directory a ≡ some a
  pub tables :
      (a : ℕ)
      → page_table_area_start ≤ a
      → a < page_table_area_end
      → translate m.ram directory a ≡ some a
  pub screen : (o : ℕ) → o < 4096 → translate m.ram directory (0xb8000 + o) ≡ some (0xb8000 + o)
  pub frames : (n : ℕ) → n < 59136 → bit_of m.page_frame_bitmap n ≡ 0
  pub heap_empty : (m.heap_current ≡ heap_area_start) × (m.heap_mapped ≡ heap_area_start)

-- The bitmaps after their allocators' initialization, and the heap's pointers.
abbrev with_frames : Machine → Machine
with_frames m = record m { page_frame_bitmap = replicate page_frame_bitmap_size 0 }

abbrev with_heap : Machine → Machine
with_heap m = record m {
  page_table_bitmap = replicate page_table_bitmap_size 0;
  heap_current = heap_area_start;
  heap_mapped = heap_area_start;
}

abbrev running : ℕ → Machine → Machine
running directory m = record m { cr3 = directory; paging = true }

module _ (clear_behind : Machine → Machine) (behind : IsBehind clear_behind) (directory : ℕ)
    (m m4 m6 : Machine) (has : HasTable m.ram directory 0)
    (kernel_maps : IdentityMaps directory kernel_start kernel_end m m4)
    (table_maps : IdentityMaps directory page_table_area_start page_table_area_end
      (with_frames m4)
      m6) where
  has4 : HasTable m4.ram directory 0
  has4 = rw (kernel_maps.keeps 0 (omega arith) has) has

  has6 : HasTable m6.ram directory 0
  has6 = rw (table_maps.keeps 0 (omega arith) has4) has4

  kernel6 : (a : ℕ) → kernel_start ≤ a → a < kernel_end → translate m6.ram directory a ≡ some a
  kernel6 a low high =
      let slot : a / 2 ^ 22 ≡ 0 = omega arith in
      table_maps.others a (omega arith) (inl (omega arith)) (rw slot has4)
      ∙ kernel_maps.identity a low high

  abbrev shown : Machine
  shown =
      written directory 0 (table_index 0xb8000) (0xb8000 + 3) m6 table_maps.paged (omega arith)
        (omega arith) has6

  screen_page :
      (o : ℕ) → o < 4096 → translate shown.ram directory (0xb8000 + o) ≡ some (0xb8000 + o)
  screen_page o h =
      translate-written_self directory 0 (table_index 0xb8000) (0xb8000 + 3) m6 table_maps.paged
        (omega arith) (omega arith) has6 (0xb8000 + o) (omega arith) (omega arith) (omega arith)
        (omega arith)
      ∙ ap some (omega arith)

  kept :
      (a : ℕ)
      → a < 2 ^ 32
      → a / 4096 ≢ 0xb8000 / 4096
      → translate m6.ram directory a ≡ some a
      → translate shown.ram directory a ≡ some a
  kept a small ne at =
      translate-written_ne directory 0 (table_index 0xb8000) (0xb8000 + 3) m6 table_maps.paged
        (omega arith) (omega arith) has6 a small (HasTable-of_translate m6.ram directory a a at)
        (other_page 0xb8000 a ne)
      ∙ at

  started :
      Starts directory
        (running directory (record (with_heap (clear_behind m6)) { ram = shown.ram }))
  started = record {
    on = refl;
    root = refl;
    kernel = λ a low high. kept a (omega arith) (omega arith) (kernel6 a low high);
    tables = λ a low high. kept a (omega arith) (omega arith) (table_maps.identity a low high);
    screen = screen_page;
    frames = λ n h.
        behind.frames m6 n (rw table_maps.same_frames (bit_of-replicate 1848 n (omega arith)));
    heap_empty = (refl, refl);
  }

-- The handlers and the machine after `init_paging`, by its outcome, from the machine `linked` on
-- that has the directory and its two tables.
pub data PagingStarted {S : Type 0} (directory : ℕ) (handler : Handler S) (linked : Machine)
    : Outcome (Handlers S × Machine) → Type 0 where
  paging_started :
      {table : Handlers S} {m : Machine}
      → Starts directory m
      → table 14 ≡ some handler
      → PagingStarted directory handler linked (ok (table, m))
  -- the kernel was mapped, and the page tables' area up to a page, then every table was taken
  out_of_tables :
      {m4 m6 : Machine} {addr : ℕ}
      → identity_map_range directory kernel_start kernel_end linked ≡ ok m4
      → MapsUpTo directory page_table_area_start (with_frames m4) addr m6
      → AllTaken m6.page_table_bitmap
      → PagingStarted directory handler linked
          (panic "Trying to allocate page tables but no page tables left to allocate!")

-- `init_paging` from the allocators on.
after_kernel :
    {S : Type 0} → (Machine → Machine) → ℕ → Handlers S → Machine → Outcome (Handlers S × Machine)
after_kernel clear_behind directory table m4 = do
  m5 ← init_page_frame_allocator m4
  m6 ← init_page_table_allocator clear_behind directory m5
  m7 ← init_heap_allocator m6
  m8 ← map_page directory 0xb8000 0xb8000 m7
  ok (table, running directory m8)

module _ {S : Type 0} (clear_behind : Machine → Machine) (behind : IsBehind clear_behind)
    (directory : ℕ) (handler : Handler S) (table : Handlers S) (set : table 14 ≡ some handler)
    (m : Machine) (has : HasTable m.ram directory 0) where
  after_kernel-PagingStarted :
      (m4 : Machine) {r : Outcome Machine}
      → identity_map_range directory kernel_start kernel_end m ≡ ok m4
      → IdentityMaps directory kernel_start kernel_end m m4
      → identity_map_range directory page_table_area_start page_table_area_end (with_frames m4) ≡ r
      → RangeMapped directory page_table_area_start page_table_area_end (with_frames m4) r
      → PagingStarted directory handler m (after_kernel clear_behind directory table m4)
  unfolding after_kernel init_page_frame_allocator init_page_table_allocator init_heap_allocator
      finish
  after_kernel-PagingStarted m4 is_m4 kernel_maps e (range_mapped {m'} table_maps) =
      rw
        (
          e,
          map_page-present directory 0xb8000 0xb8000 (with_heap (clear_behind m')) (omega arith)
              refl refl
              (rw (behind.ram m')
                (has6 clear_behind behind directory m m4 m' has kernel_maps table_maps)),
          behind.ram m',
        )
        (paging_started (started clear_behind behind directory m m4 m' has kernel_maps table_maps)
          set)
  after_kernel-PagingStarted m4 is_m4 kernel_maps e
        (no_tables_left j low high absent up here full) =
      rw e (out_of_tables is_m4 up full)

  kernel-PagingStarted :
      {r : Outcome Machine}
      → identity_map_range directory kernel_start kernel_end m ≡ r
      → RangeMapped directory kernel_start kernel_end m r
      → PagingStarted directory handler m (r >>= after_kernel clear_behind directory table)
  kernel-PagingStarted e (range_mapped {m'} maps) = after_kernel-PagingStarted m' e maps refl (
      identity_map_range-RangeMapped directory page_table_area_start page_table_area_end
        (with_frames m') (IsPaged-same directory m' (with_frames m') maps.paged refl (λ j h. refl))
        (omega arith) (omega arith) (omega arith))
  kernel-PagingStarted e (no_tables_left j low high absent up here full) =
      let zero_slot : j ≡ 0 = omega arith in
      let gone = rw zero_slot at absent in absurd (false≢true (sym gone ∙ has))

-- With directory and two tables on different pages below the page table area, none behind the
-- bitmap of 32 words, `init_paging` ends: paging is on, kernel, tables and screen are mapped to
-- themselves, all frames are free, the heap is empty, interrupt 14 is handled; or it panics, every
-- table being taken.
pub init_paging-PagingStarted :
    {S : Type 0} (clear_behind : Machine → Machine) (behind : IsBehind clear_behind)
    (directory first second : ℕ) (handler : Handler S) (table : Handlers S) (m : Machine)
    (l : IsLinked directory first second) (bits : length m.page_table_bitmap ≡ 32)
    (words : IsWords m.page_table_bitmap)
    → PagingStarted directory handler
        (linked directory first second l m bits words)
        (init_paging clear_behind directory first second handler table m)
unfolding init_paging after_kernel register_interrupt_handler
init_paging-PagingStarted clear_behind behind directory first second handler table m l bits words =
    let p = linked-IsPaged directory first second l m bits words in
    let entry = entry_zero directory first second l m bits words in
    let has : HasTable (linked directory first second l m bits words).ram directory 0 =
      ground (arith, entry, l.first_aligned) in
    kernel-PagingStarted clear_behind behind directory handler
      (register_interrupt_handler 14 handler table) refl
      (linked directory first second l m bits words) has refl
      (identity_map_range-RangeMapped directory kernel_start kernel_end
        (linked directory first second l m bits words) p (omega arith) (omega arith) (omega arith))
