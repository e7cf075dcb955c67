-- ===== src/Memory/Tests.antt =====
-- The memory theorems at work on an empty directory, and on one with a page.
use torch_os.Base.{
  ℕ, ◌≡◌, ◌⊎◌, refl, arith, List, [], ◌∷◌, some, none, ok, replicate, length-replicate,
}
use torch_os.Memory.Machine.{Machine}
use torch_os.Memory.Bitmap.{claim}
use torch_os.Memory.Bitmap.FirstFit.{Claimed, AllTaken, claim-cases}
use torch_os.Memory.Paging.{map_page, unmap_page, identity_map_range}
use torch_os.Memory.Paging.Directory.{HasTable, IsPaged}
use torch_os.Memory.Paging.Map.{Mapped, map_page-Mapped}
use torch_os.Memory.Paging.Unmap.{Unmapped, unmap_page-Unmapped}
use torch_os.Memory.Paging.Range.{RangeMapped, identity_map_range-RangeMapped}
use torch_os.Memory.Paging.Tables.{with_table, with_table-IsPaged, new_entry}
use torch_os.Memory.Paging.Write.{written, written-IsPaged}
use torch_os.Isr.{Handler, Handlers}
use torch_os.Memory.Init.{init_paging}
use torch_os.Memory.Init.Linked.{IsLinked, linked}
use torch_os.Memory.Init.Start.{PagingStarted, init_paging-PagingStarted}
use torch_os.Memory.Tables.{IsBehind, init_page_table_allocator}
use torch_os.Memory.Tables.Lost.{Lost, init_page_table_allocator-Lost}
use torch_os.Memory.Sample.{fresh, absent, replicate-IsWords, fresh-IsPaged}

claim-cases_example :
    ((n : ℕ) × (after : List ℕ) × (claim (0xFFFFFFFF ∷ 5 ∷ []) ≡ some (n, after))
      × Claimed (0xFFFFFFFF ∷ 5 ∷ []) n after)
    ⊎ ((claim (0xFFFFFFFF ∷ 5 ∷ []) ≡ none) × AllTaken (0xFFFFFFFF ∷ 5 ∷ []))
claim-cases_example = claim-cases (0xFFFFFFFF ∷ 5 ∷ []) (omega arith, (omega arith, tt))

map_page-Mapped_example :
    Mapped 0x00200000 0x00400000 0x00900000 fresh (map_page 0x00200000 0x00400000 0x00900000 fresh)
map_page-Mapped_example =
    map_page-Mapped 0x00200000 0x00400000 0x00900000 fresh fresh-IsPaged (omega arith) (omega arith)
      refl refl

identity_map_range-RangeMapped_example :
    RangeMapped 0x00200000 0x00100000 0x00300000 fresh
      (identity_map_range 0x00200000 0x00100000 0x00300000 fresh)
identity_map_range-RangeMapped_example =
    identity_map_range-RangeMapped 0x00200000 0x00100000 0x00300000 fresh fresh-IsPaged refl refl
      (omega arith)

-- The two words of the heap stand behind the array.
abbrev forget_heap : Machine → Machine
forget_heap m = record m { heap_current = 0; heap_mapped = 0 }

forget_heap-IsBehind : IsBehind forget_heap
forget_heap-IsBehind = record { ram = λ m. refl; frames = λ m n clear. clear }

init_page_table_allocator-Lost_example :
    Lost 0x00200000 fresh (init_page_table_allocator forget_heap 0x00200000 fresh)
init_page_table_allocator-Lost_example =
    init_page_table_allocator-Lost forget_heap forget_heap-IsBehind 0x00200000 fresh (absent 2)
      fresh-IsPaged

-- Table 0 taken for the first 4 MiB, and in it page 5 mapped to the first frame.
abbrev taken : List ℕ
taken = 1 ∷ replicate 31 0

claim_fresh : claim (replicate 32 0) ≡ some (0, taken)
unfolding claim
claim_fresh = refl

abbrev tabled : Machine
tabled = with_table 0x00200000 0 fresh 0 taken

tabled-IsPaged : IsPaged 0x00200000 tabled
tabled-IsPaged = with_table-IsPaged 0x00200000 0 0 fresh taken fresh-IsPaged claim_fresh

tabled-HasTable : HasTable tabled.ram 0x00200000 0
tabled-HasTable =
    let entry = new_entry 0x00200000 0 0 fresh taken fresh-IsPaged claim_fresh in rw entry refl

abbrev paged : Machine
paged =
    written 0x00200000 0 5 0x00900003 tabled tabled-IsPaged (omega arith) (omega arith)
      tabled-HasTable

paged-IsPaged : IsPaged 0x00200000 paged
paged-IsPaged =
    written-IsPaged 0x00200000 0 5 0x00900003 tabled tabled-IsPaged (omega arith) (omega arith)
      tabled-HasTable

unmap_page-Unmapped_example : Unmapped 0x00200000 0x5000 paged (unmap_page 0x00200000 0x5000 paged)
unmap_page-Unmapped_example =
    unmap_page-Unmapped 0x00200000 0x5000 paged paged-IsPaged (omega arith) refl

abbrev pass : Handler Machine
pass context m = ok m

abbrev no_handlers : Handlers Machine
no_handlers i = none

fresh-IsLinked : IsLinked 0x00200000 0x00201000 0x00202000
fresh-IsLinked = record {
  directory_aligned = refl;
  first_aligned = refl;
  second_aligned = refl;
  directory_low = omega arith;
  first_low = omega arith;
  second_low = omega arith;
  first_apart = omega arith;
  second_apart = omega arith;
  tables_apart = omega arith;
}

init_paging-PagingStarted_example :
    PagingStarted 0x00200000 pass
      (linked 0x00200000 0x00201000 0x00202000 fresh-IsLinked fresh
        (length-replicate {A = ℕ} 32 0)
        (replicate-IsWords 32))
      (init_paging forget_heap 0x00200000 0x00201000 0x00202000 pass no_handlers fresh)
init_paging-PagingStarted_example =
    init_paging-PagingStarted forget_heap forget_heap-IsBehind 0x00200000 0x00201000 0x00202000 pass
      no_handlers fresh fresh-IsLinked (length-replicate {A = ℕ} 32 0) (replicate-IsWords 32)
