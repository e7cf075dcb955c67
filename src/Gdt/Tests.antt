-- ===== src/Gdt/Tests.antt =====
-- The descriptors' theorems at work.
use torch_os.Base.{◌+◌, ◌*◌, ◌≡◌, List, [], ◌∷◌, some, length, get_elem?}
use torch_os.Gdt.{GdtEntry, gdt_entry, init_gdt}
use torch_os.Gdt.Fields.{IsFlat, init_gdt-IsFlat}

abbrev old : GdtEntry
old = gdt_entry 0x12345678 0xABCDE 0x9A 0x40

abbrev entries : List GdtEntry
entries = (init_gdt 0x00200000 (old ∷ old ∷ old ∷ old ∷ old ∷ [])).entries

init_gdt-IsFlat_example :
    (get_elem? entries 0 ≡ some (gdt_entry 0 0 0 0))
    × IsFlat entries 1 0x9A
    × IsFlat entries 2 0x92
    × IsFlat entries 3 0xFA
    × IsFlat entries 4 0xF2
    × ((init_gdt 0x00200000 (old ∷ old ∷ old ∷ old ∷ old ∷ [])).ptr.size + 1 ≡ 8 * length entries)
init_gdt-IsFlat_example = init_gdt-IsFlat 0x00200000 old old old old old
