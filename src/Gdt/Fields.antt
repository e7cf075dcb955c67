-- ===== src/Gdt/Fields.antt =====
-- What the processor reads out of a descriptor.
use torch_os.Base.{
  ℕ, ◌+◌, ◌-◌, ◌*◌, ◌/◌, ◌%◌, ◌^◌, ◌<◌, ◌≡◌, refl, ◌∙◌, arith, bit_and, bit_or, u8, List, [], ◌∷◌,
  length, get_elem?, some,
}
use torch_os.Base.Bits.{bit_and_low, bit_and_shift, bit_or_sum, bit_or_comm}
use torch_os.Gdt.{GdtEntry, gdt_entry, init_gdt}

abbrev pub base_of : GdtEntry → ℕ
base_of e = e.base_low + 2 ^ 16 * e.base_middle + 2 ^ 24 * e.base_high

-- Bits 0 to 3 of `granularity` are the high bits of the limit, and the others are flags.
abbrev pub limit_of : GdtEntry → ℕ
limit_of e = e.limit_low + 2 ^ 16 * (e.granularity % 16)

abbrev pub flags_of : GdtEntry → ℕ
flags_of e = e.granularity / 16

granularity_sum :
    (limit granularity : ℕ)
    → bit_or (u8 (bit_and (limit / 2 ^ 16) 0x0F)) (bit_and granularity 0xF0)
      ≡ limit / 2 ^ 16 % 16 + granularity / 16 % 16 * 16
granularity_sum limit granularity =
    rw
      (
        bit_and_low 4 (limit / 2 ^ 16),
        bit_and_shift 4 granularity 0x0F,
        bit_and_low 4 (granularity / 2 ^ 4),
      )
      (bit_or_comm (limit / 2 ^ 16 % 2 ^ 4 % 2 ^ 8) (granularity / 2 ^ 4 % 2 ^ 4 * 2 ^ 4)
        ∙ bit_or_sum 4 (granularity / 2 ^ 4 % 2 ^ 4) (limit / 2 ^ 16 % 2 ^ 4 % 2 ^ 8) (omega arith)
        ∙ omega arith)

-- For fields of their widths, the processor reads out of a descriptor the base, the low 20 bits of
-- the limit, the access byte and the four flags that were given.
pub gdt_entry-fields :
    (base limit access granularity : ℕ)
    → base < 2 ^ 32
    → access < 2 ^ 8
    → granularity < 2 ^ 8
    → let e = gdt_entry base limit access granularity in
      (base_of e ≡ base)
      × (limit_of e ≡ limit % 2 ^ 20)
      × (e.access ≡ access)
      × (flags_of e ≡ granularity / 16)
unfolding gdt_entry
gdt_entry-fields base limit access granularity hb ha hg = (
  omega (arith, bit_and_low 16 base, bit_and_low 8 (base / 2 ^ 16), bit_and_low 8 (base / 2 ^ 24)),
  omega (arith, bit_and_low 16 limit, granularity_sum limit granularity),
  omega arith,
  omega (arith, granularity_sum limit granularity),
)

-- Entry `i` of the table describes the flat 4 GiB segment with access byte `access`.
abbrev pub IsFlat : List GdtEntry → ℕ → ℕ → Type 0
IsFlat entries i access =
    (e : GdtEntry) × (get_elem? entries i ≡ some e)
    × (base_of e ≡ 0)
    × (limit_of e ≡ 2 ^ 20 - 1)
    × (e.access ≡ access)
    × (flags_of e ≡ 0x0C)

-- Whatever the table held, `init_gdt` leaves the null descriptor and flat 4 GiB segments for code
-- and data of both privilege levels, and a size one less than the table's.
pub init_gdt-IsFlat :
    (address : ℕ) (a b c d e : GdtEntry)
    → let g = init_gdt address (a ∷ b ∷ c ∷ d ∷ e ∷ []) in
      (get_elem? g.entries 0 ≡ some (gdt_entry 0 0 0 0))
      × IsFlat g.entries 1 0x9A
      × IsFlat g.entries 2 0x92
      × IsFlat g.entries 3 0xFA
      × IsFlat g.entries 4 0xF2
      × (g.ptr.size + 1 ≡ 8 * length g.entries)
unfolding init_gdt
init_gdt-IsFlat address a b c d e = (
  refl,
  (_, refl, refl, refl, refl, refl),
  (_, refl, refl, refl, refl, refl),
  (_, refl, refl, refl, refl, refl),
  (_, refl, refl, refl, refl, refl),
  refl,
)
