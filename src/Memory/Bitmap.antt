-- ===== src/Memory/Bitmap.antt =====
-- The search that `page_frame_allocate` and `page_table_allocate` of kernel/memory.c share:
-- the first clear bit of an array of 32-bit words is found and set.
pub mod FirstFit
mod Word
use torch_os.Base.{
  ℕ, zero, suc, ◌+◌, ◌*◌, ◌^◌, ◌-◌, true, false, ltb, if◌then◌else◌, List, [], ◌∷◌, Option, none,
  some, ◌==◌, bit_and, bit_or,
}
use torch_os.Base.Bits.{bit}

-- `for (int j = 0; j < 32; j++) if (!(w & (1 << j))) …; break;` at `j`, with `left` rounds left
pub scan_bits : (left j w : ℕ) → Option ℕ
scan_bits zero j w = none
scan_bits (suc left) j w =
    let rest = scan_bits left (j + 1) w in
    elim (bit_and w (2 ^ j) == 0) [ true ↦ some j | false ↦ rest ]

-- What the bits' loop found in word `i`: the index, and the array with the bit set.
claim_in : Option ℕ → (i w : ℕ) → List ℕ → Option (ℕ × List ℕ)
claim_in none i w ws = none
claim_in (some j) i w ws = some (i * 32 + j, bit_or w (2 ^ j) ∷ ws)

-- A full word is kept, and the loop goes on behind it.
claim_behind : ℕ → Option (ℕ × List ℕ) → Option (ℕ × List ℕ)
claim_behind w none = none
claim_behind w (some (n, ws)) = some (n, w ∷ ws)

-- The words' loop at word `i`. It ends at the first word that is not full.
pub claim_from : List ℕ → ℕ → Option (ℕ × List ℕ)
unfolding scan_bits claim_in claim_behind
claim_from [] i = none
claim_from (w ∷ ws) i =
    let rest = claim_behind w (claim_from ws (i + 1)) in
    elim (w == 0xFFFFFFFF) [ true ↦ rest | false ↦ claim_in (scan_bits 32 0 w) i w ws ]

-- The whole search: `none` is the index -1 of the source.
unfoldable pub claim : List ℕ → Option (ℕ × List ℕ)
unfolding claim_from
claim ws = claim_from ws 0

-- Bit `n` of the array, 1 behind its end.
abbrev pub bit_of : List ℕ → ℕ → ℕ
bit_of [] n = 1
bit_of (w ∷ ws) n = if ltb n 32 then bit w n else bit_of ws (n - 32)
