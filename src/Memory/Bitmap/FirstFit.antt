-- ===== src/Memory/Bitmap/FirstFit.antt =====
-- The search finds the first clear bit, sets it, and changes nothing else; it fails exactly when
-- every bit is set.
use torch_os.Base.{
  ℕ, suc, ◌+◌, ◌-◌, ◌*◌, ◌^◌, ◌<◌, ◌≡◌, ◌≢◌, ◌⊎◌, inl, inr, refl, sym, ap, ◌∙◌, true, false, List,
  [], ◌∷◌, Option, none, some, ◌==◌, ltb, bit_or, arith, length, Bool-cases, Option-cases, ==_iff,
}
use torch_os.Base.Bits.{bit_or-lt, bit, bit-bit_or_self, bit-bit_or_ne, bit-max}
use torch_os.Memory.Bitmap.{scan_bits, claim_in, claim_behind, claim_from, claim, bit_of}
use torch_os.Memory.Bitmap.Word.{IsFirst, scan_bits-some, scan_word-ne-none}

abbrev pub IsWords : List ℕ → Type 0
IsWords [] = Unit {0}
IsWords (w ∷ ws) = (w < 2 ^ 32) × IsWords ws

-- The search's promise: index `n` was the first clear bit, and is the one that changes.
pub record Claimed (before : List ℕ) (n : ℕ) (after : List ℕ) : Type 0 where
  pub in_range : n < 32 * length before
  pub was_clear : bit_of before n ≡ 0
  pub first : (m : ℕ) → m < n → bit_of before m ≡ 1
  pub is_set : bit_of after n ≡ 1
  pub others : (m : ℕ) → m ≢ n → bit_of after m ≡ bit_of before m
  pub same_length : length after ≡ length before

Claimed-here :
    (w : ℕ) (ws : List ℕ) (k : ℕ)
    → IsFirst w 0 k
    → k < 32
    → Claimed (w ∷ ws) k (bit_or w (2 ^ k) ∷ ws)
Claimed-here w ws k f h = record {
  in_range = omega arith;
  was_clear = ground (arith, f.clear);
  first = λ m q. ground (arith, f.first m);
  is_set = ground (arith, bit-bit_or_self w k);
  others = λ m ne. ground (arith, bit-bit_or_ne w k m (λ e. ne (sym e)));
  same_length = refl;
}

bit_of-cons : (w : ℕ) (ws : List ℕ) (n : ℕ) → bit_of (w ∷ ws) (n + 32) ≡ bit_of ws n
bit_of-cons w ws n =
    let test : ltb (n + 32) 32 ≡ false = ground arith in
    let back : n + 32 - 32 ≡ n = omega arith in rw (test, back)

bit_of-low : (w : ℕ) (ws : List ℕ) (n : ℕ) → n < 32 → bit_of (w ∷ ws) n ≡ bit w n
bit_of-low w ws n h = let test : ltb n 32 ≡ true = ground arith in rw test

full_bit : (w : ℕ) → (w == 0xFFFFFFFF) ≡ true → (j : ℕ) → j < 32 → bit w j ≡ 1
full_bit w full j h = rw ((==_iff w 0xFFFFFFFF).0 full) (bit-max 32 j h)

-- A bit of the array is in the first word, or behind it.
abbrev Place : ℕ → Type 0
Place m = (m < 32) ⊎ ((k : ℕ) × (m ≡ k + 32))

place : (m : ℕ) → Place m
place m = elim (Bool-cases (ltb m 32)) [
  | inl low ↦ inl (ground arith)
  | inr high ↦ inr (m - 32, ground arith)
]

Claimed-behind :
    (w : ℕ) (ws ws' : List ℕ) (n : ℕ)
    → (w == 0xFFFFFFFF) ≡ true
    → Claimed ws n ws'
    → Claimed (w ∷ ws) (n + 32) (w ∷ ws')
Claimed-behind w ws ws' n full c = record {
  in_range = omega (arith, c.in_range);
  was_clear = bit_of-cons w ws n ∙ c.was_clear;
  first = λ m q. elim (place m) [
    | inl low ↦ bit_of-low w ws m low ∙ full_bit w full m low
    | inr (k, e) ↦ rw e (bit_of-cons w ws k ∙ c.first k (omega arith))
  ];
  is_set = bit_of-cons w ws' n ∙ c.is_set;
  others = λ m ne. elim (place m) [
    | inl low ↦ bit_of-low w ws' m low ∙ sym (bit_of-low w ws m low)
    | inr (k, e) ↦
        rw e
          (bit_of-cons w ws' k ∙ c.others k (λ same. ne (omega arith)) ∙ sym (bit_of-cons w ws k))
  ];
  same_length = ap suc c.same_length;
}

claim_behind-some :
    (w : ℕ) (r : Option (ℕ × List ℕ)) (n : ℕ) (after : List ℕ)
    → claim_behind w r ≡ some (n, after)
    → (ws : List ℕ) × (r ≡ some (n, ws)) × (after ≡ w ∷ ws)
unfolding claim_behind
claim_behind-some w none n after e = cc
claim_behind-some w (some (k, ws)) n after e = (ws, ground arith, ground arith)

claim_behind-none : (w : ℕ) (r : Option (ℕ × List ℕ)) → claim_behind w r ≡ none → r ≡ none
unfolding claim_behind
claim_behind-none w none e = refl
claim_behind-none w (some (n, ws)) e = cc

claim_in-none : (r : Option ℕ) (i w : ℕ) (ws : List ℕ) → claim_in r i w ws ≡ none → r ≡ none
unfolding claim_in
claim_in-none none i w ws e = refl
claim_in-none (some j) i w ws e = cc

claim_in-some :
    (r : Option ℕ) (i w : ℕ) (ws : List ℕ) (n : ℕ) (after : List ℕ)
    → claim_in r i w ws ≡ some (n, after)
    → (j : ℕ) × (r ≡ some j) × (n ≡ i * 32 + j) × (after ≡ bit_or w (2 ^ j) ∷ ws)
unfolding claim_in
claim_in-some none i w ws n after e = cc
claim_in-some (some j) i w ws n after e = (j, refl, ground arith, ground arith)

claim_from-some :
    (ws : List ℕ) (i n : ℕ) (after : List ℕ)
    → claim_from ws i ≡ some (n, after)
    → (k : ℕ) × (n ≡ i * 32 + k) × Claimed ws k after
unfolding claim_from
claim_from-some [] i n after e = cc
claim_from-some (w ∷ ws) i n after e = elim (Bool-cases (w == 0xFFFFFFFF)) [
  | inl full ↦
      let (ws', found, same) = claim_behind-some w (claim_from ws (i + 1)) n after (ground arith) in
      let (k, place, c) = claim_from-some ws (i + 1) n ws' found in
      (k + 32, omega arith, rw same (Claimed-behind w ws ws' k full c))
  | inr free ↦
      let (j, found, at, same) = claim_in-some (scan_bits 32 0 w) i w ws n after (ground arith) in
      let (f, within) = scan_bits-some 32 0 w j found in
      (j, at, rw same (Claimed-here w ws j f (omega arith)))
]

-- An index that the search returns lies in the array and is that of its first clear bit; the
-- search sets this bit and changes no other.
pub claim-Claimed :
    (ws : List ℕ) (n : ℕ) (after : List ℕ) → claim ws ≡ some (n, after) → Claimed ws n after
unfolding claim
claim-Claimed ws n after e =
    let (k, at, c) = claim_from-some ws 0 n after e in let same : n ≡ k = omega arith in rw same c

claim_from-none :
    (ws : List ℕ) (i : ℕ) → IsWords ws → claim_from ws i ≡ none → (n : ℕ) → bit_of ws n ≡ 1
unfolding claim_from
claim_from-none [] i fits e n = refl
claim_from-none (w ∷ ws) i fits e n = elim (Bool-cases (w == 0xFFFFFFFF)) [
  | inl full ↦
      let rest : claim_from ws (i + 1) ≡ none = claim_behind-none w _ (ground arith) in
      elim (place n) [
        | inl low ↦ bit_of-low w ws n low ∙ full_bit w full n low
        | inr (k, at) ↦ rw at (bit_of-cons w ws k ∙ claim_from-none ws (i + 1) fits.1 rest k)
      ]
  | inr free ↦
      absurd
        (scan_word-ne-none w fits.0 free (claim_in-none (scan_bits 32 0 w) i w ws (ground arith)))
]

-- Every bit is set.
abbrev pub AllTaken : List ℕ → Type 0
AllTaken ws = (n : ℕ) → bit_of ws n ≡ 1

-- If the array holds 32-bit words, the search fails only when every bit of them is set.
pub claim-none : (ws : List ℕ) → IsWords ws → claim ws ≡ none → AllTaken ws
unfolding claim
claim-none ws fits e n = claim_from-none ws 0 fits e n

claim_from-IsWords :
    (ws : List ℕ) (i n : ℕ) (after : List ℕ)
    → IsWords ws
    → claim_from ws i ≡ some (n, after)
    → IsWords after
unfolding claim_from
claim_from-IsWords [] i n after fits e = cc
claim_from-IsWords (w ∷ ws) i n after fits e = elim (Bool-cases (w == 0xFFFFFFFF)) [
  | inl full ↦
      let (ws', found, same) = claim_behind-some w (claim_from ws (i + 1)) n after (ground arith) in
      rw same (fits.0, claim_from-IsWords ws (i + 1) n ws' fits.1 found)
  | inr free ↦
      let (j, found, at, same) = claim_in-some (scan_bits 32 0 w) i w ws n after (ground arith) in
      let (f, within) = scan_bits-some 32 0 w j found in
      rw same (bit_or-lt w j 32 fits.0 (omega arith), fits.1)
]

-- The words stay 32-bit words.
pub claim-IsWords :
    (ws : List ℕ) (n : ℕ) (after : List ℕ) → IsWords ws → claim ws ≡ some (n, after) → IsWords after
unfolding claim
claim-IsWords ws n after fits e = claim_from-IsWords ws 0 n after fits e

-- In an array of 32-bit words the search for a free frame or table finds the index of the first
-- clear bit, inside the array, sets that bit and changes no other; or it finds none, and then
-- every bit is set.
pub claim-cases :
    (ws : List ℕ)
    → IsWords ws
    → ((n : ℕ) × (after : List ℕ) × (claim ws ≡ some (n, after)) × Claimed ws n after)
      ⊎ ((claim ws ≡ none) × AllTaken ws)
claim-cases ws fits = elim (Option-cases (claim ws)) [
  | inl full ↦ inr (full, claim-none ws fits full)
  | inr ((n, after), found) ↦ inl (n, after, found, claim-Claimed ws n after found)
]
