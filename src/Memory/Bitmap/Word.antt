-- ===== src/Memory/Bitmap/Word.antt =====
-- The bits' loop on one word finds the first clear bit.
use torch_os.Base.{
  ℕ, zero, suc, ◌+◌, ◌^◌, ◌≤◌, ◌<◌, ◌≡◌, ◌≢◌, inl, inr, true, false, none, some, ◌==◌, bit_and,
  arith, Bool-cases, ==_iff,
}
use torch_os.Base.Bits.{bit, bit-le_one, bit_and-two_pow, all_ones}
use torch_os.Memory.Bitmap.{scan_bits}
use native.Mathlib.Nat.{one-le-pow}

-- The test of the source is the bit.
test_clear : (w j : ℕ) → (bit_and w (2 ^ j) == 0) ≡ true → bit w j ≡ 0
test_clear w j h = grind (arith, bit_and-two_pow w j, one-le-pow j 2, bit-le_one w j)

test_set : (w j : ℕ) → (bit_and w (2 ^ j) == 0) ≡ false → bit w j ≡ 1
test_set w j h = grind (arith, bit_and-two_pow w j, one-le-pow j 2, bit-le_one w j)

-- `k` is the first clear bit of `w` from bit `j` on.
pub record IsFirst (w j k : ℕ) : Type 0 where
  pub behind : j ≤ k
  pub clear : bit w k ≡ 0
  pub first : (i : ℕ) → j ≤ i → i < k → bit w i ≡ 1

IsFirst-step : (w j k : ℕ) → bit w j ≡ 1 → IsFirst w (j + 1) k → IsFirst w j k
IsFirst-step w j k set f = record {
  behind = omega arith;
  clear = f.clear;
  first = λ i p q. elim (Bool-cases (i == j)) [
    | inl e ↦ rw ((==_iff i j).0 e) set
    | inr ne ↦ f.first i (ground arith) q
  ];
}

-- The bits' loop returns the first clear bit, within its rounds.
pub scan_bits-some : (left j w k : ℕ) → scan_bits left j w ≡ some k → IsFirst w j k × (k < j + left)
unfolding scan_bits
scan_bits-some zero j w k e = cc
scan_bits-some (suc left) j w k e = elim (Bool-cases (bit_and w (2 ^ j) == 0)) [
  | inl clear ↦
      let at_j : j ≡ k = ground arith in
      (
        record {
          behind = omega arith;
          clear = rw (← at_j) (test_clear w j clear);
          first = λ i p q. absurd (omega arith);
        },
        omega arith,
      )
  | inr set ↦
      let (f, within) = scan_bits-some left (j + 1) w k (ground arith) in
      (IsFirst-step w j k (test_set w j set) f, omega arith)
]

-- It fails only if all bits that it looks at are set.
scan_bits-none :
    (left j w : ℕ) → scan_bits left j w ≡ none → (i : ℕ) → j ≤ i → i < j + left → bit w i ≡ 1
unfolding scan_bits
scan_bits-none zero j w e i p q = absurd (omega arith)
scan_bits-none (suc left) j w e i p q = elim (Bool-cases (bit_and w (2 ^ j) == 0)) [
  | inl clear ↦ ground arith
  | inr set ↦ elim (Bool-cases (i == j)) [
    | inl here ↦ rw ((==_iff i j).0 here) (test_set w j set)
    | inr ne ↦ scan_bits-none left (j + 1) w (ground arith) i (ground arith) (omega arith)
  ]
]

-- A word that is not full has a clear bit.
pub scan_word-ne-none : (w : ℕ) → w < 2 ^ 32 → (w == 0xFFFFFFFF) ≡ false → scan_bits 32 0 w ≢ none
scan_word-ne-none w fits h e = absurd (
    ground
      (arith, all_ones 32 w fits (λ j q. scan_bits-none 32 0 w e j (omega arith) (omega arith))))
