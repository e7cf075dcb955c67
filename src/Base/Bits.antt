-- ===== src/Base/Bits.antt =====
-- The bitwise operations of C on words, as arithmetic.
mod Digit
use Digit.{bit_and_halves, bit_or_halves}
use Prim.Native.Nat.{
  ℕ, zero, suc, ◌+◌, ◌-◌, ◌*◌, ◌/◌, ◌%◌, ◌^◌, ◌≤◌, ◌<◌, bit_and, bit_or, bit_or-bitwise,
}
use mathlib.Core.Path.{◌≡◌, refl, sym, ap, ap₂, ◌∙◌}
use mathlib.Core.Logic.{◌≢◌}
use native.Mathlib.Omega.{arith}
use native.Mathlib.Nat.{pow-suc, one-le-pow, div-add-mod, div-div-eq-div-mul}

-- Bit `j` of `w`, 0 or 1.
abbrev pub bit : ℕ → ℕ → ℕ
bit w zero = w % 2
bit w (suc j) = bit (w / 2) j

pub bit-le_one : (w j : ℕ) → bit w j ≤ 1
bit-le_one w zero = omega arith
bit-le_one w (suc j) = bit-le_one (w / 2) j

two_pow : (j : ℕ) → 2 ^ suc j ≡ 2 * 2 ^ j
two_pow j = omega (arith, pow-suc 2 j)

zero_and : (n w : ℕ) → w ≤ n → bit_and w 0 ≡ 0
zero_and n zero h = refl
zero_and zero (suc w) h = absurd (omega arith)
zero_and (suc n) (suc w) h =
    omega (arith, bit_and_halves (suc w) 0, zero_and n (suc w / 2) (omega arith))

pub bit_and-zero : (w : ℕ) → bit_and w 0 ≡ 0
bit_and-zero w = zero_and w w (omega arith)

zero_or : (n w : ℕ) → w ≤ n → bit_or w 0 ≡ w
zero_or n zero h = refl
zero_or zero (suc w) h = absurd (omega arith)
zero_or (suc n) (suc w) h =
    omega (arith, bit_or_halves (suc w) 0, zero_or n (suc w / 2) (omega arith))

pub bit_or-zero : (w : ℕ) → bit_or w 0 ≡ w
bit_or-zero w = zero_or w w (omega arith)

two_pow_half : (j : ℕ) → 2 ^ suc j / 2 ≡ 2 ^ j
two_pow_half j = omega (arith, two_pow j)

two_pow_even : (j : ℕ) → 2 ^ suc j % 2 ≡ 0
two_pow_even j = omega (arith, two_pow j)

double : (b j : ℕ) → b * 2 ^ suc j ≡ b * 2 ^ j * 2
double b j = omega (arith, ap (λ (t : ℕ). b * t) (two_pow j))

-- `w & (1 << j)` tests bit `j`.
pub bit_and-two_pow : (w j : ℕ) → bit_and w (2 ^ j) ≡ bit w j * 2 ^ j
bit_and-two_pow w zero = omega (arith, bit_and_halves w 1, bit_and-zero (w / 2))
bit_and-two_pow w (suc j) =
    rw (bit_and_halves w (2 ^ suc j), two_pow_half j, two_pow_even j, bit_and-two_pow (w / 2) j)
      (omega (arith, double (bit (w / 2) j) j))

-- `w | (1 << j)` adds the bit, if it is clear.
pub bit_or-two_pow : (w j : ℕ) → bit w j ≡ 0 → bit_or w (2 ^ j) ≡ w + 2 ^ j
bit_or-two_pow w zero h = omega (arith, bit_or_halves w 1, bit_or-zero (w / 2))
bit_or-two_pow w (suc j) h =
    rw (bit_or_halves w (2 ^ suc j), two_pow_half j, two_pow_even j, bit_or-two_pow (w / 2) j h)
      (omega (arith, two_pow j))

-- After `w |= 1 << j` bit `j` is set and no other bit has changed.
pub bit-bit_or_self : (w j : ℕ) → bit (bit_or w (2 ^ j)) j ≡ 1
bit-bit_or_self w zero = omega (arith, bit_or_halves w 1)
bit-bit_or_self w (suc j) =
    rw (bit_or_halves w (2 ^ suc j), two_pow_half j, two_pow_even j)
      (ap (λ (t : ℕ). bit t j) (omega arith) ∙ bit-bit_or_self (w / 2) j)

pub bit-bit_or_ne : (w i j : ℕ) → i ≢ j → bit (bit_or w (2 ^ i)) j ≡ bit w j
bit-bit_or_ne w zero zero ne = absurd (ne refl)
bit-bit_or_ne w zero (suc j) ne =
    ap (λ (t : ℕ). bit t j) (omega (arith, bit_or_halves w 1, bit_or-zero (w / 2)))
bit-bit_or_ne w (suc i) zero ne = omega (arith, bit_or_halves w (2 ^ suc i), two_pow_even i)
bit-bit_or_ne w (suc i) (suc j) ne =
    rw (bit_or_halves w (2 ^ suc i), two_pow_half i, two_pow_even i)
      (ap (λ (t : ℕ). bit t j) (omega arith) ∙ bit-bit_or_ne (w / 2) i j (λ e. ne (ap suc e)))

pub bit_or-lt : (w j : ℕ) → (k : ℕ) → w < 2 ^ k → j < k → bit_or w (2 ^ j) < 2 ^ k
bit_or-lt w j zero h g = absurd (omega arith)
bit_or-lt w zero (suc k) h g = omega (arith, two_pow k, bit_or_halves w 1, bit_or-zero (w / 2))
bit_or-lt w (suc j) (suc k) h g =
    rw (bit_or_halves w (2 ^ suc j), two_pow_half j, two_pow_even j)
      (omega (arith, two_pow k, bit_or-lt (w / 2) j k (omega (arith, two_pow k)) (omega arith)))

-- A word of `k` bits that are all set is the greatest one.
pub all_ones : (k w : ℕ) → w < 2 ^ k → ((j : ℕ) → j < k → bit w j ≡ 1) → suc w ≡ 2 ^ k
all_ones zero w h ones = omega arith
all_ones (suc k) w h ones = omega (
  arith,
  two_pow k,
  ones 0 (omega arith),
  all_ones k (w / 2) (omega (arith, two_pow k)) (λ j g. ones (suc j) (omega arith)),
)

-- and all bits of the greatest word are set.
pub bit-max : (k j : ℕ) → j < k → bit (2 ^ k - 1) j ≡ 1
bit-max zero j h = absurd (omega arith)
bit-max (suc k) zero h = omega (arith, two_pow k, one-le-pow k 2)
bit-max (suc k) (suc j) h =
    ap (λ (t : ℕ). bit t j) (omega (arith, two_pow k, one-le-pow k 2)) ∙ bit-max k j (omega arith)

mod_halves : (w k : ℕ) → w / 2 % 2 ^ k * 2 + w % 2 ≡ w % 2 ^ suc k
mod_halves w k =
    let quotient : w / 2 / 2 ^ k ≡ w / 2 ^ suc k =
      div-div-eq-div-mul w 2 (2 ^ k) ∙ ap (λ (t : ℕ). w / t) (sym (two_pow k)) in
    omega (
      arith,
      div-add-mod (w / 2) (2 ^ k),
      div-add-mod w (2 ^ suc k),
      ap (λ (t : ℕ). 2 ^ k * t) quotient,
      ap (λ (t : ℕ). t * (w / 2 ^ suc k)) (two_pow k),
    )

-- `w & (2 ^ k - 1)` keeps the low bits.
pub bit_and_low : (k w : ℕ) → bit_and w (2 ^ k - 1) ≡ w % 2 ^ k
bit_and_low zero w = omega (arith, bit_and-zero w)
bit_and_low (suc k) w =
    let half : (2 ^ suc k - 1) / 2 ≡ 2 ^ k - 1 = omega (arith, two_pow k, one-le-pow k 2) in
    let odd : (2 ^ suc k - 1) % 2 ≡ 1 = omega (arith, two_pow k, one-le-pow k 2) in
    rw (bit_and_halves w (2 ^ suc k - 1), half, odd, bit_and_low k (w / 2))
      (omega (arith, mod_halves w k))

-- A mask without its `k` low bits drops those of the word.
pub bit_and_shift : (k w m : ℕ) → bit_and w (m * 2 ^ k) ≡ bit_and (w / 2 ^ k) m * 2 ^ k
bit_and_shift zero w m =
    let whole : w / 2 ^ 0 ≡ w = omega arith in
    let once : m * 2 ^ 0 ≡ m = omega arith in rw (whole, once) (omega arith)
bit_and_shift (suc k) w m =
    let quotient : w / 2 / 2 ^ k ≡ w / 2 ^ suc k =
      div-div-eq-div-mul w 2 (2 ^ k) ∙ ap (λ (t : ℕ). w / t) (sym (two_pow k)) in
    let half : m * 2 ^ suc k / 2 ≡ m * 2 ^ k = omega (arith, double m k) in
    let even : m * 2 ^ suc k % 2 ≡ 0 = omega (arith, double m k) in
    rw (bit_and_halves w (m * 2 ^ suc k), half, even, bit_and_shift k (w / 2) m, quotient)
      (omega (arith, double (bit_and (w / 2 ^ suc k) m) k))

-- `|` of fields that do not overlap is a sum.
pub bit_or_sum : (k q r : ℕ) → r < 2 ^ k → bit_or (q * 2 ^ k) r ≡ q * 2 ^ k + r
bit_or_sum zero q r h = ap₂ bit_or (omega arith) (omega arith) ∙ bit_or-zero q ∙ omega arith
bit_or_sum (suc k) q r h =
    let half : q * 2 ^ suc k / 2 ≡ q * 2 ^ k = omega (arith, double q k) in
    let even : q * 2 ^ suc k % 2 ≡ 0 = omega (arith, double q k) in
    rw
      (
        bit_or_halves (q * 2 ^ suc k) r,
        half,
        even,
        bit_or_sum k q (r / 2) (omega (arith, two_pow k)),
      )
      (omega (arith, double q k))

pub bit_zero : (j : ℕ) → bit 0 j ≡ 0
bit_zero zero = refl
bit_zero (suc j) = bit_zero j

or_comm : (n a b : ℕ) → a ≤ n → bit_or a b ≡ bit_or b a
or_comm n zero b h = bit_or-bitwise 0 b ∙ sym (bit_or-zero b)
or_comm zero (suc a) b h = absurd (omega arith)
or_comm (suc n) (suc a) b h = omega (
  arith,
  bit_or_halves (suc a) b,
  bit_or_halves b (suc a),
  or_comm n (suc a / 2) (b / 2) (omega arith),
)

pub bit_or_comm : (a b : ℕ) → bit_or a b ≡ bit_or b a
bit_or_comm a b = or_comm a a b (omega arith)
