-- ===== src/Logger/Numeral.antt =====
-- Numbers as digits, and digits as numbers: what the logger's numbers mean.
use torch_os.Base.{
  ℕ, zero, suc, ◌+◌, ◌-◌, ◌*◌, ◌/◌, ◌%◌, ◌^◌, ◌≤◌, ◌<◌, ◌≡◌, ◌≢◌, refl, sym, ap, ap₂, ◌∙◌, arith,
  ltb, ◌==◌, List, [], ◌∷◌, ◌++◌, if◌then◌else◌, length, length-append, get_or, Bool-cases, inl,
  inr, ◌⊎◌, false, subst,
}
use native.Mathlib.Nat.{div-add-mod', mod-lt}

-- The digit of a value below 16: `0` to `9` and `A` to `F`.
abbrev pub digit_char : ℕ → ℕ
digit_char d = if ltb d 10 then b'0' + d else b'A' + (d - 10)

abbrev pub char_digit : ℕ → ℕ
char_digit c = if ltb c b'A' then c - b'0' else c - b'A' + 10

-- The last `k` digits of `n`.
abbrev pub numeral : (base k n : ℕ) → List ℕ
numeral base zero n = []
numeral base (suc k) n = numeral base k (n / base) ++ digit_char (n % base) ∷ []

-- The number that digits spell behind those of `acc`.
abbrev pub number_from : (base acc : ℕ) → List ℕ → ℕ
number_from base acc [] = acc
number_from base acc (c ∷ cs) = number_from base (acc * base + char_digit c) cs

-- `n` has at most `k` digits.
abbrev pub Fits : (base k n : ℕ) → Type 0
Fits base zero n = n ≡ 0
Fits base (suc k) n = Fits base k (n / base)

number_from-snoc :
    (base acc c : ℕ) (cs : List ℕ)
    → number_from base acc (cs ++ c ∷ []) ≡ number_from base acc cs * base + char_digit c
number_from-snoc base acc c [] = refl
number_from-snoc base acc c (d ∷ ds) = number_from-snoc base (acc * base + char_digit d) c ds

-- The text has proper digits only, `0` to `9` and `A` to `F`.
abbrev pub IsDigit : ℕ → Type 0
IsDigit c = (b'0' ≤ c) × (c ≤ b'9') ⊎ (b'A' ≤ c) × (c ≤ b'F')

abbrev pub AllDigits : List ℕ → Type 0
AllDigits [] = Unit {0}
AllDigits (c ∷ cs) = IsDigit c × AllDigits cs

digit_char-IsDigit : (d : ℕ) → d < 16 → IsDigit (digit_char d)
digit_char-IsDigit d small = elim (Bool-cases (ltb d 10)) [
  | inl low ↦ rw low (inl (omega arith, ground arith))
  | inr high ↦ rw high (inr (omega arith, omega arith))
]

snoc-AllDigits : (cs : List ℕ) (c : ℕ) → AllDigits cs → IsDigit c → AllDigits (cs ++ c ∷ [])
snoc-AllDigits [] c all is = (is, tt)
snoc-AllDigits (d ∷ cs) c all is = (all.0, snoc-AllDigits cs c all.1 is)

pub numeral-AllDigits : (k n : ℕ) → AllDigits (numeral 16 k n)
numeral-AllDigits zero n = tt
numeral-AllDigits (suc k) n =
    snoc-AllDigits (numeral 16 k (n / 16)) (digit_char (n % 16)) (numeral-AllDigits k (n / 16))
      (digit_char-IsDigit (n % 16) (omega arith))

char_digit-digit_char : (d : ℕ) → d < 16 → char_digit (digit_char d) ≡ d
char_digit-digit_char d small = ground arith

-- In a base of at most 16, the digits of a number that has no more spell it.
pub number_from-numeral :
    (base k n : ℕ)
    → 0 < base
    → base ≤ 16
    → Fits base k n
    → number_from base 0 (numeral base k n) ≡ n
number_from-numeral base zero n pos small fits = sym fits
number_from-numeral base (suc k) n pos small fits =
    let rest = number_from-numeral base k (n / base) pos small fits in
    let digit = char_digit-digit_char (n % base) (omega (arith, mod-lt n pos)) in
    number_from-snoc base 0 (digit_char (n % base)) (numeral base k (n / base))
    ∙ ap₂ (λ a d. a * base + d) rest digit
    ∙ div-add-mod' n base

pub length-numeral : (base k n : ℕ) → length (numeral base k n) ≡ k
length-numeral base zero n = refl
length-numeral base (suc k) n = omega (
  arith,
  length-append (numeral base k (n / base)) (digit_char (n % base) ∷ []),
  length-numeral base k (n / base),
)

-- The digits that `n` takes, at most `rounds`.
abbrev pub width : (rounds n : ℕ) → ℕ
width zero n = 0
width (suc rounds) n = let rest = width rounds (n / 10) in if n == 0 then 0 else suc rest

-- A 32-bit number to base 10, without leading zeros.
abbrev pub decimal : ℕ → List ℕ
decimal n = if n == 0 then b'0' ∷ [] else numeral 10 (width 10 n) n

pub width-Fits : (rounds n : ℕ) → Fits 10 rounds n → Fits 10 (width rounds n) n
width-Fits zero n fits = fits
width-Fits (suc rounds) n fits = elim (Bool-cases (n == 0)) [
  | inl none ↦ rw none (ground arith)
  | inr more ↦ rw more (width-Fits rounds (n / 10) fits)
]

pub width-le : (rounds n : ℕ) → width rounds n ≤ rounds
width-le zero n = omega arith
width-le (suc rounds) n = ground (arith, width-le rounds (n / 10))

width-zero : (rounds : ℕ) → width rounds 0 ≡ 0
width-zero zero = refl
width-zero (suc rounds) = refl

width-pos : (rounds n : ℕ) → n ≢ 0 → Fits 10 rounds n → 0 < width rounds n
width-pos zero n ne fits = absurd (ne fits)
width-pos (suc rounds) n ne fits = ground arith

head-append : (xs : List ℕ) (c : ℕ) → 0 < length xs → get_or (xs ++ c ∷ []) 0 0 ≡ get_or xs 0 0
head-append [] c some_there = absurd (omega arith)
head-append (x ∷ xs) c some_there = refl

-- A number that is not 0 does not start with the digit `0`.
pub head-numeral :
    (rounds n : ℕ) → Fits 10 rounds n → n ≢ 0 → get_or (numeral 10 (width rounds n) n) 0 0 ≢ b'0'
head-numeral zero n fits ne = absurd (ne fits)
head-numeral (suc rounds) n fits ne =
    let test : (n == 0) ≡ false = ground arith in
    elim (Bool-cases (n / 10 == 0)) [
      | inl last ↦
          let none : n / 10 ≡ 0 = ground arith in
          let digit : n % 10 ≢ 0 = omega arith in rw (test, none, width-zero rounds) (ground arith)
      | inr more ↦
          let ne' : n / 10 ≢ 0 = ground arith in
          let digits = numeral 10 (width rounds (n / 10)) (n / 10) in
          let here : 0 < length digits = omega (
            arith,
            length-numeral 10 (width rounds (n / 10)) (n / 10),
            width-pos rounds (n / 10) ne' fits,
          ) in
          rw (test, head-append digits (digit_char (n % 10)) here)
            (head-numeral rounds (n / 10) fits ne')
    ]

pub decimal-numeral : (n : ℕ) → n ≢ 0 → decimal n ≡ numeral 10 (width 10 n) n
decimal-numeral n ne =
    let test : (n == 0) ≡ false = ground arith in
    ap (λ b. if b then b'0' ∷ [] else numeral 10 (width 10 n) n) test

ten_digits : (n : ℕ) → n < 2 ^ 32 → Fits 10 10 n
ten_digits n small = omega arith

pub number_from-decimal : (n : ℕ) → n < 2 ^ 32 → number_from 10 0 (decimal n) ≡ n
number_from-decimal n small = elim (Bool-cases (n == 0)) [
  | inl none ↦ let zero_it : n ≡ 0 = ground arith in rw zero_it refl
  | inr more ↦
      ap (number_from 10 0) (decimal-numeral n (ground arith))
      ∙ number_from-numeral 10 (width 10 n) n (omega arith) (omega arith)
          (width-Fits 10 n (ten_digits n small))
]

pub head-decimal : (n : ℕ) → n < 2 ^ 32 → n ≢ 0 → get_or (decimal n) 0 0 ≢ b'0'
head-decimal n small ne =
    subst (λ (t : List ℕ). get_or t 0 0 ≢ b'0') (sym (decimal-numeral n ne))
      (head-numeral 10 n (ten_digits n small) ne)
