-- ===== src/Logger/Digits.antt =====
-- The loop of `print_serial_unsigned_decimal` writes a number's digits from the last on.
use torch_os.Base.{
  ℕ, zero, suc, ◌+◌, ◌-◌, ◌/◌, ◌%◌, ◌≤◌, ◌<◌, ◌≡◌, ◌⊎◌, inl, inr, refl, ap, ap₂, ◌∙◌, arith, ltb,
  ◌==◌, [], ◌∷◌, ◌++◌, Bool-cases, true, false, ok,
}
use torch_os.Hardware.Ram.{Ram, load8, store8, load8-store8, load8-same}
use torch_os.Logger.{digits_from}
use torch_os.Logger.Board.{Board, board}
use torch_os.Strings.Text.{text_of}
use torch_os.Logger.Numeral.{numeral, width, Fits}

-- The `i`th digit from the right.
abbrev pub digit_at : (n i : ℕ) → ℕ
digit_at n zero = n % 10
digit_at n (suc i) = digit_at (n / 10) i

pub digit_at-lt : (n i : ℕ) → digit_at n i < 10
digit_at-lt n zero = omega arith
digit_at-lt n (suc i) = digit_at-lt (n / 10) i

-- Memory after the loop: the digits of `n` from `p` on, the last one first.
pub record Digits (m : Ram) (p n k : ℕ) (m' : Ram) : Type 0 where
  pub digit : (i : ℕ) → i < k → load8 m' (p + i) ≡ b'0' + digit_at n i
  pub others : (a : ℕ) → (a < p) ⊎ (p + k ≤ a) → m' a ≡ m a

nothing : (b : Board) (p n : ℕ) → Digits b.ram p n 0 b.ram
nothing b p n = record { digit = λ i h. absurd (omega arith); others = λ a o. refl }

-- The first round's digit, and the rest.
module _ (buffer pos n k : ℕ) (m m' : Ram)
    (rest : Digits
      (store8 m (buffer + pos) (n % 10 + b'0'))
      (buffer + (pos + 1))
      (n / 10)
      k
      m') where
  first_digit : load8 m' (buffer + pos) ≡ b'0' + n % 10
  first_digit =
      load8-same (store8 m (buffer + pos) (n % 10 + b'0')) m' (buffer + pos)
        (rest.others (buffer + pos) (inl (omega arith)))
      ∙ load8-store8 m (buffer + pos) (buffer + pos) (n % 10 + b'0')
      ∙ ground arith

  digits : (i : ℕ) → i < suc k → load8 m' (buffer + pos + i) ≡ b'0' + digit_at n i
  digits zero h = let at : buffer + pos + 0 ≡ buffer + pos = omega arith in rw at first_digit
  digits (suc i) h =
      let at : buffer + (pos + 1) + i ≡ buffer + pos + suc i = omega arith in
      rw (← at) (rest.digit i (omega arith))

  Digits-suc : Digits m (buffer + pos) n (suc k) m'
  unfolding store8
  Digits-suc = record {
    digit = digits;
    others = λ a o. rest.others a (ground arith) ∙ ground arith;
  }

pub digits_from-Digits :
    (rounds fuel buffer n pos : ℕ) (b : Board)
    → Fits 10 rounds n
    → rounds < fuel
    → (m' : Ram) × (digits_from board fuel buffer n pos b
        ≡ ok (pos + width rounds n, record b { ram = m' }))
      × Digits b.ram (buffer + pos) n (width rounds n) m'
unfolding digits_from
digits_from-Digits rounds zero buffer n pos b fits enough = absurd (omega arith)
digits_from-Digits zero (suc fuel) buffer n pos b fits enough =
    let test : ltb 0 n ≡ false = ground arith in
    let same : pos ≡ pos + 0 = omega arith in
    (b.ram, rw test (ap (λ q. ok (q, b)) same), nothing b (buffer + pos) n)
digits_from-Digits (suc rounds) (suc fuel) buffer n pos b fits enough = elim (Bool-cases (n == 0)) [
  | inl none ↦
      let test : ltb 0 n ≡ false = ground arith in
      let same : pos ≡ pos + 0 = omega arith in
      rw (test, none) (b.ram, ap (λ q. ok (q, b)) same, nothing b (buffer + pos) n)
  | inr more ↦
      let test : ltb 0 n ≡ true = ground arith in
      let m1 = store8 b.ram (buffer + pos) (n % 10 + b'0') in
      let (m', ends, rest) =
        digits_from-Digits rounds fuel buffer (n / 10) (pos + 1) (record b { ram = m1 }) fits
          (omega arith) in
      let k = width rounds (n / 10) in
      let sum : pos + 1 + k ≡ pos + suc k = omega arith in
      rw (test, more)
        (
          m',
          ends ∙ ap (λ q. ok (q, record b { ram = m' })) sum,
          Digits-suc buffer pos n k b.ram m' rest,
        )
]

text_of-snoc : (m : Ram) (p n : ℕ) → text_of m p (suc n) ≡ text_of m p n ++ load8 m (p + n) ∷ []
text_of-snoc m p zero = let start : p + 0 ≡ p = omega arith in rw start refl
text_of-snoc m p (suc n) =
    let next : p + suc n ≡ p + 1 + n = omega arith in
    rw next (ap (λ t. load8 m p ∷ t) (text_of-snoc m (p + 1) n))

-- Digits in the order of reading spell the number.
pub text_of-numeral :
    (m : Ram) (p k n : ℕ)
    → ((i : ℕ) → i < k → load8 m (p + i) ≡ b'0' + digit_at n (k - 1 - i))
    → text_of m p k ≡ numeral 10 k n
text_of-numeral m p zero n digits = refl
text_of-numeral m p (suc k) n digits =
    text_of-snoc m p k
    ∙ ap₂ (λ t c. t ++ c ∷ [])
        (text_of-numeral m p k (n / 10) (λ i h.
          let shift : suc k - 1 - i ≡ suc (k - 1 - i) = omega arith in
          digits i (omega arith) ∙ ap (λ j. b'0' + digit_at n j) shift))
        (digits k (omega arith)
          ∙ (let none : suc k - 1 - k ≡ 0 = omega arith in rw none (ground arith)))
