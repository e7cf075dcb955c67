-- ===== src/Logger/Decimal.antt =====
-- `print_serial_unsigned_decimal` sends a number to base 10.
use torch_os.Base.{
  ℕ, ◌+◌, ◌-◌, ◌^◌, ◌≤◌, ◌<◌, ◌≡◌, ◌≢◌, ◌⊎◌, inl, inr, refl, sym, ap, ◌∙◌, arith, ◌==◌, List, [],
  ◌∷◌, ◌++◌, Bool-cases, false, ok, subst,
}
use torch_os.Hardware.Ram.{Ram, load8, store8, load8-store8, load8-same}
use torch_os.Strings.{strrev}
use torch_os.Hardware.Bus.{flat}
use torch_os.Strings.Text.{IsText}
use torch_os.Strings.Lens.{strrev-Lens}
use torch_os.Strings.Reverse.{Reversed, strrev-Reversed}
use torch_os.Logger.{
  digits_from, digit_rounds, print_serial, print_zero, print_serial_unsigned_decimal,
}
use torch_os.Logger.Board.{Board, board, com1, board_lens}
use torch_os.Logger.Send.{CanSend, Sends}
use torch_os.Strings.Text.{text_of}
use torch_os.Logger.Print.{print_serial-Sends}
use torch_os.Logger.Numeral.{numeral, width, decimal, Fits, width-le, decimal-numeral}
use torch_os.Logger.Digits.{digit_at, Digits, digits_from-Digits, text_of-numeral}

-- All of memory but the array of 25 characters.
abbrev pub Outside : (buffer a : ℕ) → Type 0
Outside buffer a = (a < buffer) ⊎ (buffer + 25 ≤ a)

-- The loop's digits, ended by a zero.
module _ (buffer n k : ℕ) (m0 m : Ram) (d : Digits m0 (buffer + 0) n k m) where
  ended : (i : ℕ) → i < k → load8 (store8 m (buffer + k) 0) (buffer + i) ≡ b'0' + digit_at n i
  ended i h =
      let at : buffer + 0 + i ≡ buffer + i = omega arith in
      load8-store8 m (buffer + k) (buffer + i) 0 ∙ ground arith ∙ rw at at (d.digit i h)

  ended-IsText : IsText (store8 m (buffer + k) 0) buffer k
  ended-IsText = record {
    nonzero = λ i h. omega (arith, ended i h);
    ends = load8-store8 m (buffer + k) (buffer + k) 0 ∙ ground arith;
  }

  -- Reversed, they are the number's text.
  module _ (m' : Ram) (small : k ≤ 10) (rev : Reversed (store8 m (buffer + k) 0) buffer k m') where
    reversed : (i : ℕ) → i < k → load8 m' (buffer + i) ≡ b'0' + digit_at n (k - 1 - i)
    reversed i h = rev.mirror i h ∙ ended (k - 1 - i) (omega arith)

    reversed-IsText : IsText m' buffer k
    reversed-IsText = record {
      nonzero = λ i h. omega (arith, reversed i h);
      ends =
          load8-same (store8 m (buffer + k) 0) m' (buffer + k)
            (rev.others (buffer + k) (inr (omega arith)))
          ∙ load8-store8 m (buffer + k) (buffer + k) 0
          ∙ ground arith;
    }

    reversed-same : (a : ℕ) → Outside buffer a → m' a ≡ m0 a
    unfolding store8
    reversed-same a out = rev.others a (ground arith) ∙ ground arith ∙ d.others a (ground arith)

-- A text that stands in the array is sent, and the array is all that has changed.
Sends-array :
    (patience buffer k : ℕ) (text : List ℕ) (b : Board) (m' : Ram)
    → CanSend patience b.uart
    → IsText m' buffer k
    → k ≤ 10
    → text_of m' buffer k ≡ text
    → ((a : ℕ) → Outside buffer a → m' a ≡ b.ram a)
    → Sends patience
        (Outside buffer)
        text
        b
        (print_serial board com1 patience buffer (record b { ram = m' }))
Sends-array patience buffer k text b m' can is_text small e same =
    let (b', ends, s) =
      print_serial-Sends patience buffer k (record b { ram = m' }) is_text (omega arith) can in
    (
      b',
      ends,
      record {
        can = s.can;
        sent = s.sent ∙ ap (λ t. b.uart.sent ++ t) e;
        same = λ a out. s.same a tt ∙ same a out;
      },
    )

-- The case of 0.
module _ (m0 : Ram) (buffer : ℕ) where
  abbrev zero_text : Ram
  zero_text = store8 (store8 m0 buffer b'0') (buffer + 1) 0

  zero_there : load8 zero_text buffer ≡ b'0'
  unfolding store8 load8
  zero_there = ground arith

  zero-IsText : IsText zero_text buffer 1
  unfolding store8 load8
  zero-IsText = record { nonzero = λ i h. ground arith; ends = ground arith }

  zero_same : (a : ℕ) → Outside buffer a → zero_text a ≡ m0 a
  unfolding store8
  zero_same a out = ground arith

module _ (patience buffer : ℕ) where
  zero_digit :
      (b : Board)
      → CanSend patience b.uart
      → Sends patience (Outside buffer) (b'0' ∷ []) b (print_zero board com1 patience buffer b)
  unfolding print_zero
  zero_digit b can =
      let m = store8 b.ram buffer b'0' in
      let m' = store8 m (buffer + 1) 0 in
      Sends-array patience buffer 1 (b'0' ∷ []) b m' can (zero-IsText b.ram buffer) (omega arith)
        (ap (λ c. c ∷ []) (zero_there b.ram buffer)) (zero_same b.ram buffer)

  -- The digits `m` and, reversed, `m'` of a number that is not 0.
  reversed_and_printed :
      (n k : ℕ) (b : Board) (m m' : Ram)
      → n ≢ 0
      → digits_from board digit_rounds buffer n 0 b ≡ ok (0 + k, record b { ram = m })
      → strrev flat buffer (store8 m (buffer + k) 0) ≡ ok m'
      → print_serial_unsigned_decimal board com1 patience buffer n b
        ≡ print_serial board com1 patience buffer (record b { ram = m' })
  unfolding print_serial_unsigned_decimal
  reversed_and_printed n k b m m' ne looped turned =
      let test : (n == 0) ≡ false = ground arith in
      let none : 0 + k ≡ k = omega arith in
      let b2 : Board = record b { ram = store8 m (buffer + k) 0 } in
      rw (test, looped, none, strrev-Lens board board_lens buffer b2, turned) refl

  number-Sends :
      (n k : ℕ) (b : Board) (m : Ram)
      → n ≢ 0
      → k ≤ 10
      → CanSend patience b.uart
      → digits_from board digit_rounds buffer n 0 b ≡ ok (0 + k, record b { ram = m })
      → Digits b.ram (buffer + 0) n k m
      → Sends patience
          (Outside buffer)
          (numeral 10 k n)
          b
          (print_serial_unsigned_decimal board com1 patience buffer n b)
  number-Sends n k b m ne few can looped d =
      let (m', turned, rev) =
        strrev-Reversed buffer k (store8 m (buffer + k) 0) (ended-IsText buffer n k b.ram m d)
          (omega arith) in
      let text = text_of-numeral m' buffer k n (reversed buffer n k b.ram m d m' few rev) in
      let (b', ends, s) =
        Sends-array patience buffer k (numeral 10 k n) b m' can
          (reversed-IsText buffer n k b.ram m d m' few rev) few text
          (reversed-same buffer n k b.ram m d m' few rev) in
      (b', reversed_and_printed n k b m m' ne looped turned ∙ ends, s)

  -- Every 32-bit number is sent in its decimal form.
  pub decimal-Sends :
      (n : ℕ) (b : Board)
      → n < 2 ^ 32
      → CanSend patience b.uart
      → Sends patience
          (Outside buffer)
          (decimal n)
          b
          (print_serial_unsigned_decimal board com1 patience buffer n b)
  unfolding print_serial_unsigned_decimal
  decimal-Sends n b small can = elim (Bool-cases (n == 0)) [
    | inl none ↦ rw none (zero_digit b can)
    | inr more ↦
        let ne : n ≢ 0 = ground arith in
        let fits : Fits 10 10 n = omega arith in
        let (m, looped, d) = digits_from-Digits 10 digit_rounds buffer n 0 b fits (omega arith) in
        subst
          (λ text.
            Sends patience (Outside buffer) text b
              (print_serial_unsigned_decimal board com1 patience buffer n b))
          (sym (decimal-numeral n ne))
          (number-Sends n (width 10 n) b m ne (width-le 10 n) can looped d)
  ]
