-- ===== src/Logger/Log.antt =====
-- `logf` sends what its format describes.
use torch_os.Base.{
  ℕ, zero, suc, ◌+◌, ◌^◌, ◌≤◌, ◌<◌, ◌≡◌, ◌≢◌, ◌⊎◌, inl, inr, refl, ◌∙◌, arith, ◌==◌, List, [], ◌∷◌,
  ◌++◌, Bool-cases, true, false, Outcome, ◌>>=◌, u8,
}
use torch_os.Hardware.Ram.{Ram, load8, load8-same}
use torch_os.Strings.{addresses}
use torch_os.Strings.Text.{IsText, IsText-same, IsText-suc, text_of-same, strlen-IsText}
use torch_os.Strings.Lens.{strlen-Lens}
use torch_os.Logger.{
  put_serial, print_serial_hex, hex_argument, string_argument, print_serial_unsigned_decimal,
  directive, logf_at, logf_from, logf,
}
use torch_os.Logger.Board.{Board, board, com1, board_lens}
use torch_os.Logger.Send.{CanSend, Sends, Sends-then, Sends-nothing, Sends-kept, put_serial-Sends}
use torch_os.Strings.Text.{text_of}
use torch_os.Logger.Print.{print_serial-Sends}
use torch_os.Logger.Numeral.{numeral, decimal}
use torch_os.Logger.Hex.{print_serial_hex-numeral}
use torch_os.Logger.Decimal.{Outside, decimal-Sends}
use torch_os.Logger.Format.{pieces, spelled, Readable}

-- Texts outside the array are the same in memories that agree there.
module _ (m m' : Ram) (buffer : ℕ) (agrees : (a : ℕ) → Outside buffer a → m' a ≡ m a) where
  load8-Outside : (a : ℕ) → Outside buffer a → load8 m' a ≡ load8 m a
  load8-Outside a out = load8-same m m' a (agrees a out)

  text_of-Outside :
      (p n : ℕ) → (p + n < buffer) ⊎ (buffer + 25 ≤ p) → text_of m' p n ≡ text_of m p n
  text_of-Outside p n out = text_of-same m m' p n (λ i h. load8-Outside (p + i) (ground arith))

  IsText-Outside : (p n : ℕ) → (p + n < buffer) ⊎ (buffer + 25 ≤ p) → IsText m p n → IsText m' p n
  IsText-Outside p n out = IsText-same m m' p n (λ i h. load8-Outside (p + i) (ground arith))

module _ (m : Ram) (words lengths : ℕ → ℕ) (patience buffer : ℕ)
    (small : (i : ℕ) → words i < 2 ^ 32) where
  abbrev Agrees : Board → Type 0
  Agrees b = (a : ℕ) → Outside buffer a → b.ram a ≡ m a

  -- On every board that is as `m` outside the array, `text` is sent.
  abbrev Prints : List ℕ → (Board → Outcome Board) → Type 0
  Prints text run =
      (b : Board)
      → Agrees b
      → CanSend patience b.uart
      → Sends patience (Outside buffer) text b (run b)

  Prints-then :
      (first second : List ℕ) (run next : Board → Outcome Board)
      → Prints first run
      → Prints second next
      → Prints (first ++ second) (λ b. run b >>= next)
  Prints-then first second run next one two b agrees can =
      Sends-then patience (Outside buffer) first second b next (one b agrees can)
        (λ b1 s1. two b1 (λ a out. s1.same a out ∙ agrees a out) s1.can)

  put_serial-Prints : (c : ℕ) → Prints (c ∷ []) (put_serial com1 patience c)
  put_serial-Prints c b agrees can =
      Sends-kept patience (Outside buffer) (c ∷ []) b (put_serial-Sends patience c b can)

  hex_argument-Prints :
      (n : ℕ) → Prints (b'0' ∷ b'x' ∷ numeral 16 8 n) (hex_argument com1 patience n)
  unfolding hex_argument
  hex_argument-Prints n =
      Prints-then (b'0' ∷ []) (b'x' ∷ numeral 16 8 n) (put_serial com1 patience b'0')
        (λ b. put_serial com1 patience b'x' b >>= print_serial_hex com1 patience n)
        (put_serial-Prints b'0')
        (Prints-then (b'x' ∷ []) (numeral 16 8 n) (put_serial com1 patience b'x')
          (print_serial_hex com1 patience n) (put_serial-Prints b'x')
          (λ b agrees can.
            Sends-kept patience (Outside buffer) (numeral 16 8 n) b
              (print_serial_hex-numeral patience n b can)))

  string_argument-Prints :
      (p n : ℕ)
      → IsText m p n
      → n < 2 ^ 32
      → (p + n < buffer) ⊎ (buffer + 25 ≤ p)
      → Prints (text_of m p n) (string_argument board com1 patience p)
  unfolding string_argument
  string_argument-Prints p n text few out b agrees can =
      let here = IsText-Outside m b.ram buffer agrees p n out text in
      let len = strlen-Lens board board_lens p b ∙ strlen-IsText b.ram p n here few in
      rw (len, ← text_of-Outside m b.ram buffer agrees p n out)
        (Sends-kept patience (Outside buffer) (text_of b.ram p n) b
          (print_serial-Sends patience p n b here few can))

  -- What the loop sends from `f` on, where `left` characters are left, with the arguments from the
  -- `i`th on.
  abbrev Goes : (rest : (format i : ℕ) → Board → Outcome Board) (left f : ℕ) → Type 0
  Goes rest left f =
      (i : ℕ)
      → Readable m words lengths buffer i (pieces false (text_of m f left))
      → Prints (spelled m words lengths i (pieces false (text_of m f left))) (rest f i)

  -- The character behind a `%`, at `f`; `plain` is the round for it as a character of its own.
  directive-Prints :
      (rest : (format i : ℕ) → Board → Outcome Board) (left f i : ℕ)
      → Goes rest left (f + 1)
      → Goes rest (suc left) f
      → Readable m words lengths buffer i (pieces true (text_of m f (suc left)))
      → Prints
          (spelled m words lengths i (pieces true (text_of m f (suc left))))
          (directive board com1 patience buffer rest words (load8 m f) f i)
  unfolding directive
  directive-Prints rest left f i after plain = elim (Bool-cases (load8 m f == b's')) [
    | inl s ↦ rw s (λ readable.
        Prints-then (text_of m (words i) (lengths i)) _
          (string_argument board com1 patience (words i)) (rest (f + 1) (i + 1))
          (string_argument-Prints (words i) (lengths i) readable.0 readable.1 readable.2)
          (after (i + 1) readable.3))
    | inr not_s ↦ elim (Bool-cases (load8 m f == b'c')) [
      | inl c ↦
          rw (not_s, c)
            (λ readable.
              Prints-then (u8 (words i) ∷ []) _ (put_serial com1 patience (u8 (words i)))
                (rest (f + 1) (i + 1)) (put_serial-Prints (u8 (words i))) (after (i + 1) readable))
      | inr not_c ↦ elim (Bool-cases (load8 m f == b'x')) [
        | inl x ↦
            rw (not_s, not_c, x)
              (λ readable.
                Prints-then (b'0' ∷ b'x' ∷ numeral 16 8 (words i)) _
                  (hex_argument com1 patience (words i)) (rest (f + 1) (i + 1))
                  (hex_argument-Prints (words i)) (after (i + 1) readable))
        | inr not_x ↦ elim (Bool-cases (load8 m f == b'u')) [
          | inl u ↦
              rw (not_s, not_c, not_x, u)
                (λ readable.
                  Prints-then (decimal (words i)) _
                    (print_serial_unsigned_decimal board com1 patience buffer (words i))
                    (rest (f + 1) (i + 1))
                    (λ b agrees can. decimal-Sends patience buffer (words i) b (small i) can)
                    (after (i + 1) readable))
          | inr not_u ↦ rw (not_s, not_c, not_x, not_u) (plain i)
        ]
      ]
    ]
  ]

  -- The round at a `%`, by what is behind it.
  percent-Prints :
      (rest : (format i : ℕ) → Board → Outcome Board) (left f i : ℕ)
      → IsText m f left
      → ((l g : ℕ) → IsText m g l → g + l ≡ f + left → l ≤ left → Goes rest l g)
      → Readable m words lengths buffer i (pieces true (text_of m f left))
      → Prints
          (spelled m words lengths i (pieces true (text_of m f left)))
          (directive board com1 patience buffer rest words (load8 m f) f i)
  unfolding directive
  percent-Prints rest zero f i text go = λ readable.
      let start : f + 0 ≡ f = omega arith in
      let end : load8 m f ≡ 0 = rw start at text.ends in
      rw end (go zero f text refl (omega arith) i tt)
  percent-Prints rest (suc left) f i text go =
      directive-Prints rest left f i
        (go left (f + 1) (IsText-suc m f left text) (omega arith) (omega arith))
        (go (suc left) f text refl (omega arith))

  logf_from-Prints :
      (fuel left f : ℕ)
      → IsText m f left
      → (f + left < buffer) ⊎ (buffer + 25 ≤ f)
      → left < fuel
      → Goes (logf_from board com1 patience buffer fuel words) left f
  unfolding logf_from logf_at
  logf_from-Prints zero left f text out enough = absurd (omega arith)
  logf_from-Prints (suc fuel) zero f text out enough = λ i readable b agrees can.
      let start : f + 0 ≡ f = omega arith in
      let end : load8 m f ≡ 0 = rw start at text.ends in
      rw (load8-Outside m b.ram buffer agrees f (ground arith), end)
        (Sends-nothing patience (Outside buffer) b can)
  logf_from-Prints (suc fuel) (suc left) f text out enough = λ i readable b agrees can.
      let start : f + 0 ≡ f = omega arith in
      let there : load8 m f ≢ 0 = rw start at (text.nonzero 0 (omega arith)) in
      let test : (load8 m f == 0) ≡ false = ground arith in
      let tail = IsText-suc m f left text in
      let rest = logf_from board com1 patience buffer fuel words in
      rw (load8-Outside m b.ram buffer agrees f (ground arith), test)
        (elim (Bool-cases (load8 m f == b'%')) [
          | inr plain ↦
              let readable' = rw plain at readable in
              rw plain (
                Prints-then (load8 m f ∷ []) _ (put_serial com1 patience (load8 m f))
                  (rest (f + 1) i) (put_serial-Prints (load8 m f))
                  (logf_from-Prints fuel left (f + 1) tail (ground arith) (omega arith) i readable')
                  b agrees can)
          | inl percent ↦
              let readable' = rw percent at readable in
              rw (percent, load8-Outside m b.ram buffer agrees (f + 1) (ground arith))
                (percent-Prints rest left (f + 1) i tail
                  (λ l g text' e fewer.
                    logf_from-Prints fuel l g text' (ground arith) (omega arith))
                  readable' b agrees can)
        ])

-- If the serial chip takes a character within the polls allowed, and the format and its string
-- arguments are C strings outside the array of `print_serial_unsigned_decimal`, `logf` ends, sends
-- what the pieces of the format spell with the arguments, and writes to no memory but the array.
pub logf-spelled :
    (words lengths : ℕ → ℕ) (patience buffer f n : ℕ) (b : Board)
    → ((i : ℕ) → words i < 2 ^ 32)
    → IsText b.ram f n
    → n < 2 ^ 32
    → (f + n < buffer) ⊎ (buffer + 25 ≤ f)
    → Readable b.ram words lengths buffer 0 (pieces false (text_of b.ram f n))
    → CanSend patience b.uart
    → Sends patience
        (Outside buffer)
        (spelled b.ram words lengths 0 (pieces false (text_of b.ram f n)))
        b
        (logf board com1 patience buffer f words b)
unfolding logf
logf-spelled words lengths patience buffer f n b small text few out readable can =
    logf_from-Prints b.ram words lengths patience buffer small addresses n f text out (omega arith)
      0 readable b (λ a o. refl) can
