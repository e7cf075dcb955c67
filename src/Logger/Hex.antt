-- ===== src/Logger/Hex.antt =====
-- `print_serial_hex` sends a number's eight digits to base 16.
use torch_os.Base.{
  ℕ, ◌+◌, ◌/◌, ◌%◌, ◌^◌, ◌<◌, ◌≡◌, arith, ltb, List, [], ◌∷◌, if◌then◌else◌, bit_and, length,
}
use torch_os.Base.Bits.{bit_and_low}
use torch_os.Logger.Numeral.{
  numeral, digit_char, number_from, AllDigits, length-numeral, number_from-numeral,
  numeral-AllDigits,
}
use torch_os.Logger.{hexdn, hexdb, hexdw, print_serial_hex}
use torch_os.Logger.Board.{Board, com1}
use torch_os.Logger.Send.{CanSend, Sends, Everywhere, Sends-then, put_serial-Sends}

module _ (patience : ℕ) where
  hexdn-Sends :
      (n : ℕ) (b : Board)
      → CanSend patience b.uart
      → Sends patience Everywhere (digit_char (n % 16) ∷ []) b (hexdn com1 patience n b)
  unfolding hexdn
  hexdn-Sends n b can =
      let low : bit_and n 0x0f ≡ n % 16 = bit_and_low 4 n in
      let digit : (if ltb b'9' (n % 16 + b'0') then n % 16 + b'0' + 7 else n % 16 + b'0')
          ≡ digit_char (n % 16) =
        ground arith in
      rw (low, digit) (put_serial-Sends patience (digit_char (n % 16)) b can)

  hexdb-Sends :
      (n : ℕ) (b : Board)
      → CanSend patience b.uart
      → Sends patience Everywhere (numeral 16 2 n) b (hexdb com1 patience n b)
  unfolding hexdb
  hexdb-Sends n b can =
      Sends-then patience Everywhere (numeral 16 1 (n / 16)) (numeral 16 1 n) b
        (hexdn com1 patience n) (hexdn-Sends (n / 16) b can) (λ b1 s1. hexdn-Sends n b1 s1.can)

  hexdw-Sends :
      (n : ℕ) (b : Board)
      → CanSend patience b.uart
      → Sends patience Everywhere (numeral 16 4 n) b (hexdw com1 patience n b)
  unfolding hexdw
  hexdw-Sends n b can =
      let high : n / 2 ^ 8 ≡ n / 16 / 16 = omega arith in
      rw high (
        Sends-then patience Everywhere (numeral 16 2 (n / 16 / 16)) (numeral 16 2 n) b
          (hexdb com1 patience n) (hexdb-Sends (n / 16 / 16) b can)
          (λ b1 s1. hexdb-Sends n b1 s1.can))

  pub print_serial_hex-numeral :
      (n : ℕ) (b : Board)
      → CanSend patience b.uart
      → Sends patience Everywhere (numeral 16 8 n) b (print_serial_hex com1 patience n b)
  unfolding print_serial_hex
  print_serial_hex-numeral n b can =
      let high : n / 2 ^ 16 ≡ n / 16 / 16 / 16 / 16 = omega arith in
      rw high (
        Sends-then patience Everywhere (numeral 16 4 (n / 16 / 16 / 16 / 16)) (numeral 16 4 n) b
          (hexdw com1 patience n) (hexdw-Sends (n / 16 / 16 / 16 / 16) b can)
          (λ b1 s1. hexdw-Sends n b1 s1.can))

  -- If the serial chip takes a character within the polls allowed, `print_serial_hex` of a 32-bit
  -- number ends and sends eight digits, `0` to `9` and `A` to `F`, that spell the number to base
  -- 16.
  pub print_serial_hex-Sends :
      (n : ℕ) (b : Board)
      → n < 2 ^ 32
      → CanSend patience b.uart
      → (text : List ℕ) × Sends patience Everywhere text b (print_serial_hex com1 patience n b)
        × (length text ≡ 8)
        × AllDigits text
        × (number_from 16 0 text ≡ n)
  unfolding print_serial_hex
  print_serial_hex-Sends n b small can = (
    numeral 16 8 n,
    print_serial_hex-numeral n b can,
    length-numeral 16 8 n,
    numeral-AllDigits 8 n,
    number_from-numeral 16 8 n (omega arith) (omega arith) (omega arith),
  )
