-- ===== src/Logger.antt =====
-- kernel/logger.c and kernel/logger.asm: formatted output through the first serial port.
mod Tests
pub mod Uart
pub mod Board
pub mod Send
pub mod Print
pub mod Numeral
pub mod Hex
pub mod Digits
pub mod Decimal
pub mod Start
pub mod Format
pub mod Log
use torch_os.Base.{
  ℕ, zero, suc, ◌+◌, ◌-◌, ◌*◌, ◌/◌, ◌%◌, ◌^◌, not, ◌==◌, ltb, if◌then◌else◌, u8, bit_and, Outcome,
  ok, out_of_fuel, ◌>>=◌,
}
use torch_os.Hardware.Bus.{Bus}
use torch_os.Pic.{Ports}
use torch_os.Strings.{addresses, strlen, strrev}

-- What the serial driver uses of the machine: `outb` and `inb` of kernel/includes/io.h.
pub record Serial (S : Type 0) : Type 0 where
  pub ports : Ports S
  pub inb : (port : ℕ) → S → ℕ × S

abbrev pub com1_base : ℕ
com1_base = 0x3f8

-- The digits of a 32-bit number are at most 10.
abbrev pub digit_rounds : ℕ
digit_rounds = 11

module _ {S : Type 0} (serial : Serial S) where
  open serial use {ports, inb}
  open ports use {outb}

  unfoldable pub init_serial_com1 : S → S
  init_serial_com1 s =
      let s1 = outb (com1_base + 1) 0x00 s in
      let s2 = outb (com1_base + 3) 0x80 s1 in
      let s3 = outb (com1_base + 0) 0x03 s2 in
      let s4 = outb (com1_base + 1) 0x00 s3 in
      let s5 = outb (com1_base + 3) 0x03 s4 in
      let s6 = outb (com1_base + 2) 0xC7 s5 in outb (com1_base + 4) 0x0B s6

  unfoldable pub init_logger : S → S
  unfolding init_serial_com1
  init_logger s = init_serial_com1 s

  unfoldable pub is_transmit_empty : S → ℕ × S
  is_transmit_empty s = let (status, s1) = inb (com1_base + 5) s in (bit_and status 0x20, s1)

  -- `while (is_transmit_empty() == 0);`
  unfoldable pub stall : (fuel : ℕ) → S → Outcome S
  stall zero s = out_of_fuel
  stall (suc fuel) s =
      let (empty, s1) = is_transmit_empty s in
      let rest = λ (s2 : S). stall fuel s2 in if empty == 0 then rest s1 else ok s1

-- `patience` bounds the polls for one character.
module _ {S : Type 0} (serial : Serial S) (patience : ℕ) where
  open serial use {ports}
  open ports use {outb}

  unfoldable pub put_serial : (a : ℕ) → S → Outcome S
  unfolding stall
  put_serial a s = do s1 ← stall serial patience s; ok (outb com1_base a s1)

  -- The character of the low four bits.
  unfoldable pub hexdn : (eax : ℕ) → S → Outcome S
  hexdn eax s =
      let al = bit_and eax 0x0f + b'0' in put_serial (if ltb b'9' al then al + 7 else al) s

  unfoldable pub hexdb : (eax : ℕ) → S → Outcome S
  unfolding hexdn
  hexdb eax s = do s1 ← hexdn (eax / 2 ^ 4) s; hexdn eax s1

  unfoldable pub hexdw : (eax : ℕ) → S → Outcome S
  unfolding hexdb
  hexdw eax s = do s1 ← hexdb (eax / 2 ^ 8) s; hexdb eax s1

  unfoldable pub print_serial_hex : (n : ℕ) → S → Outcome S
  unfolding hexdw
  print_serial_hex n s = do s1 ← hexdw (n / 2 ^ 16) s; hexdw n s1

  -- `0x` and the number
  unfoldable pub hex_argument : (num : ℕ) → S → Outcome S
  hex_argument num s = do s1 ← put_serial b'0' s; s2 ← put_serial b'x' s1; print_serial_hex num s2

module _ {S : Type 0} (bus : Bus S) where
  -- `while (n > 0)`: the digits from the last on.
  unfoldable pub digits_from : (fuel buffer n pos : ℕ) → S → Outcome (ℕ × S)
  digits_from zero buffer n pos s = out_of_fuel
  digits_from (suc fuel) buffer n pos s =
      let rest = λ (s1 : S). digits_from fuel buffer (n / 10) (pos + 1) s1 in
      if ltb 0 n then (do s1 ← bus.write (buffer + pos) (n % 10 + b'0') s; rest s1) else ok (pos, s)

module _ {S : Type 0} (bus : Bus S) (serial : Serial S) (patience : ℕ) where
  -- One round at `i`: the loop asks for the length before each character.
  unfoldable pub print_at : (rest : S → Outcome S) (str i len : ℕ) → S → Outcome S
  print_at rest str i len s =
      if ltb i len
      then (do c ← bus.read (str + i) s; s1 ← put_serial serial patience c s; rest s1)
      else ok s

  unfoldable pub print_serial_from : (fuel str i : ℕ) → S → Outcome S
  unfolding print_at
  print_serial_from zero str i s = out_of_fuel
  print_serial_from (suc fuel) str i s = do
    len ← strlen bus str s
    print_at (print_serial_from fuel str (i + 1)) str i len s

  unfoldable pub print_serial : (str : ℕ) → S → Outcome S
  unfolding print_serial_from
  print_serial str s = print_serial_from addresses str 0 s

  unfoldable pub string_argument : (str : ℕ) → S → Outcome S
  string_argument str s = do len ← strlen bus str s; print_serial str s

-- `buffer` is the address of the array `s` in the frame of `print_serial_unsigned_decimal`.
module _ {S : Type 0} (bus : Bus S) (serial : Serial S) (patience buffer : ℕ) where
  -- the case `n == 0`
  unfoldable pub print_zero : S → Outcome S
  print_zero s = do
    s1 ← bus.write buffer b'0' s
    s2 ← bus.write (buffer + 1) 0 s1
    print_serial bus serial patience buffer s2

  unfoldable pub print_serial_unsigned_decimal : (n : ℕ) → S → Outcome S
  unfolding digits_from print_zero
  print_serial_unsigned_decimal n s = if n == 0 then print_zero s else (do
    (pos, s1) ← digits_from bus digit_rounds buffer n 0 s
    s2 ← bus.write (buffer + pos) 0 s1
    s3 ← strrev bus buffer s2
    print_serial bus serial patience buffer s3)

  -- The character behind a `%`, at `format`, with the arguments from the `i`th on; `rest` goes on
  -- with the loop. A character that is no directive is left for the next round.
  unfoldable pub directive :
      (rest : (format i : ℕ) → S → Outcome S) (words : ℕ → ℕ) (c format i : ℕ) → S → Outcome S
  unfolding hex_argument string_argument
  directive rest words c format i s =
      if c == b's'
      then (do s1 ← string_argument bus serial patience (words i) s; rest (format + 1) (i + 1) s1)
      else if c == b'c'
      then (do s1 ← put_serial serial patience (u8 (words i)) s; rest (format + 1) (i + 1) s1)
      else if c == b'x'
      then (do s1 ← hex_argument serial patience (words i) s; rest (format + 1) (i + 1) s1)
      else if c == b'u'
      then (do s1 ← print_serial_unsigned_decimal (words i) s; rest (format + 1) (i + 1) s1)
      else rest format i s

  -- One round on the character `c` at `format`.
  unfoldable pub logf_at :
      (rest : (format i : ℕ) → S → Outcome S) (words : ℕ → ℕ) (c format i : ℕ) → S → Outcome S
  unfolding directive
  logf_at rest words c format i s =
      if c == 0
      then ok s
      else if not (c == b'%')
      then (do s1 ← put_serial serial patience c s; rest (format + 1) i s1)
      else (do d ← bus.read (format + 1) s; directive rest words d (format + 1) i s)

  unfoldable pub logf_from : (fuel : ℕ) (words : ℕ → ℕ) (format i : ℕ) → S → Outcome S
  unfolding logf_at
  logf_from zero words format i s = out_of_fuel
  logf_from (suc fuel) words format i s = do
    c ← bus.read format s
    logf_at (logf_from fuel words) words c format i s

  -- `words` are the arguments behind the format, as 32-bit words on the stack.
  unfoldable pub logf : (format : ℕ) (words : ℕ → ℕ) → S → Outcome S
  unfolding logf_from
  logf format words s = logf_from addresses words format 0 s
