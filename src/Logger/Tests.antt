-- ===== src/Logger/Tests.antt =====
-- The logger at work on a chip that is busy for two polls after each character.
use torch_os.Base.{ℕ, ◌≡◌, refl, arith, inl, List, [], ◌==◌, if◌then◌else◌, length, false}
use torch_os.Base.Text.{codes}
use torch_os.Hardware.Ram.{Ram, load8}
use torch_os.Strings.Text.{IsText}
use torch_os.Logger.{print_serial_hex, logf}
use torch_os.Logger.Uart.{Uart}
use torch_os.Logger.Board.{Board, board, com1}
use torch_os.Logger.Send.{CanSend, Sends, Everywhere}
use torch_os.Strings.Text.{text_of}
use torch_os.Logger.Numeral.{number_from, AllDigits}
use torch_os.Logger.Hex.{print_serial_hex-Sends}
use torch_os.Logger.Decimal.{Outside}
use torch_os.Logger.Format.{pieces, spelled}
use torch_os.Logger.Log.{logf-spelled}

-- The text `%u %s` at 16, and the text `k` at 32.
abbrev texts : Ram
texts a =
    if a == 16
    then b'%'
    else if a == 17
    then b'u'
    else if a == 18
    then b' '
    else if a == 19
    then b'%'
    else if a == 20
    then b's'
    else if a == 32
    then b'k'
    else 0

abbrev slow : Uart
slow = record {
  interrupt_enable = 0;
  divisor_low = 3;
  divisor_high = 0;
  fifo_control = 0;
  line_control = 3;
  modem_control = 0;
  busy = 1;
  pace = 2;
  sent = [];
}

abbrev desk : Board
desk = record { ram = texts; uart = slow }

abbrev number : ℕ
number = 4096

slow-CanSend : CanSend 5 slow
slow-CanSend = record { open_data = omega arith; busy = omega arith; pace = omega arith }

-- The arguments 120 and 32.
abbrev two_words : ℕ → ℕ
two_words i = if i == 0 then 120 else 32

abbrev one_character : ℕ → ℕ
one_character i = 1

format-IsText : IsText texts 16 5
unfolding load8
format-IsText = record { nonzero = λ i h. ground arith; ends = refl }

name-IsText : IsText texts 32 1
unfolding load8
name-IsText = record { nonzero = λ i h. ground arith; ends = refl }

print_serial_hex-Sends_example :
    (text : List ℕ) × Sends 5 Everywhere text desk (print_serial_hex com1 5 0xBEEF desk)
    × (length text ≡ 8)
    × AllDigits text
    × (number_from 16 0 text ≡ 0xBEEF)
print_serial_hex-Sends_example = print_serial_hex-Sends 5 0xBEEF desk (omega arith) slow-CanSend

logf-spelled_example :
    Sends 5
      (Outside 100)
      (spelled texts two_words one_character 0 (pieces false (text_of texts 16 5)))
      desk
      (logf board com1 5 100 16 two_words desk)
unfolding load8
logf-spelled_example =
    logf-spelled two_words one_character 5 100 16 5 desk (λ i. ground arith) format-IsText
      (omega arith) (inl (omega arith)) (name-IsText, omega arith, inl (omega arith), tt)
      slow-CanSend

-- The text is what it should be, and a `%` cannot be had.
spelled_text :
    spelled texts two_words one_character 0 (pieces false (codes "%u %s")) ≡ codes "120 k"
unfolding load8
spelled_text = refl

spelled_percent : spelled texts two_words one_character 0 (pieces false (codes "5%%")) ≡ codes "5"
spelled_percent = refl
