-- ===== src/Logger/Uart.antt =====
-- The 16550 serial chip, as its data sheet describes it: the specification that `put_serial` and
-- `init_serial_com1` are written for. While it sends a character it answers `pace` polls with a
-- clear ready bit, and a character that it is given then is lost.
use torch_os.Base.{ℕ, ◌+◌, ◌-◌, ◌*◌, ◌/◌, ◌%◌, ◌^◌, ◌==◌, if◌then◌else◌, List, [], ◌∷◌, ◌++◌}

pub record Uart : Type 0 where
  pub interrupt_enable : ℕ
  pub divisor_low : ℕ
  pub divisor_high : ℕ
  pub fifo_control : ℕ
  pub line_control : ℕ
  pub modem_control : ℕ
  -- polls until the next character is accepted
  pub busy : ℕ
  pub pace : ℕ
  pub sent : List ℕ

-- Bit 7 of the line control register puts the divisor in place of the first two registers.
abbrev pub divisor_access : Uart → ℕ
divisor_access u = u.line_control / 2 ^ 7 % 2

abbrev pub transmit : ℕ → Uart → Uart
transmit v u = if u.busy == 0 then record u { sent = u.sent ++ v ∷ []; busy = u.pace } else u

abbrev pub write_register : (register value : ℕ) → Uart → Uart
write_register r v u =
    if r == 0
    then (if divisor_access u == 1 then record u { divisor_low = v } else transmit v u)
    else if r == 1
    then (if divisor_access u == 1
        then record u { divisor_high = v }
        else record u { interrupt_enable = v })
    else if r == 2
    then record u { fifo_control = v }
    else if r == 3
    then record u { line_control = v }
    else if r == 4
    then record u { modem_control = v }
    else u

-- The line status register: bit 5 says that a character is accepted.
abbrev pub status : Uart → ℕ × Uart
status u = if u.busy == 0 then (0x60, u) else (0, record u { busy = u.busy - 1 })

abbrev pub baud : Uart → ℕ
baud u = 115200 / (u.divisor_low + 2 ^ 8 * u.divisor_high)
