-- ===== src/Logger/Start.antt =====
-- `init_logger` sets up the serial chip.
use torch_os.Base.{◌/◌, ◌%◌, ◌^◌, ◌==◌, false, ◌<◌, ◌≡◌, refl, arith}
use torch_os.Logger.{init_serial_com1, init_logger}
use torch_os.Logger.Uart.{baud}
use torch_os.Logger.Board.{Board, com1}

pub record Configured (b b' : Board) : Type 0 where
  pub rate : baud b'.uart ≡ 38400
  -- eight bits, no parity, one stop bit
  pub line : b'.uart.line_control ≡ 3
  pub quiet : b'.uart.interrupt_enable ≡ 0
  pub fifo : b'.uart.fifo_control ≡ 0xC7
  pub sent : b'.uart.sent ≡ b.uart.sent
  pub busy : b'.uart.busy ≡ b.uart.busy
  pub pace : b'.uart.pace ≡ b.uart.pace
  pub ram : b'.ram ≡ b.ram

-- If the serial chip does not give access to its divisor, `init_logger` leaves it at 38400 baud
-- with eight data bits, no parity and one stop bit, with interrupts off, and sends nothing.
pub init_logger-Configured :
    (b : Board) → b.uart.line_control < 2 ^ 7 → Configured b (init_logger com1 b)
unfolding init_logger init_serial_com1
init_logger-Configured b closed =
    let test : (b.uart.line_control / 2 ^ 7 % 2 == 1) ≡ false = ground arith in
    rw test (record {
      rate = refl;
      line = refl;
      quiet = refl;
      fifo = refl;
      sent = refl;
      busy = refl;
      pace = refl;
      ram = refl;
    })
