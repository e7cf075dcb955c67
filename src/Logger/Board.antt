-- ===== src/Logger/Board.antt =====
-- A machine with memory and the serial chip, on which the logger runs.
use torch_os.Base.{ℕ, ◌+◌, ◌-◌, refl, ltb, leb, ◌&&◌, ◌==◌, if◌then◌else◌, ok}
use torch_os.Hardware.Ram.{Ram, load8, store8}
use torch_os.Hardware.Bus.{Bus}
use torch_os.Strings.Lens.{Lens}
use torch_os.Logger.{Serial, com1_base}
use torch_os.Logger.Uart.{Uart, write_register, status}

pub record Board : Type 0 where
  pub ram : Ram
  pub uart : Uart

abbrev pub board : Bus Board
board = record {
  read = λ a b. ok (load8 b.ram a);
  write = λ a v b. ok (record b { ram = store8 b.ram a v });
}

abbrev pub out_port : (port value : ℕ) → Board → Board
out_port port v b =
    if leb com1_base port && ltb port (com1_base + 5)
    then record b { uart = write_register (port - com1_base) v b.uart }
    else b

abbrev pub in_port : (port : ℕ) → Board → ℕ × Board
in_port port b =
    if port == com1_base + 5
    then (let (v, u) = status b.uart in (v, record b { uart = u }))
    else (0, b)

abbrev pub com1 : Serial Board
com1 = record { ports = record { outb = out_port }; inb = in_port }

-- The string functions see only the memory.
abbrev pub board_lens : Lens board
board_lens = record {
  get = λ b. b.ram;
  put = λ b m. record b { ram = m };
  read = λ a b. refl;
  write = λ a v b. refl;
  get_put = λ b m. refl;
  put_put = λ b m m'. refl;
  put_get = λ b. refl;
}
