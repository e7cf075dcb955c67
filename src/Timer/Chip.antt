-- ===== src/Timer/Chip.antt =====
-- The 8253 timer chip, as its data sheet describes its first counter: the specification that
-- `init_timer` is written for.
use torch_os.Base.{
  ℕ, ◌+◌, ◌*◌, ◌/◌, ◌%◌, ◌^◌, ◌≤◌, ◌<◌, ◌≡◌, refl, arith, ◌&&◌, ◌==◌, if◌then◌else◌, some,
}
use native.Mathlib.Nat.{div-mul-le_self, le-div_iff_mul-le}
use torch_os.Base.Bits.{bit_and_low}
use torch_os.Pic.{Ports}
use torch_os.Isr.{Handler, Handlers, register_interrupt_handler}
use torch_os.Timer.{divisor, init_timer}

-- Which byte of the counter's value comes next.
pub data Stage : Type 0 where
  low_byte high_byte : Stage

pub record Pit : Type 0 where
  pub stage : Stage
  pub mode : ℕ
  pub low : ℕ
  pub high : ℕ

-- A command for counter 0 whose access bits are 3 announces both bytes, the low one first.
abbrev pub command : ℕ → Pit → Pit
command v c =
    if v / 2 ^ 6 == 0 && v / 2 ^ 4 % 4 == 3
    then record c { stage = low_byte; mode = v / 2 % 8 }
    else c

abbrev pub value_byte : Stage → ℕ → Pit → Pit
value_byte low_byte v c = record c { stage = high_byte; low = v }
value_byte high_byte v c = record c { stage = low_byte; high = v }

abbrev pub write_port : (port value : ℕ) → Pit → Pit
write_port port v c =
    if port == 0x43 then command v c else if port == 0x40 then value_byte c.stage v c else c

abbrev pub pit : Ports Pit
pit = record { outb = write_port }

-- The chip counts down from its value, and 0 stands for 2 ^ 16.
abbrev pub period : Pit → ℕ
period c = let count = c.low + 2 ^ 8 * c.high in if count == 0 then 2 ^ 16 else count

divisor-lt : (frequency : ℕ) → 19 ≤ frequency → divisor frequency < 2 ^ 16
divisor-lt frequency h = grind (arith, div-mul-le_self 1193180 frequency)

divisor-pos : (frequency : ℕ) → 19 ≤ frequency → frequency ≤ 1193180 → 1 ≤ divisor frequency
divisor-pos frequency low high =
    (le-div_iff_mul-le {k = frequency} {x = 1} {y = 1193180} (omega arith)).1 (omega arith)

-- From any state of the timer chip and for a frequency from 19 to 1193180, `init_timer` makes it a
-- square wave with the period 1193180 / frequency and registers the callback for interrupt 32.
pub init_timer-period :
    (frequency : ℕ) (callback : Handler Pit) (table : Handlers Pit) (c : Pit)
    → 19 ≤ frequency
    → frequency ≤ 1193180
    → let (table', c') = init_timer pit callback frequency table c in
      (period c' ≡ 1193180 / frequency) × (c'.mode ≡ 3) × (table' 32 ≡ some callback)
unfolding init_timer register_interrupt_handler
init_timer-period frequency callback table c low high = (
  rw (bit_and_low 8 (divisor frequency), bit_and_low 8 (divisor frequency / 2 ^ 8))
      (ground (arith, divisor-lt frequency low, divisor-pos frequency low high)),
  refl,
  refl,
)
