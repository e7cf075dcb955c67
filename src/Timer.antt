-- ===== src/Timer.antt =====
-- kernel/timer.c: the tick counter and the programming of the timer chip.
mod Tests
pub mod Elapsed
pub mod Ticks
pub mod Chip
use torch_os.Base.{
  ℕ, ◌+◌, ◌-◌, ◌/◌, ◌%◌, ◌^◌, List, [], ◌∷◌, ◌==◌, leb, if◌then◌else◌, add32, u32, u8, bit_and,
}
use torch_os.Base.Text.{codes}
use torch_os.Pic.{Ports}
use torch_os.Isr.{Handler, Handlers, register_interrupt_handler}
use torch_os.Tty.{Terminal, terminal_print}

abbrev pub timer_frequency : ℕ
timer_frequency = 1000

-- `UINT64_MAX - start + end` is computed on 64 bits and cut to 32 by the return.
unfoldable pub elapsed_time : (start end : ℕ) → ℕ
elapsed_time start end =
    if leb start end then end - start else u32 ((2 ^ 64 - 1 - start + end) % 2 ^ 64)

pub record Clock : Type 0 where
  pub ticks : ℕ
  pub terminal : Terminal

unfoldable pub read_timer : Clock → ℕ
read_timer c = c.ticks

abbrev pub second_message : List ℕ
second_message = codes "One second has passed...: \n"

unfoldable pub timer_callback : Clock → Clock
timer_callback c =
    let ticks = add32 c.ticks 1 in
    if ticks % timer_frequency == 0
    then record { ticks = ticks; terminal = terminal_print second_message c.terminal }
    else record c { ticks = ticks }

abbrev pub divisor : ℕ → ℕ
divisor frequency = 1193180 / frequency

-- `callback` is `timer_callback` on the state of the whole kernel. A frequency of 0 is a fault of
-- the processor; the kernel's is `timer_frequency`.
unfoldable pub init_timer :
    {S : Type 0}
    → Ports S
    → (callback : Handler S) → (frequency : ℕ) → Handlers S
    → S
    → Handlers S × S
init_timer ports callback frequency table s =
    let l = u8 (bit_and (divisor frequency) 0xFF) in
    let h = u8 (bit_and (divisor frequency / 2 ^ 8) 0xFF) in
    let s1 = ports.outb 0x43 0x36 s in
    let s2 = ports.outb 0x40 l s1 in
    (register_interrupt_handler 32 callback table, ports.outb 0x40 h s2)
