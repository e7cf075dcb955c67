-- ===== src/Timer/Ticks.antt =====
-- Many timer interrupts.
use torch_os.Base.{
  ℕ, zero, suc, ◌+◌, ◌-◌, ◌/◌, ◌%◌, ◌^◌, ◌<◌, ◌≡◌, arith, ◌==◌, add32, Bool-cases, ==_iff, inl, inr,
  true, false,
}
use torch_os.Tty.{Terminal, terminal_print}
use torch_os.Timer.{Clock, timer_callback, second_message}

abbrev pub interrupts : ℕ → Clock → Clock
interrupts zero c = c
interrupts (suc n) c = interrupts n (timer_callback c)

abbrev pub prints : ℕ → Terminal → Terminal
prints zero t = t
prints (suc n) t = prints n (terminal_print second_message t)

abbrev clock : ℕ → Terminal → Clock
clock ticks terminal = record { ticks = ticks; terminal = terminal }

callback_second :
    (c : Clock)
    → c.ticks + 1 < 2 ^ 32
    → ((c.ticks + 1) % 1000 == 0) ≡ true
    → timer_callback c ≡ clock (c.ticks + 1) (terminal_print second_message c.terminal)
unfolding timer_callback
callback_second c h second =
    let counted : add32 c.ticks 1 ≡ c.ticks + 1 = omega arith in rw (counted, second)

callback_other :
    (c : Clock)
    → c.ticks + 1 < 2 ^ 32
    → ((c.ticks + 1) % 1000 == 0) ≡ false
    → timer_callback c ≡ clock (c.ticks + 1) c.terminal
unfolding timer_callback
callback_other c h other =
    let counted : add32 c.ticks 1 ≡ c.ticks + 1 = omega arith in rw (counted, other)

-- After `n` timer interrupts that do not wrap the counter it is `n` further, and the message has
-- been printed once for each multiple of 1000 passed.
pub interrupts-Clock :
    (n : ℕ) (c : Clock)
    → c.ticks + n < 2 ^ 32
    → interrupts n c ≡ record {
      ticks = c.ticks + n;
      terminal = prints ((c.ticks + n) / 1000 - c.ticks / 1000) c.terminal;
    }
interrupts-Clock zero c h =
    let no_more : (c.ticks + 0) / 1000 - c.ticks / 1000 ≡ 0 = omega arith in
    let same : c.ticks + 0 ≡ c.ticks = omega arith in rw (no_more, same)
interrupts-Clock (suc n) c h = elim (Bool-cases ((c.ticks + 1) % 1000 == 0)) [
  | inl second ↦
      let at = (==_iff _ 0).0 second in
      let once_more : (c.ticks + suc n) / 1000 - c.ticks / 1000
          ≡ suc ((c.ticks + 1 + n) / 1000 - (c.ticks + 1) / 1000) =
        omega arith in
      let next : c.ticks + suc n ≡ c.ticks + 1 + n = omega arith in
      rw (callback_second c (omega arith) second, once_more, next)
        (interrupts-Clock n (clock (c.ticks + 1) (terminal_print second_message c.terminal))
          (omega arith))
  | inr other ↦
      let no_more : (c.ticks + suc n) / 1000 - c.ticks / 1000
          ≡ (c.ticks + 1 + n) / 1000 - (c.ticks + 1) / 1000 =
        ground arith in
      let next : c.ticks + suc n ≡ c.ticks + 1 + n = omega arith in
      rw (callback_other c (omega arith) other, no_more, next)
        (interrupts-Clock n (clock (c.ticks + 1) c.terminal) (omega arith))
]
