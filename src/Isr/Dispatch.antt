-- ===== src/Isr/Dispatch.antt =====
-- Which handler an interrupt reaches, and in which state.
use torch_os.Base.{ℕ, ◌-◌, ◌<◌, ◌≤◌, ◌≡◌, ◌≢◌, arith, ◌==◌, true, false, u8, sub32}
use torch_os.Pic.{Ports, pic_send_eoi}
use torch_os.Isr.{Context, Handler, Handlers, register_interrupt_handler, isr_handler, irq_handler}

module _ {S : Type 0} (ports : Ports S) (table : Handlers S) (n : ℕ) (handler : Handler S) where
  -- The table with `handler` registered for interrupt `n`.
  abbrev pub registered : Handlers S
  registered = register_interrupt_handler n handler table

  -- After registering a handler for an interrupt from 32 to 255, `irq_handler` on that interrupt
  -- runs it, in the state in which the controllers have been sent the end of the line's interrupt.
  pub irq_handler-register_self :
      (context : Context) (s : S)
      → n < 256
      → 32 ≤ n
      → context.int_no ≡ n
      → irq_handler ports registered context s ≡ handler context (pic_send_eoi ports (n - 32) s)
  unfolding irq_handler register_interrupt_handler
  irq_handler-register_self context s small line e =
      let number : u8 (sub32 n 32) ≡ n - 32 = omega arith in
      let fits : u8 n ≡ n = omega arith in
      let same : (n == n) ≡ true = ground arith in rw (e, fits, same, number)

  -- Registering a handler for an interrupt below 256 leaves `irq_handler` and `isr_handler` as
  -- they were on every other interrupt.
  pub handlers-register_ne :
      (context : Context) (s : S)
      → n < 256
      → context.int_no ≢ n
      → (irq_handler ports registered context s ≡ irq_handler ports table context s)
        × (isr_handler registered context s ≡ isr_handler table context s)
  unfolding irq_handler isr_handler register_interrupt_handler
  handlers-register_ne context s small ne =
      let other : (context.int_no == u8 n) ≡ false = ground arith in (rw other, rw other)
