-- ===== src/Isr.antt =====
-- kernel/isr.c: the table of interrupt handlers and the dispatch to them. `S` is the state that
-- handlers work on.
pub mod Dispatch
use torch_os.Base.{
  ℕ, ◌+◌, ◌-◌, ◌^◌, ◌==◌, if◌then◌else◌, Option, none, some, Outcome, ok, hang, u8, sub32,
}
use torch_os.Pic.{Ports, pic_send_eoi}

-- `struct context`
pub record Context : Type 0 where
  pub ds : ℕ
  pub edi : ℕ
  pub esi : ℕ
  pub ebp : ℕ
  pub useless_esp : ℕ
  pub ebx : ℕ
  pub edx : ℕ
  pub ecx : ℕ
  pub eax : ℕ
  pub int_no : ℕ
  pub err_code : ℕ
  pub eip : ℕ
  pub cs : ℕ
  pub eflags : ℕ
  pub esp : ℕ
  pub ss : ℕ

abbrev pub Handler : Type 0 → Type 0
Handler S = Context → S → Outcome S

-- `interrupt_handlers[256]`, a null pointer being `none`. The stubs push numbers below 48 only.
abbrev pub Handlers : Type 0 → Type 0
Handlers S = ℕ → Option (Handler S)

module _ {S : Type 0} where
  unfoldable pub register_interrupt_handler : (n : ℕ) → Handler S → Handlers S → Handlers S
  register_interrupt_handler n handler table i = if i == u8 n then some handler else table i

  -- An interrupt without a handler is passed over.
  run_if_set : Option (Handler S) → Context → S → Outcome S
  run_if_set none context s = ok s
  run_if_set (some handler) context s = handler context s

  unfoldable pub isr_handler : Handlers S → Context → S → Outcome S
  unfolding run_if_set
  isr_handler table context s = run_if_set (table context.int_no) context s

  -- Without a handler: the log's `[PANIC] Unhandled IRQ` and `while(1);`.
  run_or_hang : Option (Handler S) → Context → S → Outcome S
  run_or_hang none context s = hang
  run_or_hang (some handler) context s = handler context s

  -- `pic_send_eoi` takes an `unsigned char`.
  unfoldable pub irq_handler : Ports S → Handlers S → Context → S → Outcome S
  unfolding run_or_hang
  irq_handler ports table context s =
      let s1 = pic_send_eoi ports (u8 (sub32 context.int_no 32)) s in
      run_or_hang (table context.int_no) context s1
