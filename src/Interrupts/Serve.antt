-- ===== src/Interrupts/Serve.antt =====
-- A line of the interrupt controllers, from the vector that it raises to the program that goes on.
use torch_os.Base.{ℕ, ◌+◌, ◌-◌, ◌^◌, ◌<◌, ◌≡◌, refl, ◌∙◌, arith, Outcome, ok, ltb, true, false}
use torch_os.Hardware.Ram.{load32}
use torch_os.Pic.{Ports, pic_send_eoi, init_pic}
use torch_os.Pic.Chip.{Pair, chips, vector, init_pic-vector}
use torch_os.Idt.{IdtEntry, idt_entry, init_idt}
use torch_os.Idt.Gates.{base_of, entry_of, base_of-idt_entry, entry_of-init_idt}
use torch_os.Isr.{Context, Handler, Handlers, register_interrupt_handler, irq_handler}
use torch_os.Isr.Dispatch.{irq_handler-register_self}
use torch_os.Interrupts.{Cpu, Call, context_at, interrupt}
use torch_os.Interrupts.Enter.{IsCpu, Interrupted, Entered-Interrupted}
use torch_os.Interrupts.Resume.{Resumed, Returns, interrupt-Resumed}

-- The compiled function does on the context that it is given what `f` does.
abbrev pub Compiles : {S : Type 0} → Call S → (Context → S → Outcome S) → Type 0
Compiles {S} call f =
    (c1 : Cpu) (s s' : S)
    → f (context_at c1.memory (load32 c1.memory c1.esp)) s ≡ ok s'
    → Returns call s s' c1

-- The gate through which line `k` interrupts after the controllers and the table are set up.
abbrev pub line_gate : (address : ℕ) (isrs irqs : ℕ → ℕ) → Pair → (k : ℕ) → IdtEntry
line_gate address isrs irqs p k =
    entry_of (init_idt address isrs irqs).entries (vector (init_pic chips p) k)

line_gate-stub :
    (address : ℕ) (isrs irqs : ℕ → ℕ) (p : Pair) (k : ℕ)
    → k < 16
    → line_gate address isrs irqs p k ≡ idt_entry (irqs k) 0x08 0x8E
line_gate-stub address isrs irqs p k line =
    let raises = (init_pic-vector p k line).0 in
    let above : ltb (32 + k) 32 ≡ false = ground arith in
    let below : ltb (32 + k) 48 ≡ true = ground arith in
    let less : 32 + k - 32 ≡ k = omega arith in
    rw raises (entry_of-init_idt address isrs irqs (32 + k) ∙ rw (above, below, less) refl)

-- After `init_pic` and `init_idt`, line `k` raises the vector whose gate leads to its stub; if the
-- compiled `irq_handler` keeps the stack and the registered handler returns on the program's
-- context, after the end of interrupt, the stub returns with its state and the program goes on
-- with its registers.
pub interrupt-Served :
    {S : Type 0} (ports : Ports S) (table : Handlers S) (handler : Handler S) (call : Call S)
    (address : ℕ) (isrs irqs : ℕ → ℕ) (p : Pair) (k : ℕ) (c : Cpu) (s s' : S)
    → k < 16
    → IsCpu c
    → irqs k < 2 ^ 32
    → Compiles call (irq_handler ports (register_interrupt_handler (32 + k) handler table))
    → ((x : Context) → Interrupted (32 + k) 0 c x → handler x (pic_send_eoi ports k s) ≡ ok s')
    → let gate = line_gate address isrs irqs p k in
      (base_of gate ≡ irqs k)
      × ((c' : Cpu) × (interrupt call gate k c s ≡ ok (c', s')) × Resumed c c')
interrupt-Served ports table handler call address isrs irqs p k c s s' line is small compiled
      handles =
    (
      rw (line_gate-stub address isrs irqs p k line) (base_of-idt_entry (irqs k) 0x08 0x8E small),
      interrupt-Resumed call (line_gate address isrs irqs p k) k 0 c s s' is (omega arith) line
          (λ c1 entered.
            let x = Entered-Interrupted (32 + k) 0 c is (omega arith) (omega arith) c1 entered in
            let less : 32 + k - 32 ≡ k = omega arith in
            let served =
              irq_handler-register_self ports table (32 + k) handler
                (context_at c1.memory (load32 c1.memory c1.esp)) s (omega arith) (omega arith)
                x.int_no in
            compiled c1 s s' (served ∙ rw less (handles _ x))),
    )
