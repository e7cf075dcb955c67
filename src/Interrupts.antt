-- ===== src/Interrupts.antt =====
-- kernel/interrupts.asm: what stands between an interrupt and its handler. The kernel runs at one
-- privilege level, so an interrupt leaves SS and ESP alone. `S` is the state that handlers work on.
mod Tests
pub mod Stack
pub mod Enter
pub mod Resume
pub mod Serve
use torch_os.Base.{
  ℕ, ◌+◌, ◌-◌, ◌*◌, ◌/◌, ◌%◌, ◌^◌, ◌==◌, ◌&&◌, ◌||◌, if◌then◌else◌, leb, u16, Bool, add32, sub32,
  Outcome, ok, ◌>>=◌,
}
use torch_os.Hardware.Ram.{Ram, load32, store32}
use torch_os.Idt.{IdtEntry}
use torch_os.Isr.{Context}

-- The processor, and the memory with its stack.
pub record Cpu : Type 0 where
  pub eax : ℕ
  pub ecx : ℕ
  pub edx : ℕ
  pub ebx : ℕ
  pub esp : ℕ
  pub ebp : ℕ
  pub esi : ℕ
  pub edi : ℕ
  pub eip : ℕ
  pub eflags : ℕ
  pub cs : ℕ
  pub ds : ℕ
  pub es : ℕ
  pub fs : ℕ
  pub gs : ℕ
  pub ss : ℕ
  pub memory : Ram

-- The instructions, as the processor's manual has them. The flag IF is bit 9.
abbrev pub push : ℕ → Cpu → Cpu
push v c = record c { esp = sub32 c.esp 4; memory = store32 c.memory (sub32 c.esp 4) v }

abbrev pub cli : Cpu → Cpu
cli c = record c { eflags = c.eflags - 2 ^ 9 * (c.eflags / 2 ^ 9 % 2) }

abbrev pub sti : Cpu → Cpu
sti c = record c { eflags = c.eflags + 2 ^ 9 * (1 - c.eflags / 2 ^ 9 % 2) }

abbrev pub add_esp : ℕ → Cpu → Cpu
add_esp n c = record c { esp = add32 c.esp n }

-- `pusha`: ESP is pushed as it was before.
abbrev pub pusha : Cpu → Cpu
pusha c =
    push c.edi
      (push c.esi (push c.ebp (push c.esp (push c.ebx (push c.edx (push c.ecx (push c.eax c)))))))

-- `popa`: the word of ESP is passed over.
abbrev pub popa : Cpu → Cpu
popa c = record c {
  edi = load32 c.memory c.esp;
  esi = load32 c.memory (add32 c.esp 4);
  ebp = load32 c.memory (add32 c.esp 8);
  ebx = load32 c.memory (add32 c.esp 16);
  edx = load32 c.memory (add32 c.esp 20);
  ecx = load32 c.memory (add32 c.esp 24);
  eax = load32 c.memory (add32 c.esp 28);
  esp = add32 c.esp 32;
}

-- `iret` to the same privilege level
abbrev pub iret : Cpu → Cpu
iret c = record c {
  eip = load32 c.memory c.esp;
  cs = u16 (load32 c.memory (add32 c.esp 4));
  eflags = load32 c.memory (add32 c.esp 8);
  esp = add32 c.esp 12;
}

-- `mov ds, ax` to `mov gs, ax`
abbrev pub load_segments : ℕ → Cpu → Cpu
load_segments v c = record c { ds = u16 v; es = u16 v; fs = u16 v; gs = u16 v }

-- What the processor does at an interrupt through a gate that switches interrupts off.
unfoldable pub deliver : IdtEntry → Cpu → Cpu
deliver gate c =
    let c1 = push c.eip (push c.cs (push c.eflags c)) in
    record (cli c1) { cs = gate.sel; eip = gate.base_lo + 2 ^ 16 * gate.base_hi }

-- The common stubs up to the call. `mov ax, ds` leaves the upper half of EAX; `mov ax, 0x10` then
-- changes a register that the call may change.
unfoldable pub save_context : Cpu → Cpu
save_context c =
    let c1 = pusha c in
    let c2 = record c1 { eax = c1.eax / 2 ^ 16 * 2 ^ 16 + c1.ds } in
    let c3 = push c2.eax c2 in
    let c4 = push c3.esp c3 in
    load_segments 0x10 (record c4 { eax = c4.eax / 2 ^ 16 * 2 ^ 16 + 0x10 })

-- `isr_common_stub` behind the call
unfoldable pub restore_isr : Cpu → Cpu
restore_isr c =
    let c1 = add_esp 4 c in
    let c2 = record c1 { eax = load32 c1.memory c1.esp; esp = add32 c1.esp 4 } in
    iret (sti (add_esp 8 (popa (load_segments c2.eax c2))))

-- `irq_common_stub` behind the call
unfoldable pub restore_irq : Cpu → Cpu
restore_irq c =
    let c1 = add_esp 4 c in
    let c2 = record c1 { ebx = load32 c1.memory c1.esp; esp = add32 c1.esp 4 } in
    iret (sti (add_esp 8 (popa (load_segments c2.ebx c2))))

-- `struct context` at an address
abbrev pub context_at : Ram → ℕ → Context
context_at m p = record {
  ds = load32 m p;
  edi = load32 m (p + 4);
  esi = load32 m (p + 8);
  ebp = load32 m (p + 12);
  useless_esp = load32 m (p + 16);
  ebx = load32 m (p + 20);
  edx = load32 m (p + 24);
  ecx = load32 m (p + 28);
  eax = load32 m (p + 32);
  int_no = load32 m (p + 36);
  err_code = load32 m (p + 40);
  eip = load32 m (p + 44);
  cs = load32 m (p + 48);
  eflags = load32 m (p + 52);
  esp = load32 m (p + 56);
  ss = load32 m (p + 60);
}

-- The stubs that do not push a 0 for the error code: `isr8` and `isr10` to `isr14`.
abbrev pub has_code : ℕ → Bool
has_code n = (n == 8) || (leb 10 n && leb n 14)

-- The compiled C function that a stub calls: it works on the processor and on the handlers' state.
abbrev pub Call : Type 0 → Type 0
Call S = Cpu → S → Outcome (Cpu × S)

module _ {S : Type 0} (call : Call S) where
  unfoldable pub isr_common_stub : Cpu → S → Outcome (Cpu × S)
  isr_common_stub c s = do (c1, s1) ← call (save_context c) s; ok (restore_isr c1, s1)

  unfoldable pub irq_common_stub : Cpu → S → Outcome (Cpu × S)
  irq_common_stub c s = do (c1, s1) ← call (save_context c) s; ok (restore_irq c1, s1)

  -- `ISR_NOERRCODE n` and `ISR_ERRCODE n`
  unfoldable pub isr : (n : ℕ) → Cpu → S → Outcome (Cpu × S)
  unfolding isr_common_stub
  isr n c s = isr_common_stub (push n (if has_code n then cli c else push 0 (cli c))) s

  -- `IRQ k, 32 + k`
  unfoldable pub irq : (k : ℕ) → Cpu → S → Outcome (Cpu × S)
  unfolding irq_common_stub
  irq k c s = irq_common_stub (push (32 + k) (push 0 (cli c))) s

-- The exceptions at which the processor pushes an error code, by its manual: those of the stubs, and
-- 17, 21, 29 and 30.
abbrev pub pushes_code : ℕ → Bool
pushes_code n =
    (n == 8) || (leb 10 n && leb n 14) || (n == 17) || (n == 21) || (n == 29) || (n == 30)

abbrev pub push_code : (n code : ℕ) → Cpu → Cpu
push_code n code c = if pushes_code n then push code c else c

-- An exception or another interrupt below 32, and line `k` of the interrupt controllers.
unfoldable pub exception :
    {S : Type 0} → Call S → IdtEntry → (n code : ℕ) → Cpu → S → Outcome (Cpu × S)
unfolding isr deliver
exception call gate n code c s = isr call n (push_code n code (deliver gate c)) s

unfoldable pub interrupt : {S : Type 0} → Call S → IdtEntry → (k : ℕ) → Cpu → S → Outcome (Cpu × S)
unfolding irq deliver
interrupt call gate k c s = irq call k (deliver gate c) s
