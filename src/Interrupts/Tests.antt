-- ===== src/Interrupts/Tests.antt =====
-- The interrupts' theorems at work: a page fault, and the keyboard's line.
use torch_os.Base.{ℕ, ◌+◌, ◌*◌, ◌≡◌, refl, arith, none, false, ok, ◌>>=◌}
use torch_os.Hardware.Ram.{load32}
use torch_os.Pic.{pic_send_eoi}
use torch_os.Pic.Chip.{Chip, Pair, ready, chips}
use torch_os.Idt.{idt_entry}
use torch_os.Idt.Gates.{base_of}
use torch_os.Isr.{Handler, Handlers, register_interrupt_handler, irq_handler}
use torch_os.Interrupts.{Cpu, Call, exception, interrupt, context_at}
use torch_os.Interrupts.Enter.{IsCpu}
use torch_os.Interrupts.Resume.{Resumed, exception-Resumed}
use torch_os.Interrupts.Serve.{Compiles, line_gate, interrupt-Served}

abbrev program : Cpu
program = record {
  eax = 0x12345678;
  ecx = 1;
  edx = 2;
  ebx = 3;
  esp = 0x00200000;
  ebp = 4;
  esi = 5;
  edi = 6;
  eip = 0x00101234;
  eflags = 0x202;
  cs = 8;
  ds = 16;
  es = 16;
  fs = 16;
  gs = 16;
  ss = 16;
  memory = λ a. 0;
}

program-IsCpu : IsCpu program
program-IsCpu = record {
  eax = omega arith;
  ecx = omega arith;
  edx = omega arith;
  ebx = omega arith;
  ebp = omega arith;
  esi = omega arith;
  edi = omega arith;
  eip = omega arith;
  eflags = omega arith;
  cs = omega arith;
  ds = omega arith;
  room = omega arith;
  esp = omega arith;
}

-- A function that counts its calls and leaves a result in EAX.
abbrev counts : Call ℕ
counts c s = ok (record c { eax = 7 }, s + 1)

exception-Resumed_example :
    (c' : Cpu) × (exception counts (idt_entry 0x00101000 8 0x8E) 14 2 program 0 ≡ ok (c', 1))
    × Resumed program c'
exception-Resumed_example =
    exception-Resumed counts (idt_entry 0x00101000 8 0x8E) 14 2 program 0 1 program-IsCpu
      (omega arith) (omega arith) (omega arith, omega arith, omega arith, omega arith)
      (λ c1 entered.
        (record c1 { eax = 7 }, refl, record { esp = refl; memory = λ a from below. refl }))

abbrev idle : Chip
idle = record { stage = ready; offset = 32; cascade = 0; mode = 1; mask = 0; busy = false }

abbrev pair : Pair
pair = record { master = idle; slave = idle }

abbrev done : Handler Pair
done context s = ok s

abbrev table : Handlers Pair
table = register_interrupt_handler 33 done (λ i. none)

-- `irq_handler`, which leaves something in EAX.
abbrev compiled : Call Pair
compiled c s = do
  s1 ← irq_handler chips table (context_at c.memory (load32 c.memory c.esp)) s
  ok (record c { eax = 7 }, s1)

compiled-Compiles : Compiles compiled (irq_handler chips table)
compiled-Compiles c1 s s' e =
    (record c1 { eax = 7 }, rw e refl, record { esp = refl; memory = λ a from below. refl })

interrupt-Served_example :
    (base_of (line_gate 0x00300000 (λ i. 0) (λ i. 0x00102000 + 10 * i) pair 1) ≡ 0x0010200A)
    × ((c' : Cpu) × (interrupt compiled
            (line_gate 0x00300000 (λ i. 0) (λ i. 0x00102000 + 10 * i) pair 1)
            1
            program
            pair
          ≡ ok (c', pic_send_eoi chips 1 pair))
        × Resumed program c')
interrupt-Served_example =
    interrupt-Served chips (λ i. none) done compiled 0x00300000 (λ i. 0) (λ i. 0x00102000 + 10 * i)
      pair 1 program pair (pic_send_eoi chips 1 pair) (omega arith) program-IsCpu (omega arith)
      compiled-Compiles (λ x i. refl)
