-- ===== src/Idt/Tests.antt =====
-- The gates' theorems at work.
use torch_os.Base.{ℕ, ◌+◌, ◌-◌, ◌*◌, ◌/◌, ◌^◌, ◌≤◌, ◌<◌, ◌≡◌, arith, length}
use torch_os.Idt.{Idt, init_idt}
use torch_os.Idt.Gates.{entry_of, IsGateTo, init_idt-gates}

abbrev isr_stub : ℕ → ℕ
isr_stub k = 0x00101000 + 10 * k

abbrev irq_stub : ℕ → ℕ
irq_stub k = 0x00102000 + 10 * k

abbrev table : Idt
table = init_idt 0x00300000 isr_stub irq_stub

init_idt-gates_example :
    (table.ptr.base ≡ 0x00300000)
    × (table.ptr.limit ≡ 8 * length table.entries)
    × (33 < 32 → IsGateTo (isr_stub 33) (entry_of table.entries 33))
    × (32 ≤ 33 → 33 < 48 → IsGateTo (irq_stub (33 - 32)) (entry_of table.entries 33))
    × (48 ≤ 33 → (entry_of table.entries 33).flags / 2 ^ 7 ≡ 0)
init_idt-gates_example =
    init_idt-gates 0x00300000 isr_stub irq_stub 33 (λ k h. omega arith) (λ k h. omega arith)
