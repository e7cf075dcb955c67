-- ===== src/Timer/Tests.antt =====
-- The timer's theorems at work.
use torch_os.Base.{◌+◌, ◌-◌, ◌/◌, ◌≡◌, arith, ltb, none, some, ok, if◌then◌else◌}
use torch_os.Tty.{Terminal}
use torch_os.Timer.{Clock, elapsed_time, init_timer}
use torch_os.Timer.Elapsed.{ticks_between, elapsed_time-ticks_between}
use torch_os.Timer.Chip.{Pit, pit, high_byte, period, init_timer-period}
use torch_os.Isr.{Handler, Handlers}
use torch_os.Timer.Ticks.{interrupts, prints, interrupts-Clock}

abbrev terminal : Terminal
terminal = record { row = 0; column = 0; color = 7; cells = λ i. 0 }

abbrev clock : Clock
clock = record { ticks = 998; terminal = terminal }

elapsed_time-ticks_between_example :
    elapsed_time 0xFFFFFFF0 16 + (if ltb 16 0xFFFFFFF0 then 1 else 0) ≡ ticks_between 0xFFFFFFF0 16
elapsed_time-ticks_between_example =
    elapsed_time-ticks_between 0xFFFFFFF0 16 (omega arith) (omega arith)

abbrev chip : Pit
chip = record { stage = high_byte; mode = 2; low = 7; high = 9 }

abbrev pass : Handler Pit
pass context c = ok c

abbrev no_handlers : Handlers Pit
no_handlers i = none

init_timer-period_example :
    (period (init_timer pit pass 1000 no_handlers chip).1 ≡ 1193180 / 1000)
    × ((init_timer pit pass 1000 no_handlers chip).1.mode ≡ 3)
    × ((init_timer pit pass 1000 no_handlers chip).0 32 ≡ some pass)
init_timer-period_example = init_timer-period 1000 pass no_handlers chip (omega arith) (omega arith)

interrupts-Clock_example :
    interrupts 3 clock
    ≡ record { ticks = 998 + 3; terminal = prints ((998 + 3) / 1000 - 998 / 1000) terminal }
interrupts-Clock_example = interrupts-Clock 3 clock (omega arith)
