-- ===== src/Tasking/Bodies.antt =====
-- kernel/tasking.c: the two test tasks and the loop at the end of `init_tasking`, from one return
-- of `schedule` to the next.
use torch_os.Base.{ℕ, ◌-◌, ◌==◌, if◌then◌else◌, ltb, zero, suc, List, [], ◌∷◌, Outcome, ok, ◌>>=◌}
use torch_os.Base.Text.{codes}
use torch_os.Timer.{timer_callback}
use torch_os.Tty.{Terminal, terminal_print}
use torch_os.Tasking.{Scheduler, schedule, terminate_task}
use torch_os.Tasking.Store.{load}
use torch_os.Tasking.Create.{Kernel, init_tasking}

-- The scheduler, the screen, and the local variable `x` of `task1`.
pub record Running : Type 0 where
  pub scheduler : Scheduler
  pub terminal : Terminal
  pub x : ℕ

-- `int x = 10;`
abbrev pub first_x : ℕ
first_x = 10

-- `while (x-- > 0)` and what follows the loop. `x` is not read again once it was 0.
unfoldable pub task1 : Running → Outcome Running
task1 r =
    if ltb 0 r.x
    then (do
      let terminal = terminal_print (codes "Running task 1\n") r.terminal
      s ← schedule r.scheduler
      ok (record { scheduler = s; terminal = terminal; x = r.x - 1 }))
    else (do s ← terminate_task r.scheduler; ok (record r { scheduler = s }))

-- A round of `while (1)`.
unfoldable pub task2 : Running → Outcome Running
task2 r = do s ← schedule r.scheduler; ok (record r { scheduler = s })

-- A round of the loop of `init_tasking`, in the kernel's task.
unfoldable pub kernel_loop : Running → Outcome Running
kernel_loop r = do s ← schedule r.scheduler; ok (record r { scheduler = s })

-- The current task runs until another does. `init_tasking` gives the kernel's task the pid 0, and
-- `task1` and `task2` the pids 1 and 2.
unfoldable pub turn : Running → Outcome Running
turn r = do
  t ← load r.scheduler.current_task r.scheduler.tasks
  if t.pid == 1 then task1 r else if t.pid == 2 then task2 r else kernel_loop r

-- A timer interrupt between two turns: `timer_callback` counts the scheduler's ticks, and prints on
-- the screen of the tasks.
unfoldable pub timer_tick : Running → Running
timer_tick r =
    let c = timer_callback (record { ticks = r.scheduler.ticks; terminal = r.terminal }) in
    record r { scheduler = record r.scheduler { ticks = c.ticks }; terminal = c.terminal }

unfoldable pub timer_ticks : ℕ → Running → Running
timer_ticks zero r = r
timer_ticks (suc n) r = timer_ticks n (timer_tick r)

-- A turn for each entry, after that many timer interrupts.
unfoldable pub run : List ℕ → Running → Outcome Running
run [] r = ok r
run (ticks ∷ more) r = do r1 ← turn (timer_ticks ticks r); run more r1

-- `init_tasking` with what its loop and the tasks do in so many turns.
unfoldable pub tasking :
    (directory start1 start2 : ℕ) → List ℕ → Kernel → Terminal → Outcome Running
tasking directory start1 start2 ticks k terminal = do
  k1 ← init_tasking directory start1 start2 k
  run ticks (record { scheduler = k1.scheduler; terminal = terminal; x = first_x })
