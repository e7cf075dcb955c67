-- ===== src/Tasking/Life.antt =====
-- What the three tasks do together: `task1` prints its lines and ends, the others go on.
use torch_os.Base.{ℕ, suc, ◌≡◌, [], ◌∷◌, Outcome, ok, panic, ◌>>=◌, String}
use torch_os.Base.Text.{codes}
use torch_os.Tty.{Terminal, terminal_print}
use torch_os.Timer.{second_message}
use torch_os.Tasking.{Scheduler}
use torch_os.Tasking.Store.{Ptr}
use torch_os.Tasking.Enqueue.{queue_at}
use torch_os.Tasking.Schedule.{IsReady}
use torch_os.Tasking.Create.{Kernel}
use torch_os.Tasking.Created.{NoMemory}
use torch_os.Tasking.Start.{Makes}
use torch_os.Tasking.Bodies.{Running, first_x, timer_ticks}
use torch_os.Tasking.Turned.{Pids, ticked, running}

-- From `t` on, `task1`'s line was printed `n` times, and the timer's message now and then.
pub data Shown : (n : ℕ) (t t' : Terminal) → Type 0 where
  shown_none : {t : Terminal} → Shown 0 t t
  shown_line :
      {n : ℕ} {t t' : Terminal}
      → Shown n (terminal_print (codes "Running task 1\n") t) t'
      → Shown (suc n) t t'
  shown_second :
      {n : ℕ} {t t' : Terminal} → Shown n (terminal_print second_message t) t' → Shown n t t'

-- What was printed from `u` on was printed from `t` on.
abbrev Behind : (t u : Terminal) → Type 0
Behind t u = (n : ℕ) (t' : Terminal) → Shown n u t' → Shown n t t'

-- What some timer interrupts leave.
abbrev LeftBy : (n k : ℕ) (s : Scheduler) (t : Terminal) → Type 0
LeftBy n k s t =
    (tick : ℕ) × (u : Terminal) × (timer_ticks n (running s t k) ≡ running (ticked tick s) u k)
    × Behind t u

module _ (a b c : Ptr) where
  -- After `task1` the other two take turns.
  pub record Alternates (r : Running) (n : ℕ) (terminal : Terminal) : Type 0 where
    pub ready : IsReady r.scheduler c (a ∷ [])
    pub pids : Pids r.scheduler a b c
    pub ended : r.scheduler.terminated ≡ queue_at b b
    pub printed : Shown n terminal r.terminal

-- How `init_tasking` and the tasks end up.
pub data Lives (directory start1 : ℕ) (k : Kernel) (terminal : Terminal)
    : Outcome Running → Type 0 where
  lives :
      {r : Running} (a b c : Ptr)
      → Alternates a b c r first_x terminal
      → Lives directory start1 k terminal (ok r)
  no_room :
      {k1 : Kernel} {message : String}
      → Makes directory start1 k k1
      → NoMemory directory k1.machine message
      → Lives directory start1 k terminal (panic message)
