-- ===== src/Tasking/Turned.antt =====
-- One turn of each of the three tasks, after some timer interrupts.
use torch_os.Base.{
  ℕ, suc, ◌-◌, ◌≡◌, ◌≢◌, refl, sym, ap, ◌∙◌, arith, ◌==◌, ltb, true, false, List, [], ◌∷◌, ◌++◌,
  some, ok, Ensures-ok, some-injective,
}
use torch_os.Base.Text.{codes}
use torch_os.Tty.{Terminal, terminal_print}
use torch_os.Tasking.{Scheduler, schedule, terminate_task}
use torch_os.Tasking.Store.{Ptr, null, Task, load}
use torch_os.Tasking.Links.{Links-head}
use torch_os.Tasking.Enqueue.{queue_at, task_of_next}
use torch_os.Tasking.Switch.{load-ok}
use torch_os.Tasking.Schedule.{IsReady, schedule-rotates}
use torch_os.Tasking.Pids.{pid_of, SamePids, schedule-pids, terminate_task-pids}
use torch_os.Tasking.Terminate.{terminate_task-Leads}
use torch_os.Tasking.Bodies.{Running, task1, task2, kernel_loop, turn}

-- The pids that `init_tasking` gives.
pub record Pids (s : Scheduler) (a b c : Ptr) : Type 0 where
  pub first : pid_of (s.tasks a) ≡ some 0
  pub second : pid_of (s.tasks b) ≡ some 1
  pub third : pid_of (s.tasks c) ≡ some 2

pub Pids-same :
    (s s' : Scheduler) (a b c : Ptr) → SamePids s.tasks s'.tasks → Pids s a b c → Pids s' a b c
Pids-same s s' a b c same p = record {
  first = same a ∙ p.first;
  second = same b ∙ p.second;
  third = same c ∙ p.third;
}

-- The scheduler at another tick of the timer.
abbrev pub ticked : ℕ → Scheduler → Scheduler
ticked n s = record s { ticks = n }

ticked-IsReady :
    (n : ℕ) (s : Scheduler) (x : Ptr) (xs : List Ptr) → IsReady s x xs → IsReady (ticked n s) x xs
ticked-IsReady n s x xs i = record {
  current = i.current;
  head = i.head;
  tail = i.tail;
  links = i.links;
  distinct = i.distinct;
}

abbrev pub running : Scheduler → Terminal → ℕ → Running
running s terminal x = record { scheduler = s; terminal = terminal; x = x }

-- The task that `turn` finds.
current-load :
    (s : Scheduler) (x : Ptr) (xs : List Ptr) (pid : ℕ)
    → IsReady s x xs
    → pid_of (s.tasks x) ≡ some pid
    → (t : Task) × (load s.current_task s.tasks ≡ ok t) × (s.tasks x ≡ some t) × (t.pid ≡ pid)
current-load s x xs pid i it =
    let (x_ne, (q, leads)) = Links-head s.tasks x xs i.links in
    let (t, has, _) = task_of_next s.tasks x q x_ne leads in
    (
      t,
      rw i.current (load-ok x s.tasks t x_ne has),
      has,
      some-injective _ _ (ap pid_of (sym has) ∙ it),
    )

schedule-turned :
    (s : Scheduler) (x y : Ptr) (ys : List Ptr)
    → IsReady s x (y ∷ ys)
    → (s' : Scheduler) × (schedule s ≡ ok s')
      × IsReady s' y (ys ++ x ∷ [])
      × SamePids s.tasks s'.tasks
      × (s'.terminated ≡ s.terminated)
schedule-turned s x y ys i =
    let (s', returns, i', _, ended) = schedule-rotates s x y ys i in
    (
      s',
      returns,
      i',
      Ensures-ok (λ s1. SamePids s.tasks s1.tasks) (schedule s) s' (schedule-pids s) returns,
      ended,
    )

-- A turn of `x`, ahead of `y`, at tick `n`.
module _ (n : ℕ) (s : Scheduler) (terminal : Terminal) (x y : Ptr) (ys : List Ptr)
    (i : IsReady s x (y ∷ ys)) where
  -- What a turn that keeps the task in the queue leaves.
  abbrev pub Rotated : Scheduler → Type 0
  Rotated s' =
      IsReady s' y (ys ++ x ∷ []) × SamePids s.tasks s'.tasks × (s'.terminated ≡ s.terminated)

  -- The kernel's task and `task2` call `schedule` only.
  pub turn-passes :
      (k pid : ℕ)
      → pid ≢ 1
      → pid_of (s.tasks x) ≡ some pid
      → (s' : Scheduler) × (turn (running (ticked n s) terminal k) ≡ ok (running s' terminal k))
        × Rotated s'
  unfolding turn task2 kernel_loop
  turn-passes k pid ne it =
      let (t, loads, has, same) = current-load s x (y ∷ ys) pid i it in
      let (s', returns, i', same_pids, ended) =
        schedule-turned (ticked n s) x y ys (ticked-IsReady n s x (y ∷ ys) i) in
      let other : (t.pid == 1) ≡ false = ground (arith, same) in
      (s', rw (loads, other, returns) (ground arith), (i', same_pids, ended))

  -- `task1` prints a line and calls `schedule`.
  pub turn-prints :
      (k : ℕ)
      → pid_of (s.tasks x) ≡ some 1
      → (s' : Scheduler) × (turn (running (ticked n s) terminal (suc k))
          ≡ ok (running s' (terminal_print (codes "Running task 1\n") terminal) k))
        × Rotated s'
  unfolding turn task1
  turn-prints k it =
      let (t, loads, has, same) = current-load s x (y ∷ ys) 1 i it in
      let (s', returns, i', same_pids, ended) =
        schedule-turned (ticked n s) x y ys (ticked-IsReady n s x (y ∷ ys) i) in
      let less : suc k - 1 ≡ k = omega arith in
      let more : ltb 0 (suc k) ≡ true = ground arith in
      (s', rw (loads, same, more, returns, less) refl, (i', same_pids, ended))

  -- `task1` ends.
  pub turn-ends :
      pid_of (s.tasks x) ≡ some 1
      → s.terminated ≡ queue_at null null
      → (s' : Scheduler) × (turn (running (ticked n s) terminal 0) ≡ ok (running s' terminal 0))
        × IsReady s' y ys
        × SamePids s.tasks s'.tasks
        × (s'.terminated ≡ queue_at x x)
  unfolding turn task1
  turn-ends it empty =
      let (t, loads, has, same) = current-load s x (y ∷ ys) 1 i it in
      let s0 = ticked n s in
      let user : t.pid ≢ 0 = omega (arith, same) in
      let (s', returns, i', ended, _, _) =
        terminate_task-Leads s0 x y ys t (ticked-IsReady n s x (y ∷ ys) i) has user empty in
      let same_pids =
        Ensures-ok (λ s1. SamePids s0.tasks s1.tasks) (terminate_task s0) s'
          (terminate_task-pids s0) returns in
      (s', rw (loads, same, returns) refl, i', same_pids, ended)
