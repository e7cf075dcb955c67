-- ===== src/Tasking/Reach.antt =====
-- The scheduler's states as it runs.
use torch_os.Base.{
  ℕ, ◌≡◌, ◌≢◌, inl, inr, refl, sym, ◌∙◌, subst, some, ok, panic, add32, ok-injective, panic-ne_ok,
}
use torch_os.Tasking.{Scheduler, schedule, terminate_task}
use torch_os.Tasking.Store.{Ptr}
use torch_os.Tasking.Pids.{pid_of}
use torch_os.Tasking.Calls.{
  IsRunnable, IsSystem-same, pid_zero-or_not, schedule-IsSystem, terminate_task-kernel,
  terminate_task-IsSystem,
}

-- What happens: a timer interrupt, work of the current task on its stack, and its two calls.
pub data Step (s : Scheduler) : Scheduler → Type 0 where
  ticked : Step s (record s { ticks = add32 s.ticks 1 })
  worked : (esp : ℕ) → Step s (record s { esp = esp })
  scheduled : {s' : Scheduler} → schedule s ≡ ok s' → Step s s'
  terminated : {s' : Scheduler} → terminate_task s ≡ ok s' → Step s s'

pub data Reach (s : Scheduler) : Scheduler → Type 0 where
  start : Reach s s
  after : {s1 s2 : Scheduler} → Reach s s1 → Step s1 s2 → Reach s s2

module _ (kernel : Ptr) where
  Step-IsRunnable : (s s' : Scheduler) → IsRunnable kernel s → Step s s' → IsRunnable kernel s'
  Step-IsRunnable s s' (x, xs, sys) ticked =
      (x, xs, IsSystem-same kernel s s' x xs sys refl refl refl refl)
  Step-IsRunnable s s' (x, xs, sys) (worked esp) =
      (x, xs, IsSystem-same kernel s s' x xs sys refl refl refl refl)
  Step-IsRunnable s s' (x, xs, sys) (scheduled returned) =
      let (s1, returns, sys') = schedule-IsSystem kernel s x xs sys in
      subst (IsRunnable kernel) (ok-injective (sym returns ∙ returned)) sys'
  Step-IsRunnable s s' (x, xs, sys) (terminated returned) =
      elim (pid_zero-or_not (pid_of (s.tasks s.current_task))) [
        | inl it ↦
            absurd (panic-ne_ok (sym (terminate_task-kernel kernel s x xs sys it) ∙ returned))
        | inr user ↦
            let (s1, returns, sys') = terminate_task-IsSystem kernel s x xs sys user in
            subst (IsRunnable kernel) (ok-injective (sym returns ∙ returned)) sys'
      ]

  -- From a ready queue headed by the current task in which only the kernel's task has pid 0, with
  -- the terminated queue empty or ended by a task that is not ready, every sequence of timer
  -- interrupts, calls of `schedule` and `terminate_task` and work on the stack leads to such a
  -- state again.
  pub Reach-IsRunnable :
      (s s' : Scheduler) → IsRunnable kernel s → Reach s s' → IsRunnable kernel s'
  Reach-IsRunnable s s' sys start = sys
  Reach-IsRunnable s s' sys (after {s1} reached step) =
      Step-IsRunnable s1 s' (Reach-IsRunnable s s1 sys reached) step

  -- In every state that a well-formed scheduler can reach, `schedule` returns, and
  -- `terminate_task` returns, except for a current task with pid 0, where it panics: no switch
  -- ever follows a null pointer.
  pub Reach-calls :
      (s s' : Scheduler)
      → IsRunnable kernel s
      → Reach s s'
      → ((s1 : Scheduler) × (schedule s' ≡ ok s1))
        × (pid_of (s'.tasks s'.current_task) ≡ some 0
            → terminate_task s' ≡ panic "Attempt to terminate the kernel task!")
        × (pid_of (s'.tasks s'.current_task) ≢ some 0
            → (s1 : Scheduler) × (terminate_task s' ≡ ok s1))
  Reach-calls s s' sys reached =
      let (x, xs, sys') = Reach-IsRunnable s s' sys reached in
      let (s1, returns, _) = schedule-IsSystem kernel s' x xs sys' in
      (
        (s1, returns),
        terminate_task-kernel kernel s' x xs sys',
        λ user.
            let (s2, returns', _) = terminate_task-IsSystem kernel s' x xs sys' user in
            (s2, returns'),
      )
