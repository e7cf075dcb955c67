-- ===== src/Tasking/Switch.antt =====
-- `switch_to_task` changes the current task and no queue.
use torch_os.Base.{
  ◌≡◌, ◌≢◌, refl, sym, ap, ◌∙◌, arith, ◌==◌, if◌then◌else◌, some, ok, Bool-cases, ==_iff, inl, inr,
  add32, sub32, false,
}
use torch_os.Timer.{elapsed_time}
use torch_os.Tasking.{Scheduler, update_time, switch_to_task_stub, switch_to_task}
use torch_os.Tasking.Store.{Ptr, null, Task, Tasks, put, load}
use torch_os.Tasking.Links.{next_of}
use torch_os.Tasking.Enqueue.{update-ok, put_self, put_ne}

pub load-ok : (p : Ptr) (m : Tasks) (t : Task) → p ≢ null → m p ≡ some t → load p m ≡ ok t
unfolding load
load-ok p m t ne e = let test : (p == null) ≡ false = ground arith in rw (test, e)

-- A change of a task's other fields keeps all pointers.
pub next_of-put :
    (m : Tasks) (p : Ptr) (t t' : Task)
    → m p ≡ some t
    → t'.next_task ≡ t.next_task
    → (a : Ptr) → next_of (put m p t' a) ≡ next_of (m a)
next_of-put m p t t' e same a = elim (Bool-cases (a == p)) [
  | inl here ↦ let at = (==_iff a p).0 here in rw (at, put_self m p t', e, same)
  | inr other ↦ ap next_of (put_ne m p a t' (λ e'. ground arith))
]

pub record Switched (s : Scheduler) (other : Ptr) (s' : Scheduler) : Type 0 where
  pub current : s'.current_task ≡ other
  pub previous : s'.previous_task ≡ s.current_task
  pub ready_to_run : s'.ready_to_run ≡ s.ready_to_run
  pub terminated : s'.terminated ≡ s.terminated
  pub links : (a : Ptr) → next_of (s'.tasks a) ≡ next_of (s.tasks a)
  pub time : s'.last_time ≡ s.ticks

-- Switching between two different tasks that exist returns, charges the elapsed ticks to the task
-- that is left and saves its stack pointer below four pushed registers, loads the other task's,
-- makes that task current, and keeps the queues and every `next_task`.
pub switch_to_task-Switched :
    (s : Scheduler) (other : Ptr) (t o : Task)
    → s.current_task ≢ null
    → other ≢ null
    → s.current_task ≢ other
    → s.tasks s.current_task ≡ some t
    → s.tasks other ≡ some o
    → (s' : Scheduler) × (switch_to_task other s ≡ ok s')
      × Switched s other s'
      × ((t' : Task) × (s'.tasks s.current_task ≡ some t')
          × (t'.time_used ≡ add32 t.time_used (elapsed_time s.last_time s.ticks))
          × (t'.kernel_stack_top ≡ sub32 s.esp 16))
      × (s'.esp ≡ add32 o.kernel_stack_top 20)
unfolding switch_to_task update_time switch_to_task_stub
switch_to_task-Switched s other t o cur_ne other_ne apart has has_other =
    let charged : Task = record t {
      time_used = add32 t.time_used (elapsed_time s.last_time s.ticks);
    } in
    let m1 = put s.tasks s.current_task charged in
    let saved : Task = record charged { kernel_stack_top = sub32 s.esp 16 } in
    let m2 = put m1 s.current_task saved in
    let still : m2 other ≡ some o =
      put_ne m1 s.current_task other saved (λ e. apart (sym e))
      ∙ put_ne s.tasks s.current_task other charged (λ e. apart (sym e))
      ∙ has_other in
    let charged_there = put_self s.tasks s.current_task charged in
    (
      record s {
        tasks = m2;
        last_time = s.ticks;
        previous_task = s.current_task;
        current_task = other;
        esp = add32 o.kernel_stack_top 20;
        cr3 = if o.page_directory == s.cr3 then s.cr3 else o.page_directory;
      },
      rw (
        update-ok s.current_task
            (λ u. record u { time_used = add32 u.time_used (elapsed_time s.last_time s.ticks) })
            s.tasks t cur_ne has,
        update-ok s.current_task (λ u. record u { kernel_stack_top = sub32 s.esp 16 }) m1 charged
            cur_ne charged_there,
        load-ok other m2 o other_ne still,
      ),
      record {
        current = refl;
        previous = refl;
        ready_to_run = refl;
        terminated = refl;
        links = λ a.
            next_of-put m1 s.current_task charged saved charged_there refl a
            ∙ next_of-put s.tasks s.current_task t charged has refl a;
        time = refl;
      },
      (saved, put_self m1 s.current_task saved, refl, refl),
      refl,
    )
