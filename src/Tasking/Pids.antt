-- ===== src/Tasking/Pids.antt =====
-- No operation of the scheduler changes what task stands where.
use torch_os.Base.{
  ◌≡◌, refl, ap, ◌∙◌, arith, ◌==◌, ℕ, Option, none, some, ok, Bool-cases, inl, inr, ==_iff, ◌>>=◌,
  Ensures, Ensures-then, Ensures-weaken, Ensures-anything, panic_if,
}
use torch_os.Tasking.{
  Queue, Scheduler, enqueue_task, update_time, switch_to_task_stub, switch_to_task, rotate,
  schedule, terminate_task,
}
use torch_os.Tasking.Store.{Ptr, null, Task, Tasks, put, found, load, update, with_next}
use torch_os.Tasking.Enqueue.{put_self, put_ne}

-- The pid of the task at an address, if there is one.
abbrev pub pid_of : Option Task → Option ℕ
pid_of none = none
pid_of (some t) = some t.pid

abbrev pub SamePids : Tasks → Tasks → Type 0
SamePids m m' = (a : Ptr) → pid_of (m' a) ≡ pid_of (m a)

pub SamePids-put :
    (m : Tasks) (p : Ptr) (t t' : Task) → m p ≡ some t → t'.pid ≡ t.pid → SamePids m (put m p t')
SamePids-put m p t t' e same a = elim (Bool-cases (a == p)) [
  | inl here ↦ let at = (==_iff a p).0 here in rw (at, put_self m p t', e, same)
  | inr other ↦ ap pid_of (put_ne m p a t' (λ e'. ground arith))
]

update-pids :
    (p : Ptr) (f : Task → Task) (m : Tasks)
    → ((t : Task) → (f t).pid ≡ t.pid)
    → Ensures (SamePids m) (update p f m)
unfolding update load found
update-pids p f m keeps = elim (Bool-cases (p == null)) [
  | inl none_there ↦ rw none_there tt
  | inr there ↦ rw there (go (m p) refl)
]
  where
    go : (o : Option Task) → m p ≡ o → Ensures (SamePids m) (do t ← found o; ok (put m p (f t)))
    go none e = tt
    go (some t) e = SamePids-put m p t (f t) e (keeps t)

pub enqueue_task-pids :
    (q : Queue) (p : Ptr) (m : Tasks) → Ensures (λ r. SamePids m r.1) (enqueue_task q p m)
unfolding enqueue_task
enqueue_task-pids q p m = elim (Bool-cases (q.head == null)) [
  | inl empty ↦ rw empty (λ a. refl)
  | inr more ↦ rw more (
      Ensures-then (SamePids m) (λ r. SamePids m r.1) (update q.tail (with_next p) m) _
        (update-pids q.tail (with_next p) m (λ t. refl))
        (λ m1 same.
          Ensures-then (SamePids m1) (λ r. SamePids m r.1) (update p (with_next null) m1) _
            (update-pids p (with_next null) m1 (λ t. refl)) (λ m2 same' a. same' a ∙ same a)))
]

abbrev Keeps : Scheduler → Scheduler → Type 0
Keeps s s' = SamePids s.tasks s'.tasks

update_time-pids : (s : Scheduler) → Ensures (Keeps s) (update_time s)
unfolding update_time
update_time-pids s =
    Ensures-then (SamePids s.tasks) (Keeps s) (update s.current_task _ s.tasks) _
      (update-pids s.current_task _ s.tasks (λ t. refl)) (λ m same. same)

switch_to_task_stub-pids : (p : Ptr) (s : Scheduler) → Ensures (Keeps s) (switch_to_task_stub p s)
unfolding switch_to_task_stub
switch_to_task_stub-pids p s =
    Ensures-then (SamePids s.tasks) (Keeps s) (update s.previous_task _ s.tasks) _
      (update-pids s.previous_task _ s.tasks (λ t. refl))
      (λ m same.
        Ensures-then (λ t. Unit {0}) (Keeps s) (load p m) _ (Ensures-anything (load p m))
          (λ t there. same))

switch_to_task-pids : (p : Ptr) (s : Scheduler) → Ensures (Keeps s) (switch_to_task p s)
unfolding switch_to_task
switch_to_task-pids p s =
    Ensures-then (Keeps s) (Keeps s) (update_time s) _ (update_time-pids s) (λ s1 same.
      let s2 : Scheduler = record s1 { previous_task = s1.current_task; current_task = p } in
      Ensures-weaken (Keeps s2) (Keeps s) (switch_to_task_stub p s2) (switch_to_task_stub-pids p s2)
        (λ s' same' a. same' a ∙ same a))

pub schedule-pids : (s : Scheduler) → Ensures (Keeps s) (schedule s)
unfolding schedule rotate
schedule-pids s =
    Ensures-then (λ t. Unit {0}) (Keeps s) (load s.current_task s.tasks) _ (Ensures-anything _)
      (λ t there. elim (Bool-cases (t.next_task == null)) [
        | inl alone ↦ rw alone (λ a. refl)
        | inr next ↦ rw next (
            Ensures-then (SamePids s.tasks) (Keeps s) (update s.current_task _ s.tasks) _
              (update-pids s.current_task _ s.tasks (λ u. refl))
              (λ m same.
                Ensures-then (λ r. SamePids m r.1) (Keeps s) (enqueue_task _ s.current_task m) _
                  (enqueue_task-pids _ s.current_task m)
                  (λ r same'.
                    let s1 : Scheduler = record s { ready_to_run = r.0; tasks = r.1 } in
                    Ensures-weaken (Keeps s1) (Keeps s) (switch_to_task t.next_task s1)
                      (switch_to_task-pids t.next_task s1)
                      (λ s' same'' a. same'' a ∙ same' a ∙ same a))))
      ])

pub terminate_task-pids : (s : Scheduler) → Ensures (Keeps s) (terminate_task s)
unfolding terminate_task
terminate_task-pids s =
    Ensures-then (λ t. Unit {0}) (Keeps s) (load s.current_task s.tasks) _ (Ensures-anything _)
      (λ t there.
        Ensures-then (λ u. Unit {0}) (Keeps s)
          (panic_if (t.pid == 0) "Attempt to terminate the kernel task!") _ (Ensures-anything _)
          (λ u there'.
            Ensures-then (SamePids s.tasks) (Keeps s) (update s.current_task _ s.tasks) _
              (update-pids s.current_task _ s.tasks (λ v. refl))
              (λ m same.
                Ensures-then (λ r. SamePids m r.1) (Keeps s)
                  (enqueue_task s.terminated s.current_task m) _
                  (enqueue_task-pids s.terminated s.current_task m)
                  (λ r same'.
                    let s1 : Scheduler = record s {
                      ready_to_run = record s.ready_to_run { head = t.next_task };
                      terminated = r.0;
                      tasks = r.1;
                    } in
                    Ensures-weaken (Keeps s1) (Keeps s) (switch_to_task t.next_task s1)
                      (switch_to_task-pids t.next_task s1)
                      (λ s' same'' a. same'' a ∙ same' a ∙ same a)))))
