-- ===== src/Tasking/Calls.antt =====
-- `schedule` and `terminate_task` on a system, and what they leave.
use torch_os.Base.{
  ℕ, ◌≡◌, ◌≢◌, ◌⊎◌, inl, inr, refl, sym, ap, ◌∙◌, subst, arith, ◌==◌, List, [], ◌∷◌, ◌++◌, none,
  some, ok, panic, Bool-cases, Ensures-ok, some-injective, Option,
}
use torch_os.Tasking.{Queue, Scheduler, schedule, terminate_task}
use torch_os.Tasking.Store.{Ptr, Task, Tasks}
use torch_os.Tasking.Links.{NotIn, Links, Links-head}
use torch_os.Tasking.Enqueue.{task_of_next}
use torch_os.Tasking.Switch.{load-ok}
use torch_os.Tasking.Schedule.{IsReady, schedule-alone, schedule-rotates}
use torch_os.Tasking.Pids.{pid_of, SamePids, schedule-pids, terminate_task-pids}
use torch_os.Tasking.System.{In-snoc, In-unsnoc, NotIn-snoc, Ended, IsSystem}
use torch_os.Tasking.Removal.{terminate_task-removes}

abbrev pub IsRunnable : Ptr → Scheduler → Type 0
IsRunnable kernel s = (x : Ptr) × (xs : List Ptr) × IsSystem kernel s x xs

Ended-same :
    (m m' : Tasks) (q q' : Queue) (xs xs' : List Ptr)
    → SamePids m m'
    → q' ≡ q
    → ((w : Ptr) → NotIn w xs → NotIn w xs')
    → Ended m q xs
    → Ended m' q' xs'
Ended-same m m' q q' xs xs' same e out (inl empty) = inl (e ∙ empty)
Ended-same m m' q q' xs xs' same e out (inr (z, w, queue, z_ne, w_ne, (pid, there), apart)) =
    inr (z, w, e ∙ queue, z_ne, w_ne, (pid, same w ∙ there), out w apart)

pub pid_zero-or_not : (o : Option ℕ) → (o ≡ some 0) ⊎ (o ≢ some 0)
pid_zero-or_not none = inr (λ e. cc)
pid_zero-or_not (some pid) = elim (Bool-cases (pid == 0)) [
  | inl z ↦ inl (ap some (ground arith))
  | inr other ↦ inr (λ e. let same = some-injective _ _ e in ground arith)
]

-- What is not a task or a queue does not matter.
pub IsSystem-same :
    (kernel : Ptr) (s s' : Scheduler) (x : Ptr) (xs : List Ptr)
    → IsSystem kernel s x xs
    → s'.tasks ≡ s.tasks
    → s'.current_task ≡ s.current_task
    → s'.ready_to_run ≡ s.ready_to_run
    → s'.terminated ≡ s.terminated
    → IsSystem kernel s' x xs
IsSystem-same kernel s s' x xs sys tasks current ready ended = record {
  ready = record {
    current = current ∙ sys.ready.current;
    head = ap (λ q. q.head) ready ∙ sys.ready.head;
    tail = ap (λ q. q.tail) ready ∙ sys.ready.tail;
    links = subst (λ m. Links m x xs) (sym tasks) sys.ready.links;
    distinct = sys.ready.distinct;
  };
  present = sys.present;
  pid = ap (λ m. pid_of (m kernel)) tasks ∙ sys.pid;
  only = λ a here zero_pid. sys.only a here (ap (λ m. pid_of (m a)) (sym tasks) ∙ zero_pid);
  ended =
      Ended-same s.tasks s'.tasks s.terminated s'.terminated (x ∷ xs) (x ∷ xs)
        (λ a. ap (λ m. pid_of (m a)) tasks) ended (λ w out. out) sys.ended;
}

module _ (kernel : Ptr) where
  -- The call of a system's `schedule`.
  pub schedule-IsSystem :
      (s : Scheduler) (x : Ptr) (xs : List Ptr)
      → IsSystem kernel s x xs
      → (s' : Scheduler) × (schedule s ≡ ok s') × IsRunnable kernel s'
  schedule-IsSystem s x [] sys = (s, schedule-alone s x sys.ready, (x, [], sys))
  schedule-IsSystem s x (y ∷ ys) sys =
      let (s', returns, r', _, ended) = schedule-rotates s x y ys sys.ready in
      let same =
        Ensures-ok (λ s1. SamePids s.tasks s1.tasks) (schedule s) s' (schedule-pids s) returns in
      (
        s',
        returns,
        (
          y,
          ys ++ x ∷ [],
          record {
            ready = r';
            present = In-snoc kernel x (y ∷ ys) sys.present;
            pid = same kernel ∙ sys.pid;
            only = λ a here zero_pid.
                sys.only a (In-unsnoc a x (y ∷ ys) here) (sym (same a) ∙ zero_pid);
            ended =
                Ended-same s.tasks s'.tasks s.terminated s'.terminated (x ∷ y ∷ ys)
                  (y ∷ ys ++ x ∷ []) same ended (λ w. NotIn-snoc w x (y ∷ ys)) sys.ended;
          },
        ),
      )

  -- The current task.
  current_task-there :
      (s : Scheduler) (x : Ptr) (xs : List Ptr) → IsReady s x xs → (t : Task) × (s.tasks x ≡ some t)
  current_task-there s x xs r =
      let (x_ne, (q, leads)) = Links-head s.tasks x xs r.links in
      let (t, has, _) = task_of_next s.tasks x q x_ne leads in (t, has)

  -- The call of its `terminate_task`, by the current task.
  pub terminate_task-kernel :
      (s : Scheduler) (x : Ptr) (xs : List Ptr)
      → IsSystem kernel s x xs
      → pid_of (s.tasks s.current_task) ≡ some 0
      → terminate_task s ≡ panic "Attempt to terminate the kernel task!"
  unfolding terminate_task
  terminate_task-kernel s x xs sys zero_pid =
      let (t, has) = current_task-there s x xs sys.ready in
      let x_ne = (Links-head s.tasks x xs sys.ready.links).0 in
      let zero_it : t.pid ≡ 0 =
        some-injective _ _ (ap pid_of (sym has) ∙ rw sys.ready.current at zero_pid) in
      rw (sys.ready.current, load-ok x s.tasks t x_ne has, zero_it) refl

  pub terminate_task-IsSystem :
      (s : Scheduler) (x : Ptr) (xs : List Ptr)
      → IsSystem kernel s x xs
      → pid_of (s.tasks s.current_task) ≢ some 0
      → (s' : Scheduler) × (terminate_task s ≡ ok s') × IsRunnable kernel s'
  terminate_task-IsSystem s x [] sys user = elim sys.present [
    | inl it ↦ absurd (user (ap (λ p. pid_of (s.tasks p)) (sys.ready.current ∙ sym it) ∙ sys.pid))
    | inr none_left ↦ absurd none_left
  ]
  terminate_task-IsSystem s x (y ∷ ys) sys user =
      let (t, has) = current_task-there s x (y ∷ ys) sys.ready in
      let mine : pid_of (s.tasks s.current_task) ≡ some t.pid =
        ap (λ p. pid_of (s.tasks p)) sys.ready.current ∙ ap pid_of has in
      let (s', returns, r', (z, queue, z_ne)) =
        terminate_task-removes s x y ys t sys.ready has (λ e. user (mine ∙ ap some e)) sys.ended in
      let same =
        Ensures-ok (λ s1. SamePids s.tasks s1.tasks) (terminate_task s) s' (terminate_task-pids s)
          returns in
      (
        s',
        returns,
        (
          y,
          ys,
          record {
            ready = r';
            present = elim sys.present [
              | inl it ↦
                  absurd
                    (user (ap (λ p. pid_of (s.tasks p)) (sys.ready.current ∙ sym it) ∙ sys.pid))
              | inr later ↦ later
            ];
            pid = same kernel ∙ sys.pid;
            only = λ a here zero_pid. sys.only a (inr here) (sym (same a) ∙ zero_pid);
            ended = inr (
              z,
              x,
              queue,
              z_ne,
              sys.ready.links.0,
              (t.pid, same x ∙ ap pid_of has),
              sys.ready.distinct.0,
            );
          },
        ),
      )
