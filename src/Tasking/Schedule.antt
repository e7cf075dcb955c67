-- ===== src/Tasking/Schedule.antt =====
-- `schedule` rotates the queue of ready tasks, and `terminate_task` takes its head out.
use torch_os.Base.{◌≡◌, ◌≢◌, refl, sym, ap, ◌∙◌, arith, ◌==◌, List, [], ◌∷◌, ◌++◌, some, ok, false}
use torch_os.Tasking.{Scheduler, enqueue_task, rotate, schedule}
use torch_os.Tasking.Store.{Ptr, null, Task, Tasks, put, ready_to_run_state, with_next}
use torch_os.Tasking.Links.{Distinct, last, Links, Links-same, Links-head, Distinct-snoc, last-snoc}
use torch_os.Tasking.Enqueue.{enqueue_task-Links, queue_at, update-ok, put_self, task_of_next}
use torch_os.Tasking.Switch.{load-ok, next_of-put, Switched, switch_to_task-Switched}

-- The queue of ready tasks is the current task `x`, at its head, and `xs` behind it.
pub record IsReady (s : Scheduler) (x : Ptr) (xs : List Ptr) : Type 0 where
  pub current : s.current_task ≡ x
  pub head : s.ready_to_run.head ≡ x
  pub tail : s.ready_to_run.tail ≡ last x xs
  pub links : Links s.tasks x xs
  pub distinct : Distinct (x ∷ xs)

-- A task alone goes on.
pub schedule-alone : (s : Scheduler) (x : Ptr) → IsReady s x [] → schedule s ≡ ok s
unfolding schedule
schedule-alone s x r =
    let (t, has, end) = task_of_next s.tasks x null r.links.0 r.links.1 in
    rw (r.current, load-ok x s.tasks t r.links.0 has, end)

-- The current task, which has a successor, is enqueued and the successor switched to.
schedule-step :
    (s : Scheduler) (y : Ptr) (t o : Task) (m : Tasks)
    → s.current_task ≢ null
    → y ≢ null
    → s.current_task ≢ y
    → s.tasks s.current_task ≡ some t
    → t.next_task ≡ y
    → enqueue_task
        (record s.ready_to_run { head = y })
        s.current_task
        (put s.tasks s.current_task (record t { state = ready_to_run_state }))
      ≡ ok (queue_at y s.current_task, m)
    → m s.current_task ≡ some (with_next null (record t { state = ready_to_run_state }))
    → m y ≡ some o
    → (s' : Scheduler) × (schedule s ≡ ok s')
      × Switched (record s { ready_to_run = queue_at y s.current_task; tasks = m }) y s'
unfolding schedule rotate
schedule-step s y t o m x_ne y_ne apart has to_y queued has_x has_y =
    let s1 : Scheduler = record s { ready_to_run = queue_at y s.current_task; tasks = m } in
    let (s', switched, at, _, _) =
      switch_to_task-Switched s1 y (with_next null (record t { state = ready_to_run_state })) o x_ne
        y_ne apart has_x has_y in
    let test : (y == null) ≡ false = ground arith in
    (
      s',
      rw (
        load-ok s.current_task s.tasks t x_ne has,
        to_y,
        test,
        update-ok s.current_task (λ u. record u { state = ready_to_run_state }) s.tasks t x_ne has,
        queued,
        switched,
      ),
      at,
    )

-- When the current task heads the queue of ready tasks and another waits behind it, `schedule`
-- returns, the next task is current, and the queue, whatever its length, is the old one rotated by
-- one place; the queue of terminated tasks is kept.
pub schedule-rotates :
    (s : Scheduler) (x y : Ptr) (ys : List Ptr)
    → IsReady s x (y ∷ ys)
    → (s' : Scheduler) × (schedule s ≡ ok s')
      × IsReady s' y (ys ++ x ∷ [])
      × (s'.previous_task ≡ x)
      × (s'.terminated ≡ s.terminated)
schedule-rotates s x y ys r =
    let x_ne = r.links.0 in
    let (t, has, to_y) = task_of_next s.tasks x y x_ne r.links.1 in
    let ready : Task = record t { state = ready_to_run_state } in
    let m1 = put s.tasks x ready in
    let links1 = Links-same s.tasks m1 y ys (next_of-put s.tasks x t ready has refl) r.links.2 in
    let (m2, enqueued, links2, has_x, _) =
      enqueue_task-Links m1 y ys x ready links1 r.distinct.1 r.distinct.0 x_ne
        (put_self s.tasks x ready) in
    let (y_ne, (q, y_next)) = Links-head m2 y (ys ++ x ∷ []) links2 in
    let (o, has_y, _) = task_of_next m2 y q y_ne y_next in
    let (s', switched, at) =
      schedule-step s y t o m2 (rw r.current x_ne) y_ne (rw r.current r.distinct.0.0)
        (rw r.current has) to_y (rw (r.current, r.tail) enqueued) (rw r.current has_x) has_y in
    (
      s',
      switched,
      record {
        current = at.current;
        head = ap (λ q. q.head) at.ready_to_run;
        tail = ap (λ q. q.tail) at.ready_to_run ∙ r.current ∙ sym (last-snoc y x ys);
        links = Links-same m2 s'.tasks y (ys ++ x ∷ []) at.links links2;
        distinct = Distinct-snoc x (y ∷ ys) r.distinct.0 r.distinct.1;
      },
      at.previous ∙ r.current,
      at.terminated,
    )
