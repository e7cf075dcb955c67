-- ===== src/Tasking/Terminate.antt =====
-- `terminate_task` takes the head out of the queue of ready tasks.
use torch_os.Base.{
  ◌≡◌, ◌≢◌, refl, sym, ap, ◌∙◌, arith, ◌==◌, List, [], ◌∷◌, ◌++◌, none, some, ok, false,
}
use torch_os.Tasking.{Queue, Scheduler, enqueue_task, terminate_task}
use torch_os.Tasking.Store.{Ptr, null, Task, Tasks, put, with_next, terminated_state}
use torch_os.Tasking.Links.{
  next_of, NotIn, Distinct, last, Links, Links-same, Links-head, Links-frame, NotIn-last,
}
use torch_os.Tasking.Enqueue.{enqueue_task-Links, queue_at, update-ok, put_self, task_of_next}
use torch_os.Tasking.Switch.{load-ok, next_of-put, Switched, switch_to_task-Switched}
use torch_os.Tasking.Schedule.{IsReady}

-- The current task, which is not the kernel's, has its state set, is enqueued, and its successor is
-- switched to.
pub terminate_task-step :
    (s : Scheduler) (y : Ptr) (t t' o : Task) (q : Queue) (m : Tasks)
    → s.current_task ≢ null
    → y ≢ null
    → s.current_task ≢ y
    → s.tasks s.current_task ≡ some t
    → t.pid ≢ 0
    → t.next_task ≡ y
    → enqueue_task s.terminated s.current_task
        (put s.tasks s.current_task (record t { state = terminated_state }))
      ≡ ok (q, m)
    → m s.current_task ≡ some t'
    → m y ≡ some o
    → (s' : Scheduler) × (terminate_task s ≡ ok s')
      × Switched
          (record s {
            ready_to_run = record s.ready_to_run { head = y };
            terminated = q;
            tasks = m;
          })
          y
          s'
unfolding terminate_task
terminate_task-step s y t t' o q m x_ne y_ne apart has user to_y queued has_x has_y =
    let s1 : Scheduler = record s {
      ready_to_run = record s.ready_to_run { head = y };
      terminated = q;
      tasks = m;
    } in
    let (s', switched, at, _, _) = switch_to_task-Switched s1 y t' o x_ne y_ne apart has_x has_y in
    let test : (t.pid == 0) ≡ false = ground arith in
    (
      s',
      rw (
        load-ok s.current_task s.tasks t x_ne has,
        test,
        to_y,
        update-ok s.current_task (λ u. record u { state = terminated_state }) s.tasks t x_ne has,
        queued,
        switched,
      ),
      at,
    )

-- If the current task is not the kernel's, another is ready behind it, and the queue of terminated
-- tasks is a non-empty chain apart from the ready ones, `terminate_task` takes the head out of the
-- ready queue, appends it to the terminated one, and the next task runs.
pub terminate_task-IsReady :
    (s : Scheduler) (x y z : Ptr) (ys zs : List Ptr) (t : Task)
    → IsReady s x (y ∷ ys)
    → s.tasks x ≡ some t
    → t.pid ≢ 0
    → s.terminated ≡ queue_at z (last z zs)
    → Links s.tasks z zs
    → Distinct (z ∷ zs)
    → NotIn x (z ∷ zs)
    → NotIn (last z zs) (y ∷ ys)
    → (s' : Scheduler) × (terminate_task s ≡ ok s')
      × IsReady s' y ys
      × (s'.terminated ≡ queue_at z x)
      × Links s'.tasks z (zs ++ x ∷ [])
terminate_task-IsReady s x y z ys zs t r has user queue ended distinct out apart =
    let x_ne = r.links.0 in
    let (t', has', to_y') = task_of_next s.tasks x y x_ne r.links.1 in
    let to_y : t.next_task ≡ y =
      ap (λ o. elim o as (λ _. Ptr) [ none ↦ y | some u ↦ u.next_task ]) (sym has ∙ has') ∙ to_y' in
    let stopped : Task = record t { state = terminated_state } in
    let m1 = put s.tasks x stopped in
    let same = next_of-put s.tasks x t stopped has refl in
    let (m2, queued, links2, has_x, others) =
      enqueue_task-Links m1 z zs x stopped (Links-same s.tasks m1 z zs same ended) distinct out x_ne
        (put_self s.tasks x stopped) in
    let ready2 =
      Links-frame m1 m2 (last z zs) x y ys (λ a na nb. ap next_of (others a na nb)) apart
        r.distinct.0 (Links-same s.tasks m1 y ys same r.links.2) in
    let (y_ne, (q, y_next)) = Links-head m2 y ys ready2 in
    let (o, has_y, _) = task_of_next m2 y q y_ne y_next in
    let (s', switched, at) =
      terminate_task-step s y t (with_next null stopped) o (queue_at z x) m2 (rw r.current x_ne)
        y_ne (rw r.current r.distinct.0.0) (rw r.current has) user to_y
        (rw (r.current, queue) queued) (rw r.current has_x) has_y in
    (
      s',
      switched,
      record {
        current = at.current;
        head = ap (λ q. q.head) at.ready_to_run;
        tail = ap (λ q. q.tail) at.ready_to_run ∙ r.tail;
        links = Links-same m2 s'.tasks y ys at.links ready2;
        distinct = r.distinct.1;
      },
      at.terminated,
      Links-same m2 s'.tasks z (zs ++ x ∷ []) at.links links2,
    )

-- When the first task is terminated while another is ready, it is put into the queue of terminated
-- tasks with its old pointer: from that queue's head the pointers lead through every ready task,
-- past the queue's tail.
pub terminate_task-Leads :
    (s : Scheduler) (x y : Ptr) (ys : List Ptr) (t : Task)
    → IsReady s x (y ∷ ys)
    → s.tasks x ≡ some t
    → t.pid ≢ 0
    → s.terminated ≡ queue_at null null
    → (s' : Scheduler) × (terminate_task s ≡ ok s')
      × IsReady s' y ys
      × (s'.terminated ≡ queue_at x x)
      × Links s'.tasks x (y ∷ ys)
      × (x ≢ last y ys)
unfolding enqueue_task
terminate_task-Leads s x y ys t r has user queue =
    let x_ne = r.links.0 in
    let (t', has', to_y') = task_of_next s.tasks x y x_ne r.links.1 in
    let to_y : t.next_task ≡ y =
      ap (λ o. elim o as (λ _. Ptr) [ none ↦ y | some u ↦ u.next_task ]) (sym has ∙ has') ∙ to_y' in
    let stopped : Task = record t { state = terminated_state } in
    let m1 = put s.tasks x stopped in
    let chain1 =
      Links-same s.tasks m1 x (y ∷ ys) (next_of-put s.tasks x t stopped has refl) r.links in
    let (y_ne, (q, y_next)) = Links-head m1 y ys chain1.2 in
    let (o, has_y, _) = task_of_next m1 y q y_ne y_next in
    let (s', switched, at) =
      terminate_task-step s y t stopped o (queue_at x x) m1 (rw r.current x_ne) y_ne
        (rw r.current r.distinct.0.0) (rw r.current has) user to_y (rw (queue, r.current) refl)
        (rw r.current (put_self s.tasks x stopped)) has_y in
    let chain = Links-same m1 s'.tasks x (y ∷ ys) at.links chain1 in
    (
      s',
      switched,
      record {
        current = at.current;
        head = ap (λ q. q.head) at.ready_to_run;
        tail = ap (λ q. q.tail) at.ready_to_run ∙ r.tail;
        links = chain.2;
        distinct = r.distinct.1;
      },
      at.terminated,
      chain,
      NotIn-last x y ys r.distinct.0,
    )
