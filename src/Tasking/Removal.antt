-- ===== src/Tasking/Removal.antt =====
-- `terminate_task` takes the current task out of the ready queue, whatever has ended before.
use torch_os.Base.{
  ℕ, ◌≡◌, ◌≢◌, inl, inr, refl, sym, ap, ◌∙◌, arith, ◌==◌, List, ◌∷◌, Option, none, some, ok, false,
}
use torch_os.Tasking.{Scheduler, enqueue_task, terminate_task}
use torch_os.Tasking.Store.{Ptr, null, Task, Tasks, put, with_next, terminated_state}
use torch_os.Tasking.Links.{next_of, NotIn, Links-same, Links-head, Links-frame}
use torch_os.Tasking.Enqueue.{queue_at, update-ok, put_self, put_ne, task_of_next, SameBut}
use torch_os.Tasking.Switch.{next_of-put}
use torch_os.Tasking.Schedule.{IsReady}
use torch_os.Tasking.Terminate.{terminate_task-step, terminate_task-Leads}
use torch_os.Tasking.Pids.{pid_of}
use torch_os.Tasking.System.{Ended}

-- Joining a task behind the tail of a queue, whatever its head leads to.
enqueue_task-tail :
    (m : Tasks) (z w p : Ptr) (u t : Task)
    → z ≢ null
    → w ≢ null
    → p ≢ null
    → w ≢ p
    → m w ≡ some u
    → m p ≡ some t
    → (m' : Tasks) × (enqueue_task (queue_at z w) p m ≡ ok (queue_at z p, m'))
      × (m' p ≡ some (with_next null t))
      × SameBut m m' w p
unfolding enqueue_task
enqueue_task-tail m z w p u t z_ne w_ne p_ne apart has_w has_p =
    let test : (z == null) ≡ false = ground arith in
    let m1 = put m w (with_next p u) in
    let kept : m1 p ≡ some t = put_ne m w p (with_next p u) (λ e. apart (sym e)) ∙ has_p in
    (
      put m1 p (with_next null t),
      rw (
        test,
        update-ok w (with_next p) m u w_ne has_w,
        update-ok p (with_next null) m1 t p_ne kept,
      ),
      put_self m1 p (with_next null t),
      λ a na nb. put_ne m1 p a (with_next null t) nb ∙ put_ne m w a (with_next p u) na,
    )

-- The task of an address with a pid.
task_of_pid :
    (m : Tasks) (p : Ptr) (pid : ℕ)
    → pid_of (m p) ≡ some pid
    → (t : Task) × (m p ≡ some t) × (t.pid ≡ pid)
task_of_pid m p pid e = go (m p) refl e
  where
    go :
        (o : Option Task)
        → m p ≡ o
        → pid_of o ≡ some pid
        → (t : Task) × (m p ≡ some t) × (t.pid ≡ pid)
    go none found e' = cc
    go (some t) found e' = (t, found, ground arith)

-- A task that is not the kernel's, ahead of another.
module _ (s : Scheduler) (x y : Ptr) (ys : List Ptr) (t : Task) (r : IsReady s x (y ∷ ys))
    (has : s.tasks x ≡ some t) (user : t.pid ≢ 0) where
  x_ne : x ≢ null
  x_ne = r.links.0

  to_y : t.next_task ≡ y
  to_y =
      let (t', has', to_y') = task_of_next s.tasks x y x_ne r.links.1 in
      ap (λ o. elim o as (λ _. Ptr) [ none ↦ y | some u ↦ u.next_task ]) (sym has ∙ has') ∙ to_y'

  abbrev stopped : Task
  stopped = record t { state = terminated_state }

  -- behind the tail `w` of the terminated queue
  removed_behind :
      (z w : Ptr) (u : Task)
      → s.terminated ≡ queue_at z w
      → z ≢ null
      → w ≢ null
      → s.tasks w ≡ some u
      → NotIn w (x ∷ y ∷ ys)
      → (s' : Scheduler) × (terminate_task s ≡ ok s')
        × IsReady s' y ys
        × (s'.terminated ≡ queue_at z x)
  removed_behind z w u queue z_ne w_ne has_w out =
      let m1 = put s.tasks x stopped in
      let same = next_of-put s.tasks x t stopped has refl in
      let (m2, queued, has_x, others) =
        enqueue_task-tail m1 z w x u stopped z_ne w_ne x_ne out.0
          (put_ne s.tasks x w stopped out.0 ∙ has_w) (put_self s.tasks x stopped) in
      let ready2 =
        Links-frame m1 m2 w x y ys (λ a na nb. ap next_of (others a na nb)) out.1 r.distinct.0
          (Links-same s.tasks m1 y ys same r.links.2) in
      let (y_ne, (q, y_next)) = Links-head m2 y ys ready2 in
      let (o, has_y, _) = task_of_next m2 y q y_ne y_next in
      let (s', switched, at) =
        terminate_task-step s y t (with_next null stopped) o (queue_at z x) m2 (rw r.current x_ne)
          y_ne (rw r.current r.distinct.0.0) (rw r.current has) user to_y
          (rw (r.current, queue) queued) (rw r.current has_x) has_y in
      (
        s',
        switched,
        record {
          current = at.current;
          head = ap (λ q. q.head) at.ready_to_run;
          tail = ap (λ q. q.tail) at.ready_to_run ∙ r.tail;
          links = Links-same m2 s'.tasks y ys at.links ready2;
          distinct = r.distinct.1;
        },
        at.terminated,
      )

  pub terminate_task-removes :
      Ended s.tasks s.terminated (x ∷ y ∷ ys)
      → (s' : Scheduler) × (terminate_task s ≡ ok s')
        × IsReady s' y ys
        × ((z : Ptr) × (s'.terminated ≡ queue_at z x) × (z ≢ null))
  terminate_task-removes (inl empty) =
      let (s', returns, r', queue, _, _) = terminate_task-Leads s x y ys t r has user empty in
      (s', returns, r', (x, queue, x_ne))
  terminate_task-removes (inr (z, w, queue, z_ne, w_ne, there, out)) =
      let (u, has_w, _) = task_of_pid s.tasks w there.0 there.1 in
      let (s', returns, r', queue') = removed_behind z w u queue z_ne w_ne has_w out in
      (s', returns, r', (z, queue', z_ne))
