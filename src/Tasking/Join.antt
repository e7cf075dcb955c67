-- ===== src/Tasking/Join.antt =====
-- `add_task`: a new task joins the ready ones, or there is no memory for it.
use torch_os.Base.{
  ℕ, ◌+◌, ◌^◌, ◌≤◌, ◌<◌, ◌≡◌, ◌≢◌, refl, sym, ap, ap₂, ◌∙◌, arith, List, [], ◌∷◌, ◌++◌, some, add32,
  Outcome, ok, panic, ◌>>=◌, String, Ensures-ok,
}
use torch_os.Memory.Heap.Grow.{IsHeap}
use torch_os.Tasking.{enqueue_task}
use torch_os.Tasking.Store.{Ptr}
use torch_os.Tasking.Links.{next_of, NotIn, last, Links, Links-frame, Distinct-snoc, last-snoc}
use torch_os.Tasking.Enqueue.{enqueue_task-Links, queue_at}
use torch_os.Tasking.Schedule.{IsReady}
use torch_os.Tasking.Pids.{pid_of, SamePids, enqueue_task-pids}
use torch_os.Tasking.Create.{Kernel, enqueue_ready, add_task}
use torch_os.Tasking.Created.{
  Creates, NoMemory, Created, created, no_memory, create_kernel_task-Created,
}

-- Addresses below `n`.
abbrev pub Under : ℕ → List Ptr → Type 0
Under n [] = Unit {0}
Under n (x ∷ xs) = (x < n) × Under n xs

Under-NotIn : (n : ℕ) (xs : List Ptr) → Under n xs → NotIn n xs
Under-NotIn n [] under = tt
Under-NotIn n (x ∷ xs) under = (omega (arith, under.0), Under-NotIn n xs under.1)

-- The ready tasks stand on the heap.
pub record Populated (directory : ℕ) (k : Kernel) (x : Ptr) (xs : List Ptr) : Type 0 where
  pub heap : IsHeap directory k.machine
  pub ready : IsReady k.scheduler x xs
  pub under : Under k.machine.heap_current (x ∷ xs)

-- From `k` to `k'` a task has joined the ready ones, at `p`.
pub record Joins (directory : ℕ) (k k' : Kernel) (x : Ptr) (xs : List Ptr) (p : Ptr) : Type 0 where
  pub heap : IsHeap directory k'.machine
  pub ready : IsReady k'.scheduler x (xs ++ p ∷ [])
  pub moved : k'.machine.heap_current ≡ p + 4140
  pub pids : (a : Ptr) → a ≢ p → pid_of (k'.scheduler.tasks a) ≡ pid_of (k.scheduler.tasks a)
  pub pid : pid_of (k'.scheduler.tasks p) ≡ some k.scheduler.next_available_pid
  pub next_pid : k'.scheduler.next_available_pid ≡ add32 k.scheduler.next_available_pid 1
  pub terminated : k'.scheduler.terminated ≡ k.scheduler.terminated

pub data Joined (directory : ℕ) (k : Kernel) (x : Ptr) (xs : List Ptr)
    : Outcome Kernel → Type 0 where
  joined :
      {k' : Kernel}
      → Joins directory k k' x xs k.machine.heap_current
      → Joined directory k x xs (ok k')
  full :
      {message : String}
      → NoMemory directory k.machine message
      → Joined directory k x xs (panic message)

-- The task that was made at the top of the heap joins the ready ones.
module _ (directory start_eip : ℕ) (k k1 : Kernel) (x : Ptr) (xs : List Ptr)
    (p : Populated directory k x xs)
    (c : Creates directory start_eip k k1 k.machine.heap_current) where
  abbrev new : Ptr
  new = k.machine.heap_current

  apart : NotIn new (x ∷ xs)
  apart = Under-NotIn new (x ∷ xs) p.under

  links1 : Links k1.scheduler.tasks x xs
  links1 =
      Links-frame k.scheduler.tasks k1.scheduler.tasks new new x xs
        (λ a ne ne'. ap next_of (c.other_tasks a ne)) apart apart p.ready.links

  queue1 : k1.scheduler.ready_to_run ≡ queue_at x (last x xs)
  queue1 = ap (λ s. s.ready_to_run) c.rest ∙ ap₂ queue_at p.ready.head p.ready.tail

  enqueue_ready-Joins :
      (k' : Kernel) × ((do s ← enqueue_ready new k1.scheduler; ok (record k1 { scheduler = s }))
        ≡ ok k')
      × Joins directory k k' x xs new
  unfolding enqueue_ready
  enqueue_ready-Joins =
      let (t, has, fresh) = c.block in
      let start = p.heap.start in
      let (m2, queued, links2, has2, others) =
        enqueue_task-Links k1.scheduler.tasks x xs new t links1 p.ready.distinct apart (omega arith)
          has in
      let same =
        Ensures-ok (λ r. SamePids k1.scheduler.tasks r.1)
          (enqueue_task (queue_at x (last x xs)) new k1.scheduler.tasks) (queue_at x new, m2)
          (enqueue_task-pids (queue_at x (last x xs)) new k1.scheduler.tasks) queued in
      (
        record k1 { scheduler = record k1.scheduler { ready_to_run = queue_at x new; tasks = m2 } },
        rw (queue1, queued) refl,
        record {
          heap = c.heap;
          ready = record {
            current = ap (λ s. s.current_task) c.rest ∙ p.ready.current;
            head = refl;
            tail = sym (last-snoc x new xs);
            links = links2;
            distinct = Distinct-snoc new (x ∷ xs) apart p.ready.distinct;
          };
          moved = c.moved;
          pids = λ a ne. same a ∙ ap pid_of (c.other_tasks a ne);
          pid = same new ∙ ap pid_of has ∙ ap some fresh.pid_is;
          next_pid = ap (λ s. s.next_available_pid) c.rest;
          terminated = ap (λ s. s.terminated) c.rest;
        },
      )

module _ (directory start_eip : ℕ) (k : Kernel) (x : Ptr) (xs : List Ptr)
    (p : Populated directory k x xs) where
  Created-Joined :
      {r : Outcome (Ptr × Kernel)}
      → Created directory start_eip k r
      → Joined directory k x xs
          (do (task, k1) ← r; s ← enqueue_ready task k1.scheduler; ok (record k1 { scheduler = s }))
  Created-Joined (created {k' = k1} c) =
      let (k2, e, joins) = enqueue_ready-Joins directory start_eip k k1 x xs p c in
      rw e (joined joins)
  Created-Joined (no_memory why) = full why

  pub add_task-Joined :
      (name : List ℕ)
      → start_eip < 2 ^ 32
      → Joined directory k x xs (add_task directory name start_eip k)
  unfolding add_task
  add_task-Joined name small =
      Created-Joined (create_kernel_task-Created directory name start_eip k small p.heap)

Under-snoc : (n n' p : ℕ) (xs : List Ptr) → Under n xs → n ≤ n' → p < n' → Under n' (xs ++ p ∷ [])
Under-snoc n n' p [] under up low = (low, tt)
Under-snoc n n' p (x ∷ xs) under up low =
    (omega (arith, under.0), Under-snoc n n' p xs under.1 up low)

pub joined-Populated :
    (directory : ℕ) (k k' : Kernel) (x : Ptr) (xs : List Ptr)
    → Populated directory k x xs
    → Joins directory k k' x xs k.machine.heap_current
    → Populated directory k' x (xs ++ k.machine.heap_current ∷ [])
joined-Populated directory k k' x xs p j = record {
  heap = j.heap;
  ready = j.ready;
  under =
      Under-snoc k.machine.heap_current k'.machine.heap_current k.machine.heap_current (x ∷ xs)
        p.under (omega (arith, j.moved)) (omega (arith, j.moved));
}
