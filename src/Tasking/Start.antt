-- ===== src/Tasking/Start.antt =====
-- `init_tasking` up to its loop: three tasks are ready, the kernel's first.
use torch_os.Base.{ℕ, ◌≡◌, [], ◌∷◌, some, Outcome, ok, panic, String}
use torch_os.Base.Text.{codes}
use torch_os.Memory.Heap.Grow.{IsHeap}
use torch_os.Tasking.{Scheduler}
use torch_os.Tasking.Store.{Ptr, null}
use torch_os.Tasking.Enqueue.{queue_at}
use torch_os.Tasking.Pids.{pid_of}
use torch_os.Tasking.System.{IsSystem}
use torch_os.Tasking.Create.{Kernel, create_kernel_task, enqueue_ready, add_task}
use torch_os.Tasking.Created.{Creates, NoMemory, Created}
use torch_os.Tasking.Join.{Populated, Joins, full as no_room}

-- What `init_tasking` leaves: the kernel's task is current, `b` and `c` wait.
pub record Starts (directory : ℕ) (k : Kernel) (a b c : Ptr) : Type 0 where
  pub heap : IsHeap directory k.machine
  pub system : IsSystem a k.scheduler a (b ∷ c ∷ [])
  pub second : pid_of (k.scheduler.tasks b) ≡ some 1
  pub third : pid_of (k.scheduler.tasks c) ≡ some 2
  pub none_ended : k.scheduler.terminated ≡ queue_at null null

-- The states in which `init_tasking` makes a task, on the way from `k`.
pub data Makes (directory task1 : ℕ) (k : Kernel) : Kernel → Type 0 where
  makes_kernel : Makes directory task1 k k
  makes_first :
      {task : Ptr} {k1 : Kernel} {s : Scheduler}
      → create_kernel_task directory (codes "kernel") null k ≡ ok (task, k1)
      → enqueue_ready task (record k1.scheduler { current_task = task }) ≡ ok s
      → Makes directory task1 k (record k1 { scheduler = s })
  makes_second :
      {k1 k2 : Kernel}
      → Makes directory task1 k k1
      → add_task directory (codes "task1") task1 k1 ≡ ok k2
      → Makes directory task1 k k2

pub data Started (directory task1 : ℕ) (k0 : Kernel) : Outcome Kernel → Type 0 where
  started :
      {k : Kernel} (a b c : Ptr) → Starts directory k a b c → Started directory task1 k0 (ok k)
  -- there is no memory for one of the three tasks
  full :
      {k : Kernel} {message : String}
      → Makes directory task1 k0 k
      → NoMemory directory k.machine message
      → Started directory task1 k0 (panic message)

-- The three tasks, one after the other.
module _ (directory a : ℕ) (k2 : Kernel) (p2 : Populated directory k2 a [])
    (zero_pid : pid_of (k2.scheduler.tasks a) ≡ some 0) (one : k2.scheduler.next_available_pid ≡ 1)
    (none_ended : k2.scheduler.terminated ≡ queue_at null null) (task1 : ℕ) (k0 : Kernel)
    (makes : Makes directory task1 k0 k2) where
  abbrev b : Ptr
  b = k2.machine.heap_current

  module _ (k3 : Kernel) (j3 : Joins directory k2 k3 a [] b) where
    abbrev c : Ptr
    c = k3.machine.heap_current

-- The kernel's task, which joins an empty queue.
module _ (directory : ℕ) (k k1 : Kernel) (h : IsHeap directory k.machine)
    (empty : k.scheduler.ready_to_run ≡ queue_at null null)
    (none_ended : k.scheduler.terminated ≡ queue_at null null)
    (zero_next : k.scheduler.next_available_pid ≡ 0)
    (cr : Creates directory null k k1 k.machine.heap_current) where
  abbrev a : Ptr
  a = k.machine.heap_current

  abbrev alone : Kernel
  alone = record k1 {
    scheduler = record k1.scheduler { current_task = a; ready_to_run = queue_at a a };
  }
