-- ===== src/Tasking/Create.antt =====
-- Making tasks: `create_kernel_task` on the heap, and `init_tasking` up to its loop.
use torch_os.Base.{ℕ, ◌+◌, ◌-◌, ◌*◌, ◌==◌, if◌then◌else◌, add32, List, Outcome, ok, ◌>>=◌}
use torch_os.Base.Text.{codes}
use torch_os.Memory.Machine.{Machine}
use torch_os.Memory.Virtual.{read_word, write_word}
use torch_os.Memory.Heap.{heap_allocate}
use torch_os.Tasking.{Scheduler, enqueue_task}
use torch_os.Tasking.Store.{Ptr, null, Task, put, ready_to_run_state}

-- The state of memory.c and of tasking.c.
pub record Kernel : Type 0 where
  pub machine : Machine
  pub scheduler : Scheduler

-- `sizeof(process_t)`, and the place of `time_used` in it
abbrev pub process_size : ℕ
process_size = 44

abbrev pub time_used_offset : ℕ
time_used_offset = 40

-- `if (start_eip != NULL)`: the stack's pointer behind it, and memory.
unfoldable pub push_start : (start_eip kernel_stack_top : ℕ) → Machine → Outcome (ℕ × Machine)
push_start start_eip kernel_stack_top m =
    if start_eip == null
    then ok (kernel_stack_top, m)
    else (do m1 ← write_word kernel_stack_top start_eip m; ok (kernel_stack_top - 4 * 4, m1))

-- The part behind the second allocation. `time_used` is not written: it is what the new block
-- holds.
unfoldable pub fill_in :
    (directory start_eip pid task time_used stack_area : ℕ) → Kernel → Outcome (Ptr × Kernel)
unfolding push_start
fill_in directory start_eip pid task time_used stack_area k = do
  (kernel_stack_top, m) ← push_start start_eip (stack_area + 4 * 1023) k.machine
  let block : Task = record {
    pid = pid;
    task_name = codes "name";
    kernel_stack_top = kernel_stack_top;
    page_directory = directory;
    next_task = null;
    state = ready_to_run_state;
    time_used = time_used;
  }
  ok (
    task,
    record {
      machine = m;
      scheduler = record k.scheduler { tasks = put k.scheduler.tasks task block };
    },
  )

unfoldable pub create_kernel_task :
    (directory : ℕ) (name : List ℕ) (start_eip : ℕ) → Kernel → Outcome (Ptr × Kernel)
unfolding fill_in
create_kernel_task directory name start_eip k = do
  (task, m1) ← heap_allocate directory process_size k.machine
  time_used ← read_word (task + time_used_offset) m1
  let pid = k.scheduler.next_available_pid
  let s1 : Scheduler = record k.scheduler { next_available_pid = add32 pid 1 }
  (stack_area, m2) ← heap_allocate directory 4096 m1
  fill_in directory start_eip pid task time_used stack_area
      (record { machine = m2; scheduler = s1 })

unfoldable pub enqueue_ready : Ptr → Scheduler → Outcome Scheduler
enqueue_ready task s = do
  (queue, tasks) ← enqueue_task s.ready_to_run task s.tasks
  ok (record s { ready_to_run = queue; tasks = tasks })

-- `enqueue_task(&ready_to_run, create_kernel_task(name, start_eip));`
unfoldable pub add_task : (directory : ℕ) (name : List ℕ) (start_eip : ℕ) → Kernel → Outcome Kernel
unfolding create_kernel_task enqueue_ready
add_task directory name start_eip k = do
  (task, k1) ← create_kernel_task directory name start_eip k
  s ← enqueue_ready task k1.scheduler
  ok (record k1 { scheduler = s })

-- Up to the loop, which calls `schedule` for ever. `task1` and `task2` are the addresses of the
-- two functions.
unfoldable pub init_tasking : (directory task1 task2 : ℕ) → Kernel → Outcome Kernel
unfolding add_task
init_tasking directory task1 task2 k = do
  (kernel_task, k1) ← create_kernel_task directory (codes "kernel") null k
  s ← enqueue_ready kernel_task (record k1.scheduler { current_task = kernel_task })
  k2 ← add_task directory (codes "task1") task1 (record k1 { scheduler = s })
  add_task directory (codes "task2") task2 k2
