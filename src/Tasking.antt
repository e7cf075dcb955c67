-- ===== src/Tasking.antt =====
-- kernel/tasking.c: the scheduler and its queues of tasks.
mod Tests
pub mod Store
pub mod Links
pub mod Schedule
pub mod Terminate
pub mod Switch
pub mod Enqueue
pub mod Pids
pub mod System
pub mod Turns
pub mod Removal
pub mod Calls
pub mod Reach
pub mod Create
pub mod Created
pub mod Join
pub mod Start
pub mod Bodies
pub mod Turned
pub mod Life
use torch_os.Base.{
  ℕ, ◌+◌, ◌-◌, ◌*◌, ◌^◌, ◌==◌, if◌then◌else◌, add32, sub32, List, Option, none, some, Outcome, ok,
  hang, panic, ◌>>=◌, ◌>>◌, panic_if,
}
use torch_os.Timer.{elapsed_time}
use Store.{
  Ptr, null, Task, Tasks, put, load, update, with_next, ready_to_run_state, terminated_state,
}

-- `list_t`
pub record Queue : Type 0 where
  pub head : Ptr
  pub tail : Ptr

-- The global variables, the tick counter that `read_timer` reads, and the two registers of the
-- processor that `switch_to_task_stub` (kernel/utility.asm) changes.
pub record Scheduler : Type 0 where
  pub tasks : Tasks
  pub previous_task : Ptr
  pub current_task : Ptr
  pub ready_to_run : Queue
  pub blocked : Queue
  pub waiting : Queue
  pub terminated : Queue
  pub last_time : ℕ
  pub next_available_pid : ℕ
  pub ticks : ℕ
  pub esp : ℕ
  pub cr3 : ℕ

-- The queue's new value and the store. The empty branch leaves `next_task` as it is.
unfoldable pub enqueue_task : Queue → Ptr → Tasks → Outcome (Queue × Tasks)
enqueue_task queue proc m =
    if queue.head == null then ok (record { head = proc; tail = proc }, m) else (do
      m1 ← update queue.tail (with_next proc) m
      m2 ← update proc (with_next null) m1
      ok (record queue { tail = proc }, m2))

unfoldable pub update_time : Scheduler → Outcome Scheduler
update_time s = do
  let current_time = s.ticks
  let elapsed = elapsed_time s.last_time current_time
  tasks ← update s.current_task (λ t. record t { time_used = add32 t.time_used elapsed }) s.tasks
  ok (record s { last_time = current_time; tasks = tasks })

-- The stub has pushed four registers below the return address; it saves the stack's top in the
-- previous task and goes on with the other task's stack, where it pops four registers and an
-- address. CR3 is loaded if it changes.
unfoldable pub switch_to_task_stub : Ptr → Scheduler → Outcome Scheduler
switch_to_task_stub other s = do
  tasks ← update s.previous_task (λ t. record t { kernel_stack_top = sub32 s.esp 16 }) s.tasks
  next ← load other tasks
  ok (record s {
    tasks = tasks;
    esp = add32 next.kernel_stack_top 20;
    cr3 = if next.page_directory == s.cr3 then s.cr3 else next.page_directory;
  })

unfoldable pub switch_to_task : Ptr → Scheduler → Outcome Scheduler
switch_to_task other s = do
  s1 ← update_time s
  switch_to_task_stub other (record s1 { previous_task = s1.current_task; current_task = other })

-- `schedule` when the current task has a successor
unfoldable pub rotate : Ptr → Scheduler → Outcome Scheduler
rotate next_task s = do
  tasks ← update s.current_task (λ t. record t { state = ready_to_run_state }) s.tasks
  (queue, tasks1) ← enqueue_task (record s.ready_to_run { head = next_task }) s.current_task tasks
  switch_to_task next_task (record s { ready_to_run = queue; tasks = tasks1 })

unfoldable pub schedule : Scheduler → Outcome Scheduler
unfolding rotate
schedule s = do
  current ← load s.current_task s.tasks
  if current.next_task == null then ok s else rotate current.next_task s

-- What follows `switch_to_task` runs only if the terminated task is switched to again.
unfoldable pub terminate_task : Scheduler → Outcome Scheduler
terminate_task s = do
  current ← load s.current_task s.tasks
  panic_if (current.pid == 0) "Attempt to terminate the kernel task!"
  let next_task = current.next_task
  tasks ← update s.current_task (λ t. record t { state = terminated_state }) s.tasks
  (queue, tasks1) ← enqueue_task s.terminated s.current_task tasks
  switch_to_task next_task (record s {
    ready_to_run = record s.ready_to_run { head = next_task };
    terminated = queue;
    tasks = tasks1;
  })
