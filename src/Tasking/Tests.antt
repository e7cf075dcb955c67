-- ===== src/Tasking/Tests.antt =====
-- The scheduler's theorems at work on four tasks, at the addresses 16, 32, 48 and 64.
use torch_os.Base.{
  ℕ, zero, suc, ◌*◌, ◌≡◌, List, ◌≢◌, refl, arith, [], ◌∷◌, ◌==◌, if◌then◌else◌, none, some, ok,
  panic, inl, inr, add32, sub32,
}
use torch_os.Timer.{elapsed_time}
use torch_os.Tasking.{Queue, Scheduler, enqueue_task, switch_to_task, schedule, terminate_task}
use torch_os.Tasking.Store.{Ptr, null, Task, Tasks, with_next}
use torch_os.Tasking.Links.{last, Links}
use torch_os.Tasking.Enqueue.{enqueue_task-Links, queue_at, SameBut}
use torch_os.Tasking.Switch.{Switched, switch_to_task-Switched}
use torch_os.Tasking.Schedule.{IsReady, schedule-rotates}
use torch_os.Tasking.Terminate.{terminate_task-Leads}
use torch_os.Memory.Sample.{fresh}
use torch_os.Tasking.Pids.{pid_of}
use torch_os.Tasking.System.{IsSystem}
use torch_os.Tasking.Calls.{IsRunnable}
use torch_os.Tasking.Reach.{Reach, start, after, ticked, Reach-IsRunnable, Reach-calls}
use torch_os.Tasking.Turns.{turns, turns-IsReady}
use torch_os.Tasking.Create.{Kernel}
use torch_os.Tasking.Created.{Created}
use torch_os.Tty.{Terminal}

abbrev task : ℕ → Ptr → Task
task pid next = record {
  pid = pid;
  task_name = [];
  kernel_stack_top = 0x1000 * pid;
  page_directory = 0x00200000;
  next_task = next;
  state = 1;
  time_used = 0;
}

-- 16 and 32 are ready, 48 stands alone, and 64 is free.
abbrev store : Tasks
store p =
    if p == 16
    then some (task 1 32)
    else if p == 32
    then some (task 2 null)
    else if p == 48
    then some (task 3 null)
    else if p == 64
    then some (task 4 null)
    else none

abbrev system : Queue → Scheduler
system ended = record {
  tasks = store;
  previous_task = 0;
  current_task = 16;
  ready_to_run = queue_at 16 32;
  blocked = queue_at null null;
  waiting = queue_at null null;
  terminated = ended;
  last_time = 5;
  next_available_pid = 5;
  ticks = 9;
  esp = 0x8000;
  cr3 = 0x00200000;
}

chain : Links store 16 (32 ∷ [])
chain = (omega arith, refl, (omega arith, refl))

alone : Links store 48 []
alone = (omega arith, refl)

system-IsReady : (ended : Queue) → IsReady (system ended) 16 (32 ∷ [])
system-IsReady ended = record {
  current = refl;
  head = refl;
  tail = refl;
  links = chain;
  distinct = ((omega arith, tt), (tt, tt));
}

enqueue_task-Links_example :
    (m' : Tasks) × (enqueue_task (queue_at 16 32) 48 store ≡ ok (queue_at 16 48, m'))
    × Links m' 16 (32 ∷ 48 ∷ [])
    × (m' 48 ≡ some (with_next null (task 3 null)))
    × SameBut store m' 32 48
enqueue_task-Links_example =
    enqueue_task-Links store 16 (32 ∷ []) 48 (task 3 null) chain ((omega arith, tt), (tt, tt))
      (omega arith, (omega arith, tt)) (omega arith) refl

switch_to_task-Switched_example :
    (s' : Scheduler) × (switch_to_task 32 (system (queue_at null null)) ≡ ok s')
    × Switched (system (queue_at null null)) 32 s'
    × ((t' : Task) × (s'.tasks 16 ≡ some t')
        × (t'.time_used ≡ add32 0 (elapsed_time 5 9))
        × (t'.kernel_stack_top ≡ sub32 0x8000 16))
    × (s'.esp ≡ add32 0x2000 20)
switch_to_task-Switched_example =
    switch_to_task-Switched (system (queue_at null null)) 32 (task 1 32) (task 2 null) (omega arith)
      (omega arith) (omega arith) refl refl

terminate_task-Leads_example :
    (s' : Scheduler) × (terminate_task (system (queue_at null null)) ≡ ok s')
    × IsReady s' 32 []
    × (s'.terminated ≡ queue_at 16 16)
    × Links s'.tasks 16 (32 ∷ [])
    × (16 ≢ last 32 [])
terminate_task-Leads_example =
    terminate_task-Leads (system (queue_at null null)) 16 32 [] (task 1 32)
      (system-IsReady (queue_at null null)) refl (omega arith) refl

-- The kernel's task at 16 and another at 32.
abbrev two_tasks : Scheduler
two_tasks = record (system (queue_at null null)) {
  tasks = λ p. if p == 16 then some (task 0 32) else if p == 32 then some (task 1 null) else none;
}

two_tasks-IsSystem : IsSystem 16 two_tasks 16 (32 ∷ [])
two_tasks-IsSystem = record {
  ready = record {
    current = refl;
    head = refl;
    tail = refl;
    links = (omega arith, refl, (omega arith, refl));
    distinct = ((omega arith, tt), (tt, tt));
  };
  present = inl refl;
  pid = refl;
  only = λ a here zero_pid. elim here [
    | inl it ↦ it
    | inr (inl it) ↦ absurd (other_pid a it zero_pid)
    | inr (inr nothing) ↦ absurd nothing
  ];
  ended = inl refl;
}
  where
    other_pid : (a : Ptr) → a ≡ 32 → pid_of (two_tasks.tasks a) ≡ some 0 → ⊥
    other_pid a it zero_pid = let here = rw it at zero_pid in cc

-- The timer has ticked.
abbrev ticked_once : Scheduler
ticked_once = record two_tasks { ticks = 10 }

ticked_once-Reach : Reach two_tasks ticked_once
ticked_once-Reach = after start ticked

Reach-IsRunnable_example : IsRunnable 16 ticked_once
Reach-IsRunnable_example =
    Reach-IsRunnable 16 two_tasks ticked_once (16, 32 ∷ [], two_tasks-IsSystem) ticked_once-Reach

Reach-calls_example :
    ((s1 : Scheduler) × (schedule ticked_once ≡ ok s1))
    × (pid_of (ticked_once.tasks 16) ≡ some 0
        → terminate_task ticked_once ≡ panic "Attempt to terminate the kernel task!")
    × (pid_of (ticked_once.tasks 16) ≢ some 0
        → (s1 : Scheduler) × (terminate_task ticked_once ≡ ok s1))
Reach-calls_example =
    Reach-calls 16 two_tasks ticked_once (16, 32 ∷ [], two_tasks-IsSystem) ticked_once-Reach

schedule-rotates_example :
    (s' : Scheduler) × (schedule (system (queue_at null null)) ≡ ok s')
    × IsReady s' 32 (16 ∷ [])
    × (s'.previous_task ≡ 16)
    × (s'.terminated ≡ queue_at null null)
schedule-rotates_example =
    schedule-rotates (system (queue_at null null)) 16 32 [] (system-IsReady (queue_at null null))

turns-IsReady_example :
    (s' : Scheduler) × (turns 1 (system (queue_at null null)) ≡ ok s') × IsReady s' 32 (16 ∷ [])
turns-IsReady_example =
    turns-IsReady (system (queue_at null null)) 16 32 [] [] (system-IsReady (queue_at null null))

-- Before the first task is made.
abbrev bare : Kernel
bare = record {
  machine = fresh;
  scheduler = record (system (queue_at null null)) {
    tasks = λ p. none;
    ready_to_run = queue_at null null;
    next_available_pid = 0;
  };
}

abbrev blank : Terminal
blank = record { row = 0; column = 0; color = 7; cells = λ i. 0 }

-- No timer interrupts.
abbrev quiet : ℕ → List ℕ
quiet zero = []
quiet (suc n) = 0 ∷ quiet n
