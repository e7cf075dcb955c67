-- ===== src/Tasking/Store.antt =====
-- The task control blocks of kernel/includes/process.h, by address.
use torch_os.Base.{ℕ, ◌==◌, if◌then◌else◌, List, Option, none, some, Outcome, ok, hang, ◌>>=◌}

abbrev pub Ptr : Type 0
Ptr = ℕ

abbrev pub null : Ptr
null = 0

-- The states `RUNNING`, `READY_TO_RUN`, `BLOCKED` and `TERMINATED`.
abbrev pub running_state : ℕ
running_state = 0

abbrev pub ready_to_run_state : ℕ
ready_to_run_state = 1

abbrev pub blocked_state : ℕ
blocked_state = 2

abbrev pub terminated_state : ℕ
terminated_state = 3

-- `process_t`; `task_name` is the text that its array holds.
pub record Task : Type 0 where
  pub pid : ℕ
  pub task_name : List ℕ
  pub kernel_stack_top : ℕ
  pub page_directory : ℕ
  pub next_task : Ptr
  pub state : ℕ
  pub time_used : ℕ

abbrev pub Tasks : Type 0
Tasks = Ptr → Option Task

unfoldable pub put : Tasks → Ptr → Task → Tasks
put m p t a = if a == p then some t else m a

unfoldable pub found : Option Task → Outcome Task
found none = hang
found (some t) = ok t

-- `*p`: a null pointer and an address without a task are a page fault, whose handler hangs.
unfoldable pub load : Ptr → Tasks → Outcome Task
unfolding found
load p m = if p == null then hang else found (m p)

-- `p->field = …`
unfoldable pub update : Ptr → (Task → Task) → Tasks → Outcome Tasks
unfolding load
update p f m = do t ← load p m; ok (put m p (f t))

abbrev pub with_next : Ptr → Task → Task
with_next q t = record t { next_task = q }
