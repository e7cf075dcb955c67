-- ===== src/Tasking/Created.antt =====
-- `create_kernel_task` makes a task that starts where it should.
use torch_os.Base.{
  ℕ, ◌+◌, ◌-◌, ◌*◌, ◌^◌, ◌≤◌, ◌<◌, ◌≡◌, ◌≢◌, inl, inr, refl, ◌∙◌, arith, ◌==◌, List, some, add32,
  Outcome, ok, panic, String, ◌>>=◌, Bool-cases,
}
use torch_os.Base.Text.{codes}
use torch_os.Memory.Machine.{Machine, heap_area_start, heap_area_end}
use torch_os.Memory.Virtual.{read_word}
use torch_os.Memory.Heap.{heap_allocate}
use torch_os.Memory.Heap.Grow.{IsHeap, SameBytes, Grew}
use torch_os.Memory.Bitmap.FirstFit.{AllTaken}
use torch_os.Memory.Heap.Allocate.{
  HeapAllocated, given, overflow, out_of_frames, out_of_tables, heap_allocate-HeapAllocated,
}
use torch_os.Memory.Heap.Words.{read_word-bytes, write_word-heap}
use torch_os.Tasking.{Scheduler}
use torch_os.Tasking.Store.{Ptr, null, Task, ready_to_run_state}
use torch_os.Tasking.Enqueue.{put_self, put_ne}
use torch_os.Tasking.Create.{
  Kernel, process_size, time_used_offset, push_start, fill_in, create_kernel_task,
}

-- A task that is ready, has used no time and, if it has a start, goes on there when it is first
-- switched to: four registers are popped before the address.
pub record Fresh (directory start_eip pid : ℕ) (m : Machine) (t : Task) : Type 0 where
  pub pid_is : t.pid ≡ pid
  pub last : t.next_task ≡ null
  pub ready : t.state ≡ ready_to_run_state
  pub unused : t.time_used ≡ 0
  pub space : t.page_directory ≡ directory
  pub low : heap_area_start ≤ t.kernel_stack_top
  pub high : t.kernel_stack_top + 4 ≤ m.heap_current
  pub starts : start_eip ≢ null → read_word (t.kernel_stack_top + 16) m ≡ ok start_eip

-- From `k` to `k'` the task at `task` is new.
pub record Creates (directory start_eip : ℕ) (k k' : Kernel) (task : Ptr) : Type 0 where
  pub heap : IsHeap directory k'.machine
  pub moved : k'.machine.heap_current ≡ task + 4140
  pub kept : SameBytes heap_area_start task k.machine k'.machine
  pub block :
      (t : Task) × (k'.scheduler.tasks task ≡ some t)
      × Fresh directory start_eip k.scheduler.next_available_pid k'.machine t
  pub other_tasks : (a : Ptr) → a ≢ task → k'.scheduler.tasks a ≡ k.scheduler.tasks a
  pub rest : k'.scheduler ≡ record k.scheduler {
    tasks = k'.scheduler.tasks;
    next_available_pid = add32 k.scheduler.next_available_pid 1;
  }

-- The two allocations, up to a page that the heap lacks, take the first machine to the second.
pub data Lacks (directory : ℕ) (m : Machine) : Machine → Type 0 where
  for_block :
      {m1 : Machine}
      → Grew directory m m1
      → m1.heap_mapped < m.heap_current + process_size
      → Lacks directory m m1
  for_stack :
      {task : Ptr} {m' m1 : Machine}
      → heap_allocate directory process_size m ≡ ok (task, m')
      → Grew directory m' m1
      → m1.heap_mapped < m'.heap_current + 4096
      → Lacks directory m m1

-- Why there is no memory for a task, by the message.
pub data NoMemory (directory : ℕ) (m : Machine) : String → Type 0 where
  heap_full :
      heap_area_end < m.heap_current + 4140
      → NoMemory directory m "Heap is overflowing! Cannot allocate!"
  frames_full :
      {m1 : Machine}
      → Lacks directory m m1
      → AllTaken m1.page_frame_bitmap
      → NoMemory directory m "Page frame allocator has run out of space!"
  tables_full :
      {m1 : Machine}
      → Lacks directory m m1
      → AllTaken m1.page_table_bitmap
      → NoMemory directory m "Trying to allocate page tables but no page tables left to allocate!"

pub data Created (directory start_eip : ℕ) (k : Kernel) : Outcome (Ptr × Kernel) → Type 0 where
  created :
      {k' : Kernel}
      → Creates directory start_eip k k' k.machine.heap_current
      → Created directory start_eip k (ok (k.machine.heap_current, k'))
  no_memory :
      {message : String}
      → NoMemory directory k.machine message
      → Created directory start_eip k (panic message)

-- The stack's pointer, and memory, for a stack at `stack`.
push_start-heap :
    (directory start_eip stack : ℕ) (m : Machine)
    → IsHeap directory m
    → heap_area_start ≤ stack
    → stack + 4096 ≤ m.heap_current
    → start_eip < 2 ^ 32
    → (m' : Machine) × (top : ℕ) × (push_start start_eip (stack + 4 * 1023) m ≡ ok (top, m'))
      × IsHeap directory m'
      × (m'.heap_current ≡ m.heap_current)
      × SameBytes heap_area_start stack m m'
      × (stack ≤ top)
      × (top + 4 ≤ stack + 4096)
      × (start_eip ≢ null → read_word (top + 16) m' ≡ ok start_eip)
unfolding push_start
push_start-heap directory start_eip stack m h above below small =
    elim (Bool-cases (start_eip == null)) [
      | inl no_start ↦
          let zero_it : start_eip ≡ 0 = ground arith in
          (
            m,
            stack + 4 * 1023,
            rw no_start refl,
            h,
            refl,
            λ b l r. refl,
            omega arith,
            omega arith,
            λ ne. absurd (ne zero_it),
          )
      | inr starts ↦
          let current = h.current in
          let (ram, wrote, h', word, others) =
            write_word-heap directory (stack + 4 * 1023) start_eip m h (omega arith) (omega arith)
              small in
          let place : stack + 4 * 1023 - 4 * 4 + 16 ≡ stack + 4 * 1023 = omega arith in
          (
            record m { ram = ram },
            stack + 4 * 1023 - 4 * 4,
            rw (starts, wrote) refl,
            h',
            refl,
            λ b l r. others b l (omega arith) (inl (omega arith)),
            omega arith,
            omega arith,
            λ ne. rw place word,
          )
    ]

module _ (directory start_eip : ℕ) (k : Kernel) (small : start_eip < 2 ^ 32) where
  abbrev task : Ptr
  task = k.machine.heap_current

  -- `next_available_pid++`
  abbrev counted : Scheduler
  counted = record k.scheduler { next_available_pid = add32 k.scheduler.next_available_pid 1 }

  -- The part behind the second allocation.
  abbrev filled : ℕ × Machine → Outcome (Ptr × Kernel)
  filled p =
      fill_in directory start_eip k.scheduler.next_available_pid task 0 p.0
        (record { machine = p.1; scheduler = counted })

  module _ (m1 : Machine) (kept : SameBytes heap_area_start task k.machine m1)
      (moved : m1.heap_current ≡ task + 44) (low : heap_area_start ≤ task) where
    fill_in-Created :
        (m2 : Machine)
        → IsHeap directory m2
        → m2.heap_current ≡ m1.heap_current + 4096
        → SameBytes heap_area_start m1.heap_current m1 m2
        → Created directory start_eip k (filled (m1.heap_current, m2))
    unfolding fill_in
    fill_in-Created m2 h2 current kept2 =
        let (m3, top, pushed, h3, same_current, kept3, above, below, starts) =
          push_start-heap directory start_eip m1.heap_current m2 h2 (omega arith) (omega arith)
            small in
        let t : Task = record {
          pid = k.scheduler.next_available_pid;
          task_name = codes "name";
          kernel_stack_top = top;
          page_directory = directory;
          next_task = null;
          state = ready_to_run_state;
          time_used = 0;
        } in
        rw pushed (
          created (record {
            heap = h3;
            moved = omega (arith, same_current, current, moved);
            kept = λ b l r. kept3 b l (omega arith) ∙ kept2 b l (omega arith) ∙ kept b l r;
            block = (
              t,
              put_self k.scheduler.tasks task t,
              record {
                pid_is = refl;
                last = refl;
                ready = refl;
                unused = refl;
                space = refl;
                low = omega arith;
                high = omega arith;
                starts = starts;
              },
            );
            other_tasks = λ a ne. put_ne k.scheduler.tasks task a t ne;
            rest = refl;
          }))

    stack-Created :
        {r : Outcome (ℕ × Machine)}
        → heap_allocate directory process_size k.machine ≡ ok (task, m1)
        → HeapAllocated directory 4096 m1 r
        → Created directory start_eip k (r >>= filled)
    stack-Created e (given {m' = m2} h2 current zero_bytes kept2) =
        fill_in-Created m2 h2 current kept2
    stack-Created e (overflow over) = no_memory (heap_full (omega arith))
    stack-Created e (out_of_frames grew short all) =
        no_memory (frames_full (for_stack e grew short) all)
    stack-Created e (out_of_tables grew short all) =
        no_memory (tables_full (for_stack e grew short) all)

  -- The part behind the first allocation.
  abbrev with_block : ℕ × Machine → Outcome (Ptr × Kernel)
  with_block p = do
    time_used ← read_word (p.0 + time_used_offset) p.1
    (stack_area, m2) ← heap_allocate directory 4096 p.1
    fill_in directory start_eip k.scheduler.next_available_pid p.0 time_used stack_area
        (record { machine = m2; scheduler = counted })

  block-Created :
      {r : Outcome (ℕ × Machine)}
      → IsHeap directory k.machine
      → heap_allocate directory process_size k.machine ≡ r
      → HeapAllocated directory process_size k.machine r
      → Created directory start_eip k (r >>= with_block)
  block-Created h e (given {m' = m1} h1 current zero_bytes kept) =
      let end = h1.end in
      let below = h1.current in
      let unused =
        read_word-bytes (task + 40) 0 0 0 0 m1 (zero_bytes (task + 40) (omega arith) (omega arith))
          (zero_bytes (task + 40 + 1) (omega arith) (omega arith))
          (zero_bytes (task + 40 + 2) (omega arith) (omega arith))
          (zero_bytes (task + 40 + 3) (omega arith) (omega arith)) in
      rw unused (
        stack-Created m1 kept current h.start e
          (heap_allocate-HeapAllocated directory 4096 m1 h1 (omega arith)))
  block-Created h e (overflow over) = no_memory (heap_full (omega arith))
  block-Created h e (out_of_frames grew short all) =
      no_memory (frames_full (for_block grew short) all)
  block-Created h e (out_of_tables grew short all) =
      no_memory (tables_full (for_block grew short) all)

pub create_kernel_task-Created :
    (directory : ℕ) (name : List ℕ) (start_eip : ℕ) (k : Kernel)
    → start_eip < 2 ^ 32
    → IsHeap directory k.machine
    → Created directory start_eip k (create_kernel_task directory name start_eip k)
unfolding create_kernel_task
create_kernel_task-Created directory name start_eip k small h =
    let end = h.end in
    let below = h.current in
    block-Created directory start_eip k small h refl
      (heap_allocate-HeapAllocated directory process_size k.machine h (omega arith))
