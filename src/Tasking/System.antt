-- ===== src/Tasking/System.antt =====
-- The scheduler as it runs: whatever tasks do, the kernel's task stays in the ready queue.
use torch_os.Base.{ℕ, ◌≡◌, ◌≢◌, ◌⊎◌, inl, inr, List, [], ◌∷◌, ◌++◌, some}
use torch_os.Tasking.{Queue, Scheduler}
use torch_os.Tasking.Store.{Ptr, null, Tasks}
use torch_os.Tasking.Links.{NotIn}
use torch_os.Tasking.Enqueue.{queue_at}
use torch_os.Tasking.Schedule.{IsReady}
use torch_os.Tasking.Pids.{pid_of}

abbrev pub In : Ptr → List Ptr → Type 0
In p [] = ⊥
In p (x ∷ xs) = (p ≡ x) ⊎ In p xs

pub In-snoc : (p x : Ptr) (xs : List Ptr) → In p (x ∷ xs) → In p (xs ++ x ∷ [])
In-snoc p x [] h = h
In-snoc p x (y ∷ ys) (inl here) = inr (In-snoc p x ys (inl here))
In-snoc p x (y ∷ ys) (inr (inl there)) = inl there
In-snoc p x (y ∷ ys) (inr (inr later)) = inr (In-snoc p x ys (inr later))

pub In-unsnoc : (p x : Ptr) (xs : List Ptr) → In p (xs ++ x ∷ []) → In p (x ∷ xs)
In-unsnoc p x [] h = h
In-unsnoc p x (y ∷ ys) (inl here) = inr (inl here)
In-unsnoc p x (y ∷ ys) (inr later) = elim (In-unsnoc p x ys later) [
  | inl last_one ↦ inl last_one
  | inr earlier ↦ inr (inr earlier)
]

pub NotIn-snoc : (p x : Ptr) (xs : List Ptr) → NotIn p (x ∷ xs) → NotIn p (xs ++ x ∷ [])
NotIn-snoc p x [] h = h
NotIn-snoc p x (y ∷ ys) h = (h.1.0, NotIn-snoc p x ys (h.0, h.1.1))

-- The queue of terminated tasks is empty, or its tail is a task that is not ready.
abbrev pub Ended : Tasks → Queue → List Ptr → Type 0
Ended m q ready =
    (q ≡ queue_at null null)
    ⊎ ((z : Ptr) × (w : Ptr) × (q ≡ queue_at z w)
        × (z ≢ null)
        × (w ≢ null)
        × ((pid : ℕ) × (pid_of (m w) ≡ some pid))
        × NotIn w ready)

-- The ready queue is a chain that the current task heads, the kernel's task is in it and is the
-- only one there with pid 0.
pub record IsSystem (kernel : Ptr) (s : Scheduler) (x : Ptr) (xs : List Ptr) : Type 0 where
  pub ready : IsReady s x xs
  pub present : In kernel (x ∷ xs)
  pub pid : pid_of (s.tasks kernel) ≡ some 0
  pub only : (a : Ptr) → In a (x ∷ xs) → pid_of (s.tasks a) ≡ some 0 → a ≡ kernel
  pub ended : Ended s.tasks s.terminated (x ∷ xs)
