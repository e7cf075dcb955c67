-- ===== src/Tasking/Turns.antt =====
-- Round robin: the queue turns by one place with each call of `schedule`.
use torch_os.Base.{ℕ, zero, suc, ◌≡◌, refl, subst, List, [], ◌∷◌, ◌++◌, Outcome, ok, ◌>>=◌, length}
use mathlib.Core.List.{append_assoc}
use torch_os.Tasking.{Scheduler, schedule}
use torch_os.Tasking.Store.{Ptr}
use torch_os.Tasking.Schedule.{IsReady, schedule-rotates}

-- `n` tasks, one after the other, call `schedule`.
unfoldable pub turns : (n : ℕ) → Scheduler → Outcome Scheduler
turns zero s = ok s
turns (suc n) s = do s1 ← schedule s; turns n s1

-- If a task waits behind the current one in the ready queue, with `n` tasks between them, `n + 1`
-- calls of `schedule` return and make it the current task, and the tasks ahead of it, the old
-- current one first, then wait behind the others.
pub turns-IsReady :
    (s : Scheduler) (x y : Ptr) (ys zs : List Ptr)
    → IsReady s x (ys ++ y ∷ zs)
    → (s' : Scheduler) × (turns (suc (length ys)) s ≡ ok s') × IsReady s' y (zs ++ x ∷ ys)
unfolding turns
turns-IsReady s x y [] zs r =
    let (s', returns, r', _, _) = schedule-rotates s x y zs r in (s', rw returns refl, r')
turns-IsReady s x y (y' ∷ ys) zs r =
    let (s1, returns, r1, _, _) = schedule-rotates s x y' (ys ++ y ∷ zs) r in
    let r1' = subst (IsReady s1 y') (append_assoc ys (y ∷ zs) (x ∷ [])) r1 in
    let (s', rest, r') = turns-IsReady s1 y' y ys (zs ++ x ∷ []) r1' in
    (s', rw returns rest, subst (IsReady s' y) (append_assoc zs (x ∷ []) (y' ∷ ys)) r')
