-- ===== src/Tasking/Enqueue.antt =====
-- `enqueue_task` joins a task behind a queue's last.
use torch_os.Base.{
  ◌≡◌, ◌≢◌, refl, sym, ap, ◌∙◌, arith, ◌==◌, List, [], ◌∷◌, ◌++◌, Option, none, some, ok, false,
}
use torch_os.Tasking.{Queue, enqueue_task}
use torch_os.Tasking.Store.{Ptr, null, Task, Tasks, put, update, with_next}
use torch_os.Tasking.Links.{
  next_of, NotIn, Distinct, last, Links, Links-snoc, Links-last, Links-head, NotIn-last,
}

-- An address that leads on holds a task.
pub task_of_next :
    (m : Tasks) (p q : Ptr)
    → p ≢ null
    → next_of (m p) ≡ some q
    → (t : Task) × (m p ≡ some t) × (t.next_task ≡ q)
task_of_next m p q ne e = go (m p) refl e
  where
    go :
        (o : Option Task)
        → m p ≡ o
        → next_of o ≡ some q
        → (t : Task) × (m p ≡ some t) × (t.next_task ≡ q)
    go none found e' = cc
    go (some t) found e' = (t, found, ground arith)

-- `p->field = …` at a task.
pub update-ok :
    (p : Ptr) (f : Task → Task) (m : Tasks) (t : Task)
    → p ≢ null
    → m p ≡ some t
    → update p f m ≡ ok (put m p (f t))
unfolding update
update-ok p f m t ne e = let test : (p == null) ≡ false = ground arith in rw (test, e)

pub put_self : (m : Tasks) (p : Ptr) (t : Task) → put m p t p ≡ some t
unfolding put
put_self m p t = ground arith

pub put_ne : (m : Tasks) (p a : Ptr) (t : Task) → a ≢ p → put m p t a ≡ m a
unfolding put
put_ne m p a t ne = ground arith

abbrev pub queue_at : Ptr → Ptr → Queue
queue_at head tail = record { head = head; tail = tail }

-- Only the tasks `p` and `q` may have changed.
abbrev pub SameBut : Tasks → Tasks → Ptr → Ptr → Type 0
SameBut m m' p q = (a : Ptr) → a ≢ p → a ≢ q → m' a ≡ m a

-- For a queue that is a non-empty chain of distinct tasks and a task that is no part of it,
-- `enqueue_task` returns, the chain has that task at its end and the queue its tail there, and no
-- task but this one and the old last one is changed.
pub enqueue_task-Links :
    (m : Tasks) (h : Ptr) (hs : List Ptr) (p : Ptr) (t : Task)
    → Links m h hs
    → Distinct (h ∷ hs)
    → NotIn p (h ∷ hs)
    → p ≢ null
    → m p ≡ some t
    → (m' : Tasks) × (enqueue_task (queue_at h (last h hs)) p m ≡ ok (queue_at h p, m'))
      × Links m' h (hs ++ p ∷ [])
      × (m' p ≡ some (with_next null t))
      × SameBut m m' (last h hs) p
unfolding enqueue_task
enqueue_task-Links m h hs p t links distinct out p_ne has =
    let (l_ne, l_end) = Links-last m h hs links in
    let (l, has_l, _) = task_of_next m (last h hs) null l_ne l_end in
    let apart : last h hs ≢ p = λ e. NotIn-last p h hs out (sym e) in
    let head_ne : h ≢ null = (Links-head m h hs links).0 in
    let test : (h == null) ≡ false = ground arith in
    let m1 = put m (last h hs) (with_next p l) in
    let m2 = put m1 p (with_next null t) in
    let kept : m1 p ≡ some t = put_ne m (last h hs) p (with_next p l) (λ e. apart (sym e)) ∙ has in
    let others : SameBut m m2 (last h hs) p =
      λ a na nb. put_ne m1 p a (with_next null t) nb ∙ put_ne m (last h hs) a (with_next p l) na in
    let self = put_self m1 p (with_next null t) in
    (
      m2,
      rw (
        test,
        update-ok (last h hs) (with_next p) m l l_ne has_l,
        update-ok p (with_next null) m1 t p_ne kept,
      ),
      Links-snoc m m2 p h hs (λ a na nb. ap next_of (others a na nb))
          (rw (
            put_ne m1 p (last h hs) (with_next null t) apart,
            put_self m (last h hs) (with_next p l),
          ))
          (rw self) p_ne out distinct links,
      self,
      others,
    )
