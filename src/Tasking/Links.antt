-- ===== src/Tasking/Links.antt =====
-- A queue is a chain of distinct tasks from head to tail. A chain does not mind what else changes.
use torch_os.Base.{◌≡◌, ◌≢◌, refl, sym, ◌∙◌, List, [], ◌∷◌, ◌++◌, Option, none, some}
use torch_os.Tasking.Store.{Ptr, null, Task, Tasks}

-- Where the task at `a` leads, if there is one.
abbrev pub next_of : Option Task → Option Ptr
next_of none = none
next_of (some t) = some t.next_task

abbrev pub NotIn : Ptr → List Ptr → Type 0
NotIn p [] = Unit {0}
NotIn p (x ∷ xs) = (p ≢ x) × NotIn p xs

abbrev pub Distinct : List Ptr → Type 0
Distinct [] = Unit {0}
Distinct (x ∷ xs) = NotIn x xs × Distinct xs

abbrev pub last : Ptr → List Ptr → Ptr
last x [] = x
last x (y ∷ ys) = last y ys

-- From `x` the `next_task` pointers lead through `xs` and end with a null pointer.
abbrev pub Links : Tasks → Ptr → List Ptr → Type 0
Links m x [] = (x ≢ null) × (next_of (m x) ≡ some null)
Links m x (y ∷ ys) = (x ≢ null) × (next_of (m x) ≡ some y) × Links m y ys

-- Stores that agree on every pointer but those of `p` and `q`.
abbrev pub SameLinks : Tasks → Tasks → Ptr → Ptr → Type 0
SameLinks m m' p q = (a : Ptr) → a ≢ p → a ≢ q → next_of (m' a) ≡ next_of (m a)

-- A chain of which neither is part is kept.
pub Links-frame :
    (m m' : Tasks) (p q x : Ptr) (xs : List Ptr)
    → SameLinks m m' p q
    → NotIn p (x ∷ xs)
    → NotIn q (x ∷ xs)
    → Links m x xs
    → Links m' x xs
Links-frame m m' p q x [] same np nq l = (l.0, same x (λ e. np.0 (sym e)) (λ e. nq.0 (sym e)) ∙ l.1)
Links-frame m m' p q x (y ∷ ys) same np nq l = (
  l.0,
  same x (λ e. np.0 (sym e)) (λ e. nq.0 (sym e)) ∙ l.1,
  Links-frame m m' p q y ys same np.1 nq.1 l.2,
)

pub NotIn-last : (x y : Ptr) (ys : List Ptr) → NotIn x (y ∷ ys) → x ≢ last y ys
NotIn-last x y [] h = h.0
NotIn-last x y (z ∷ zs) h = NotIn-last x z zs h.1

-- Joining `p` behind the last task of a chain that it is no part of.
pub Links-snoc :
    (m m' : Tasks) (p x : Ptr) (xs : List Ptr)
    → SameLinks m m' (last x xs) p
    → next_of (m' (last x xs)) ≡ some p
    → next_of (m' p) ≡ some null
    → p ≢ null
    → NotIn p (x ∷ xs)
    → Distinct (x ∷ xs)
    → Links m x xs
    → Links m' x (xs ++ p ∷ [])
Links-snoc m m' p x [] same to_p to_null ne np d l = (l.0, to_p, (ne, to_null))
Links-snoc m m' p x (y ∷ ys) same to_p to_null ne np d l = (
  l.0,
  same x (NotIn-last x y ys d.0) (λ e. np.0 (sym e)) ∙ l.1,
  Links-snoc m m' p y ys same to_p to_null ne np.1 d.1 l.2,
)

-- The tasks of a chain are there.
pub Links-last :
    (m : Tasks) (x : Ptr) (xs : List Ptr)
    → Links m x xs
    → (last x xs ≢ null) × (next_of (m (last x xs)) ≡ some null)
Links-last m x [] l = l
Links-last m x (y ∷ ys) l = Links-last m y ys l.2

NotIn-snoc : (a p : Ptr) (xs : List Ptr) → NotIn a xs → a ≢ p → NotIn a (xs ++ p ∷ [])
NotIn-snoc a p [] h ne = (ne, tt)
NotIn-snoc a p (x ∷ xs) h ne = (h.0, NotIn-snoc a p xs h.1 ne)

pub Distinct-snoc : (p : Ptr) (xs : List Ptr) → NotIn p xs → Distinct xs → Distinct (xs ++ p ∷ [])
Distinct-snoc p [] h d = (tt, tt)
Distinct-snoc p (x ∷ xs) h d =
    (NotIn-snoc x p xs d.0 (λ e. h.0 (sym e)), Distinct-snoc p xs h.1 d.1)

pub last-snoc : (x p : Ptr) (xs : List Ptr) → last x (xs ++ p ∷ []) ≡ p
last-snoc x p [] = refl
last-snoc x p (y ∷ ys) = last-snoc y p ys

-- Stores with the same pointers have the same chains.
pub Links-same :
    (m m' : Tasks) (x : Ptr) (xs : List Ptr)
    → ((a : Ptr) → next_of (m' a) ≡ next_of (m a))
    → Links m x xs
    → Links m' x xs
Links-same m m' x [] same l = (l.0, same x ∙ l.1)
Links-same m m' x (y ∷ ys) same l = (l.0, same x ∙ l.1, Links-same m m' y ys same l.2)

pub Links-head :
    (m : Tasks) (x : Ptr) (xs : List Ptr)
    → Links m x xs
    → (x ≢ null) × ((q : Ptr) × (next_of (m x) ≡ some q))
Links-head m x [] l = (l.0, (null, l.1))
Links-head m x (y ∷ ys) l = (l.0, (y, l.1))
