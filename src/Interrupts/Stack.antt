-- ===== src/Interrupts/Stack.antt =====
-- Words on the stack.
use torch_os.Base.{
  ℕ, zero, suc, ◌+◌, ◌-◌, ◌*◌, ◌^◌, ◌≤◌, ◌<◌, ◌≡◌, inl, ◌∙◌, arith, List, [], ◌∷◌, length, sub32,
  get_or,
}
use torch_os.Hardware.Ram.{Ram, load32, store32, load32-store32, load32-store32_self, load32-kept}

-- The words stand from `p` upwards.
abbrev pub Holds : Ram → ℕ → List ℕ → Type 0
Holds m p [] = Unit {0}
Holds m p (w ∷ ws) = (load32 m p ≡ w) × Holds m (p + 4) ws

abbrev pub AreWords : List ℕ → Type 0
AreWords [] = Unit {0}
AreWords (w ∷ ws) = (w < 2 ^ 32) × AreWords ws

-- ESP after `k` words are pushed.
abbrev pub down : (k p : ℕ) → ℕ
down zero p = p
down (suc k) p = down k (sub32 p 4)

-- Memory after the words are pushed, the first one first, and the words as they then stand.
abbrev pub stacked : Ram → ℕ → List ℕ → Ram
stacked m p [] = m
stacked m p (w ∷ ws) = stacked (store32 m (sub32 p 4) w) (sub32 p 4) ws

abbrev pub onto : List ℕ → List ℕ → List ℕ
onto [] rest = rest
onto (w ∷ ws) rest = onto ws (w ∷ rest)

pub down_lem : (k p : ℕ) → 4 * k ≤ p → p < 2 ^ 32 → down k p ≡ p - 4 * k
down_lem zero p room small = omega arith
down_lem (suc k) p room small =
    let e : sub32 p 4 ≡ p - 4 = omega arith in
    rw e (down_lem k (p - 4) (omega arith) (omega arith) ∙ omega arith)

Holds-store32 :
    (m : Ram) (p q v : ℕ) (ws : List ℕ) → p + 4 ≤ q → Holds m q ws → Holds (store32 m p v) q ws
Holds-store32 m p q v [] up h = tt
Holds-store32 m p q v (w ∷ ws) up h =
    (load32-store32 m p q v (inl up) ∙ h.0, Holds-store32 m p (q + 4) v ws (omega arith) h.1)

pub stacked-Holds :
    (ws : List ℕ) (m : Ram) (p : ℕ) (rest : List ℕ)
    → 4 * length ws ≤ p
    → p < 2 ^ 32
    → AreWords ws
    → Holds m p rest
    → Holds (stacked m p ws) (p - 4 * length ws) (onto ws rest)
stacked-Holds [] m p rest room small words h = let e : p - 4 * 0 ≡ p = omega arith in rw e h
stacked-Holds (w ∷ ws) m p rest room small words h =
    let e : sub32 p 4 ≡ p - 4 = omega arith in
    let e' : p - 4 * length (w ∷ ws) ≡ p - 4 - 4 * length ws = omega arith in
    let up : p - 4 + 4 ≡ p = omega arith in
    rw (e, e')
      (stacked-Holds ws (store32 m (p - 4) w) (p - 4) (w ∷ rest) (omega arith) (omega arith) words.1
        (
          load32-store32_self m (p - 4) w words.0,
          rw up (Holds-store32 m (p - 4) p w rest (omega arith) h),
        ))

-- Memory that agrees on the words holds them too.
pub Holds-same :
    (m m' : Ram) (p : ℕ) (ws : List ℕ)
    → ((a : ℕ) → p ≤ a → a < p + 4 * length ws → m' a ≡ m a)
    → Holds m p ws
    → Holds m' p ws
Holds-same m m' p [] same h = tt
Holds-same m m' p (w ∷ ws) same h = (
  load32-kept m m' p (λ a l below. same a l (omega arith)) ∙ h.0,
  Holds-same m m' (p + 4) ws (λ a l below. same a (omega arith) (omega arith)) h.1,
)

pub Holds-get :
    (ws : List ℕ) (m : Ram) (p k : ℕ)
    → Holds m p ws
    → k < length ws
    → load32 m (p + 4 * k) ≡ get_or ws k 0
Holds-get [] m p k h below = absurd (omega arith)
Holds-get (w ∷ ws) m p zero h below = let e : p + 4 * 0 ≡ p = omega arith in rw e h.0
Holds-get (w ∷ ws) m p (suc k) h below =
    let e : p + 4 * suc k ≡ p + 4 + 4 * k = omega arith in
    rw e (Holds-get ws m (p + 4) k h.1 (omega arith))
