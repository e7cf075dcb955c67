-- ===== src/Hardware/Ram.antt =====
-- Memory as bytes, and the 32-bit loads and stores of the code, which are little endian.
use torch_os.Base.{ℕ, ◌+◌, ◌*◌, ◌/◌, ◌^◌, ◌≤◌, ◌<◌, ◌≡◌, ◌⊎◌, arith, ◌==◌, if◌then◌else◌, u8}

-- A cell counts by its low 8 bits.
abbrev pub Ram : Type 0
Ram = ℕ → ℕ

unfoldable pub load8 : Ram → ℕ → ℕ
load8 m a = u8 (m a)

unfoldable pub store8 : Ram → ℕ → ℕ → Ram
store8 m a v b = if b == a then u8 v else m b

unfoldable pub load32 : Ram → ℕ → ℕ
unfolding load8
load32 m a =
    load8 m a + 2 ^ 8 * load8 m (a + 1) + 2 ^ 16 * load8 m (a + 2) + 2 ^ 24 * load8 m (a + 3)

unfoldable pub store32 : Ram → ℕ → ℕ → Ram
unfolding store8
store32 m a v =
    store8 (store8 (store8 (store8 m a v) (a + 1) (v / 2 ^ 8)) (a + 2) (v / 2 ^ 16)) (a + 3)
      (v / 2 ^ 24)

-- The words at `a` and `b` have no byte in common.
abbrev pub Apart : ℕ → ℕ → Type 0
Apart a b = (a + 4 ≤ b) ⊎ (b + 4 ≤ a)

pub load8-lt : (m : Ram) (a : ℕ) → load8 m a < 2 ^ 8
unfolding load8
load8-lt m a = omega arith

pub load8-same : (m m' : Ram) (a : ℕ) → m' a ≡ m a → load8 m' a ≡ load8 m a
unfolding load8
load8-same m m' a same = rw same

pub load8-store8 :
    (m : Ram) (a b v : ℕ) → load8 (store8 m a v) b ≡ (if b == a then u8 v else load8 m b)
unfolding load8 store8
load8-store8 m a b v = ground arith

pub load32-lt : (m : Ram) (a : ℕ) → load32 m a < 2 ^ 32
unfolding load32
load32-lt m a = omega arith

-- A store touches only its four bytes.
pub load8-store32 :
    (m : Ram) (a v b : ℕ) → (b + 1 ≤ a) ⊎ (a + 4 ≤ b) → load8 (store32 m a v) b ≡ load8 m b
unfolding load8 store32
load8-store32 m a v b h = ground arith

pub store32-other : (m : Ram) (a v b : ℕ) → (b + 1 ≤ a) ⊎ (a + 4 ≤ b) → store32 m a v b ≡ m b
unfolding store32
store32-other m a v b h = ground arith

-- A word depends on its four bytes.
pub load32-kept :
    (m m' : Ram) (a : ℕ) → ((b : ℕ) → a ≤ b → b < a + 4 → m' b ≡ m b) → load32 m' a ≡ load32 m a
unfolding load32
load32-kept m m' a h = rw (
  h a (omega arith) (omega arith),
  h (a + 1) (omega arith) (omega arith),
  h (a + 2) (omega arith) (omega arith),
  h (a + 3) (omega arith) (omega arith),
)

pub load32-same :
    (m m' : Ram) (a : ℕ) → ((b : ℕ) → b < a + 4 → m' b ≡ m b) → load32 m' a ≡ load32 m a
load32-same m m' a h = load32-kept m m' a (λ b from below. h b below)

pub load32-store32_self : (m : Ram) (a v : ℕ) → v < 2 ^ 32 → load32 (store32 m a v) a ≡ v
unfolding load32 store32
load32-store32_self m a v h = ground arith

pub load32-store32 : (m : Ram) (a b v : ℕ) → Apart a b → load32 (store32 m a v) b ≡ load32 m b
unfolding load32
load32-store32 m a b v h = omega (
  arith,
  load8-store32 m a v b (omega arith),
  load8-store32 m a v (b + 1) (omega arith),
  load8-store32 m a v (b + 2) (omega arith),
  load8-store32 m a v (b + 3) (omega arith),
)
