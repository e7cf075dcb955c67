-- ===== src/Strings/Reverse.antt =====
-- `strrev` on plain memory.
use torch_os.Base.{
  ℕ, zero, suc, ◌+◌, ◌-◌, ◌^◌, ◌*◌, ◌/◌, ◌≤◌, ◌<◌, ◌≡◌, ◌⊎◌, inl, inr, subst, arith, ◌&&◌, ◌||◌,
  leb, ltb, if◌then◌else◌, ok, Bool-cases, fun_ext, ◌==◌,
}
use torch_os.Hardware.Ram.{Ram, load8, store8}
use torch_os.Hardware.Bus.{flat}
use torch_os.Strings.{strrev_from, strrev}
use torch_os.Strings.Text.{IsText, strlen-IsText}

-- The loop after `i` rounds: the bytes near both ends are swapped.
abbrev swapped : Ram → (p len i : ℕ) → Ram
swapped m p len i a =
    if leb p a && ltb a (p + len) && (ltb (a - p) i || leb (len - i) (a - p))
    then load8 m (p + (len - 1 - (a - p)))
    else m a

swapped-zero : (m : Ram) (p len : ℕ) → swapped m p len 0 ≡ m
swapped-zero m p len = fun_ext λ a. ground arith

module _ (m : Ram) (p len i : ℕ) (room : 2 * (i + 1) ≤ len) where
  front : load8 (swapped m p len i) (p + i) ≡ load8 m (p + i)
  unfolding load8
  front = ground arith

  back : load8 (swapped m p len i) (p + (len - 1 - i)) ≡ load8 m (p + (len - 1 - i))
  unfolding load8
  back = ground arith

  -- A round swaps the next two bytes.
  swapped-suc :
      store8
        (store8 (swapped m p len i) (p + i) (load8 m (p + (len - 1 - i))))
        (p + (len - 1 - i))
        (load8 m (p + i))
      ≡ swapped m p len (i + 1)
  unfolding store8 load8
  swapped-suc = fun_ext λ a. elim (Bool-cases (a == p + (len - 1 - i))) [
    | inl at_back ↦ let mirror : len - 1 - (a - p) ≡ i = ground arith in rw mirror (ground arith)
    | inr other ↦ elim (Bool-cases (a == p + i)) [
      | inl at_front ↦
          let mirror : len - 1 - (a - p) ≡ len - 1 - i = ground arith in rw mirror (ground arith)
      | inr neither ↦ ground arith
    ]
  ]

strrev_from-swapped :
    (left p len i : ℕ) (m : Ram)
    → 2 * (i + left) ≤ len
    → strrev_from flat left p len i (swapped m p len i) ≡ ok (swapped m p len (i + left))
unfolding strrev_from
strrev_from-swapped zero p len i m room = let done : i + 0 ≡ i = omega arith in rw done
strrev_from-swapped (suc left) p len i m room =
    let next : i + suc left ≡ i + 1 + left = omega arith in
    rw
      (
        front m p len i (omega arith),
        back m p len i (omega arith),
        swapped-suc m p len i (omega arith),
        next,
      )
      (strrev_from-swapped left p len (i + 1) m (omega arith))

-- The bytes of a string in reverse order, and all others as before.
pub record Reversed (m : Ram) (p n : ℕ) (m' : Ram) : Type 0 where
  pub mirror : (i : ℕ) → i < n → load8 m' (p + i) ≡ load8 m (p + (n - 1 - i))
  pub others : (a : ℕ) → (a < p) ⊎ (p + n ≤ a) → m' a ≡ m a

strrev_from-half :
    (p n : ℕ) (m : Ram) → strrev_from flat (n / 2) p n 0 m ≡ ok (swapped m p n (n / 2))
strrev_from-half p n m =
    let half : 0 + n / 2 ≡ n / 2 = omega arith in
    subst (λ x. strrev_from flat (n / 2) p n 0 x ≡ ok (swapped m p n (n / 2))) (swapped-zero m p n)
      (rw half at (strrev_from-swapped (n / 2) p n 0 m (omega arith)))

-- A byte in the middle is its own mirror image.
swapped_half :
    (p n i : ℕ) (m : Ram)
    → i < n
    → load8 (swapped m p n (n / 2)) (p + i) ≡ load8 m (p + (n - 1 - i))
unfolding load8
swapped_half p n i m h =
    let back : p + i - p ≡ i = omega arith in
    elim (Bool-cases (ltb i (n / 2) || leb (n - n / 2) i)) [
      | inl outer ↦ rw back (ground arith)
      | inr middle ↦ let same : n - 1 - i ≡ i = ground arith in rw same (ground arith)
    ]

-- On a C string of fewer than 2 ^ 32 characters `strrev` ends, its characters then stand in
-- reverse order, and all other memory is as before.
pub strrev-Reversed :
    (p n : ℕ) (m : Ram)
    → IsText m p n
    → n < 2 ^ 32
    → (m' : Ram) × (strrev flat p m ≡ ok m') × Reversed m p n m'
unfolding strrev
strrev-Reversed p n m text small = (
  swapped m p n (n / 2),
  rw (strlen-IsText m p n text small) (strrev_from-half p n m),
  record { mirror = λ i h. swapped_half p n i m h; others = λ a h. ground arith },
)
