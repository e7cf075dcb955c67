-- ===== src/Strings/Text.antt =====
-- `strlen` and `strcpy` on plain memory.
use torch_os.Base.{
  ℕ, zero, suc, ◌+◌, ◌^◌, ◌≤◌, ◌<◌, ◌≡◌, ◌≢◌, ◌⊎◌, inl, inr, refl, sym, ap₂, List, [], ◌∷◌, ◌∙◌,
  arith, true, false, ok, Bool-cases, ◌==◌, ==_iff, ap,
}
use torch_os.Hardware.Ram.{Ram, load8, store8}
use torch_os.Hardware.Bus.{flat}
use torch_os.Strings.{addresses, strlen_from, strlen, strcpy_loop, strcpy}
use torch_os.Strings.Fill.{copied, copied-zero, copied-store8}

-- At `p` stands a C string of `n` characters: its first zero byte is at `p + n`.
pub record IsText (m : Ram) (p n : ℕ) : Type 0 where
  pub nonzero : (i : ℕ) → i < n → load8 m (p + i) ≢ 0
  pub ends : load8 m (p + n) ≡ 0

-- The `n` characters at `p`.
abbrev pub text_of : Ram → (p n : ℕ) → List ℕ
text_of m p zero = []
text_of m p (suc n) = load8 m p ∷ text_of m (p + 1) n

-- A text without its first character.
pub IsText-suc : (m : Ram) (p n : ℕ) → IsText m p (suc n) → IsText m (p + 1) n
IsText-suc m p n text = record {
  nonzero = λ i h.
      let next : p + 1 + i ≡ p + suc i = omega arith in
      rw next (text.nonzero (suc i) (omega arith));
  ends = let next : p + 1 + n ≡ p + suc n = omega arith in rw next text.ends;
}

-- Memories that agree on a text.
pub IsText-same :
    (m m' : Ram) (p n : ℕ)
    → ((i : ℕ) → i ≤ n → load8 m' (p + i) ≡ load8 m (p + i))
    → IsText m p n
    → IsText m' p n
IsText-same m m' p n same text = record {
  nonzero = λ i h e. text.nonzero i h (sym (same i (omega arith)) ∙ e);
  ends = same n (omega arith) ∙ text.ends;
}

pub text_of-same :
    (m m' : Ram) (p n : ℕ)
    → ((i : ℕ) → i < n → load8 m' (p + i) ≡ load8 m (p + i))
    → text_of m' p n ≡ text_of m p n
text_of-same m m' p zero same = refl
text_of-same m m' p (suc n) same =
    let start : p + 0 ≡ p = omega arith in
    ap₂ (λ c cs. c ∷ cs) (rw start at (same 0 (omega arith)))
      (text_of-same m m' (p + 1) n (λ i h.
        let next : p + suc i ≡ p + 1 + i = omega arith in rw next at (same (suc i) (omega arith))))

module _ (m : Ram) (p n : ℕ) (text : IsText m p n) where
  strlen_from-IsText :
      (fuel len : ℕ) → len ≤ n → n < len + fuel → strlen_from flat fuel p len m ≡ ok n
  unfolding strlen_from
  strlen_from-IsText zero len below enough = absurd (omega arith)
  strlen_from-IsText (suc fuel) len below enough = elim (Bool-cases (len == n)) [
    | inl here ↦
        let same = (==_iff len n).0 here in
        let e : (load8 m (p + len) == 0) ≡ true = rw (same, text.ends) in rw (e, same)
    | inr more ↦
        let e : (load8 m (p + len) == 0) ≡ false = ground (arith, text.nonzero len) in
        rw e (strlen_from-IsText fuel (len + 1) (ground arith) (omega arith))
  ]

  -- On a C string of fewer than 2 ^ 32 characters `strlen` ends, with the number of its
  -- characters.
  pub strlen-IsText : n < 2 ^ 32 → strlen flat p m ≡ ok n
  unfolding strlen
  strlen-IsText small = strlen_from-IsText addresses 0 (omega arith) (omega arith)

IsText-store :
    (m : Ram) (d p n : ℕ) (v : ℕ)
    → IsText m p (suc n)
    → (d ≤ p) ⊎ (p + suc (suc n) ≤ d)
    → IsText (store8 m d v) (p + 1) n
unfolding store8 load8
IsText-store m d p n v text apart = record {
  nonzero = λ i h.
      let next : p + 1 + i ≡ p + suc i = omega arith in
      rw next (ground (arith, text.nonzero (suc i)));
  ends = let next : p + 1 + n ≡ p + suc n = omega arith in rw next (ground (arith, text.ends));
}

strcpy_loop-copied :
    (fuel d p n : ℕ) (m : Ram)
    → IsText m p n
    → (d ≤ p) ⊎ (p + suc n ≤ d)
    → n < fuel
    → strcpy_loop flat fuel d p m ≡ ok (copied m d p (suc n))
unfolding strcpy_loop
strcpy_loop-copied zero d p n m text apart enough = absurd (omega arith)
strcpy_loop-copied (suc fuel) d p zero m text apart enough =
    let start : p + 0 ≡ p = omega arith in
    let e : (load8 m p == 0) ≡ true = rw (← start, text.ends) in
    rw e (
      ap ok
        (sym (copied-zero (store8 m d (load8 m p)) (d + 1) (p + 1)) ∙ copied-store8 m d p 0 apart))
strcpy_loop-copied (suc fuel) d p (suc n) m text apart enough =
    let start : p + 0 ≡ p = omega arith in
    let e : (load8 m p == 0) ≡ false = rw (← start) (ground (arith, text.nonzero 0)) in
    rw e (
      strcpy_loop-copied fuel (d + 1) (p + 1) n (store8 m d (load8 m p))
        (IsText-store m d p n (load8 m p) text apart) (omega arith) (omega arith)
      ∙ ap ok (copied-store8 m d p (suc n) apart))

-- `strcpy` of a C string of fewer than 2 ^ 32 characters ends with the destination, which holds
-- the characters and the terminator, unless the destination starts inside the source; all other
-- memory is as before.
pub strcpy-copied :
    (destination source n : ℕ) (m : Ram)
    → IsText m source n
    → (destination ≤ source) ⊎ (source + suc n ≤ destination)
    → n < 2 ^ 32
    → strcpy flat destination source m ≡ ok (destination, copied m destination source (suc n))
unfolding strcpy
strcpy-copied destination source n m text apart small =
    rw (strcpy_loop-copied addresses destination source n m text apart small)
