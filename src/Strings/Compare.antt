-- ===== src/Strings/Compare.antt =====
-- `strncmp` on plain memory.
use torch_os.Base.{
  ℕ, zero, suc, ◌+◌, ◌<◌, ◌≡◌, ◌≢◌, inl, inr, arith, Outcome, ok, Bool-cases, ◌==◌, ==_iff,
}
use torch_os.Base.Int.{ℤ, pos, sub_ℕ}
use torch_os.Hardware.Ram.{Ram, load8}
use torch_os.Hardware.Bus.{flat}
use torch_os.Strings.{strncmp}

abbrev pub SameBytes : Ram → (s1 s2 n : ℕ) → Type 0
SameBytes m s1 s2 n = (i : ℕ) → i < n → load8 m (s1 + i) ≡ load8 m (s2 + i)

-- 0 if the `n` bytes agree, and otherwise the difference of the first two that do not.
pub data Compared (m : Ram) (s1 s2 n : ℕ) : Outcome ℤ → Type 0 where
  same : SameBytes m s1 s2 n → Compared m s1 s2 n (ok (pos 0))
  differ :
      (i : ℕ)
      → i < n
      → SameBytes m s1 s2 i
      → load8 m (s1 + i) ≢ load8 m (s2 + i)
      → Compared m s1 s2 n (ok (sub_ℕ (load8 m (s1 + i)) (load8 m (s2 + i))))

SameBytes-suc :
    (m : Ram) (s1 s2 n : ℕ)
    → load8 m s1 ≡ load8 m s2
    → SameBytes m (s1 + 1) (s2 + 1) n
    → SameBytes m s1 s2 (suc n)
SameBytes-suc m s1 s2 n first rest zero h =
    let start1 : s1 + 0 ≡ s1 = omega arith in
    let start2 : s2 + 0 ≡ s2 = omega arith in rw (start1, start2) first
SameBytes-suc m s1 s2 n first rest (suc i) h =
    let next1 : s1 + suc i ≡ s1 + 1 + i = omega arith in
    let next2 : s2 + suc i ≡ s2 + 1 + i = omega arith in rw (next1, next2) (rest i (omega arith))

Compared-suc :
    (m : Ram) (s1 s2 n : ℕ) {r : Outcome ℤ}
    → load8 m s1 ≡ load8 m s2
    → Compared m (s1 + 1) (s2 + 1) n r
    → Compared m s1 s2 (suc n) r
Compared-suc m s1 s2 n first (same all) = same (SameBytes-suc m s1 s2 n first all)
Compared-suc m s1 s2 n first (differ i h before ne) =
    let next1 : s1 + 1 + i ≡ s1 + suc i = omega arith in
    let next2 : s2 + 1 + i ≡ s2 + suc i = omega arith in
    rw (next1, next2)
      (differ (suc i) (omega arith) (SameBytes-suc m s1 s2 i first before)
        (rw (← next1, ← next2) ne))

Compared-first :
    (m : Ram) (s1 s2 n : ℕ)
    → load8 m s1 ≢ load8 m s2
    → Compared m s1 s2 (suc n) (ok (sub_ℕ (load8 m s1) (load8 m s2)))
Compared-first m s1 s2 n ne =
    let start1 : s1 + 0 ≡ s1 = omega arith in
    let start2 : s2 + 0 ≡ s2 = omega arith in
    let ne' : load8 m (s1 + 0) ≢ load8 m (s2 + 0) = rw (start1, start2) ne in
    let first : Compared m s1 s2 (suc n) (ok (sub_ℕ (load8 m (s1 + 0)) (load8 m (s2 + 0)))) =
      differ 0 (omega arith) (λ i h. absurd (omega arith)) ne' in
    rw (start1, start2) at first

-- `strncmp` returns 0 if its `n` bytes agree, also behind a terminator, and otherwise the
-- difference, as unsigned characters, of the first two that do not.
pub strncmp-Compared : (s1 s2 n : ℕ) (m : Ram) → Compared m s1 s2 n (strncmp flat s1 s2 n m)
unfolding strncmp
strncmp-Compared s1 s2 zero m = same (λ i h. absurd (omega arith))
strncmp-Compared s1 s2 (suc n) m = elim (Bool-cases (load8 m s1 == load8 m s2)) [
  | inl e ↦
      rw e (Compared-suc m s1 s2 n ((==_iff _ _).0 e) (strncmp-Compared (s1 + 1) (s2 + 1) n m))
  | inr ne ↦ rw ne (Compared-first m s1 s2 n (λ e. ground arith))
]
