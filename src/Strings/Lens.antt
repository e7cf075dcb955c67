-- ===== src/Strings/Lens.antt =====
-- The string functions on a state of which plain memory is a part.
use torch_os.Base.{
  ℕ, zero, suc, ◌+◌, ◌-◌, ◌/◌, ◌≡◌, ◌∙◌, refl, ok, panic, hang, out_of_fuel, ◌>>=◌, Outcome, ap,
}
use torch_os.Hardware.Ram.{Ram, load8, store8}
use torch_os.Hardware.Bus.{Bus, flat}
use torch_os.Strings.{strlen, strlen_from, strrev, strrev_from, addresses}

-- The bus reads and writes the part of the state that `get` gives and `put` replaces.
pub record Lens {S : Type 0} (bus : Bus S) : Type 0 where
  pub get : S → Ram
  pub put : S → Ram → S
  pub read : (a : ℕ) (s : S) → bus.read a s ≡ ok (load8 (get s) a)
  pub write : (a v : ℕ) (s : S) → bus.write a v s ≡ ok (put s (store8 (get s) a v))
  pub get_put : (s : S) (m : Ram) → get (put s m) ≡ m
  pub put_put : (s : S) (m m' : Ram) → put (put s m) m' ≡ put s m'
  pub put_get : (s : S) → put s (get s) ≡ s

module _ {S : Type 0} (bus : Bus S) (lens : Lens bus) where
  open lens use {get, put, read, write, get_put, put_put, put_get}

  strlen_from-Lens :
      (fuel p len : ℕ) (s : S) → strlen_from bus fuel p len s ≡ strlen_from flat fuel p len (get s)
  unfolding strlen_from
  strlen_from-Lens zero p len s = refl
  strlen_from-Lens (suc fuel) p len s = rw (read (p + len) s, strlen_from-Lens fuel p (len + 1) s)

  pub strlen-Lens : (p : ℕ) (s : S) → strlen bus p s ≡ strlen flat p (get s)
  unfolding strlen
  strlen-Lens p s = strlen_from-Lens addresses p 0 s

  back : S → Outcome Ram → Outcome S
  back s r = r >>= λ m. ok (put s m)

  back-put : (s : S) (m : Ram) (r : Outcome Ram) → back (put s m) r ≡ back s r
  unfolding back
  back-put s m (ok m') = ap ok (put_put s m m')
  back-put s m (panic text) = refl
  back-put s m hang = refl
  back-put s m out_of_fuel = refl

  strrev_from-Lens :
      (left p len i : ℕ) (s : S)
      → strrev_from bus left p len i s ≡ back s (strrev_from flat left p len i (get s))
  unfolding strrev_from back
  strrev_from-Lens zero p len i s = rw (put_get s)
  strrev_from-Lens (suc left) p len i s =
      let i' = p + i in
      let j' = p + (len - 1 - i) in
      let m1 = store8 (get s) i' (load8 (get s) j') in
      let m2 = store8 m1 j' (load8 (get s) i') in
      rw
        (
          read i' s,
          read j' s,
          write i' (load8 (get s) j') s,
          write j' (load8 (get s) i') (put s m1),
          get_put s m1,
          put_put s m1 m2,
          strrev_from-Lens left p len (i + 1) (put s m2),
          get_put s m2,
        )
        (back-put s m2 (strrev_from flat left p len (i + 1) m2))

  pub strrev-Lens : (p : ℕ) (s : S) → strrev bus p s ≡ strrev flat p (get s) >>= λ m. ok (put s m)
  unfolding strrev back
  strrev-Lens p s =
      ap (λ r. do len ← r; strrev_from bus (len / 2) p len 0 s) (strlen-Lens p s)
      ∙ go (strlen flat p (get s))
    where
      go :
          (r : Outcome ℕ)
          → (do len ← r; strrev_from bus (len / 2) p len 0 s)
            ≡ (do len ← r; strrev_from flat (len / 2) p len 0 (get s)) >>= λ m. ok (put s m)
      go (ok len) = strrev_from-Lens (len / 2) p len 0 s
      go (panic text) = refl
      go hang = refl
      go out_of_fuel = refl
