-- ===== src/Initrd/Sample.antt =====
-- The bytes of an image with one file, in memory.
use torch_os.Base.{
  ℕ, ◌+◌, ◌≡◌, refl, List, [], ◌∷◌, Bool, true, false, ◌==◌, if◌then◌else◌, Bool-cases, inl, inr,
  ==_iff,
}
use torch_os.Hardware.Ram.{Ram, load8}
use torch_os.Filesystem.Sample.{image}
use torch_os.Initrd.{InitFile, make_initrd}
use torch_os.Initrd.Layout.{Bytes}

abbrev pub files : List InitFile
files = record { name = b'k' ∷ []; contents = b'v' ∷ [] } ∷ []

are_bytes : Ram → ℕ → List ℕ → Bool
are_bytes m p [] = true
are_bytes m p (b ∷ bs) = if load8 m p == b then are_bytes m (p + 1) bs else false

are_bytes-Bytes : (m : Ram) (p : ℕ) (bs : List ℕ) → are_bytes m p bs ≡ true → Bytes m p bs
unfolding are_bytes
are_bytes-Bytes m p [] e = tt
are_bytes-Bytes m p (b ∷ bs) e = elim (Bool-cases (load8 m p == b)) [
  | inl here ↦ ((==_iff (load8 m p) b).0 here, are_bytes-Bytes m (p + 1) bs (rw here at e))
  | inr other ↦ let wrong = rw other at e in cc
]

pub image-Bytes : Bytes image 100 (make_initrd files)
unfolding make_initrd are_bytes load8
image-Bytes = are_bytes-Bytes image 100 (make_initrd files) refl
