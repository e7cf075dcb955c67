-- ===== src/Initrd/Layout.antt =====
-- The image in memory is one that `read_ramdisk` can read.
use torch_os.Base.{
  ℕ, zero, suc, ◌+◌, ◌-◌, ◌^◌, ◌≤◌, ◌<◌, ◌≡◌, ◌≢◌, refl, ap, ap₂, arith, List, [], ◌∷◌, ◌++◌, ◌∙◌,
  ◌==◌, false, length, length-append, length-replicate, replicate, ok,
}
use torch_os.Hardware.Ram.{Ram, load8}
use torch_os.Hardware.Bus.{flat}
use torch_os.Strings.Text.{IsText, IsText-suc, text_of}
use torch_os.Filesystem.Ramdisk.{word_at, text_at}
use torch_os.Initrd.{InitFile, pack_size, take, pack_name, pack_file, make_initrd}

-- The bytes stand from `p` on.
abbrev pub Bytes : Ram → ℕ → List ℕ → Type 0
Bytes m p [] = Unit {0}
Bytes m p (b ∷ bs) = (load8 m p ≡ b) × Bytes m (p + 1) bs

pub Bytes-append :
    (m : Ram) (p : ℕ) (xs ys : List ℕ)
    → Bytes m p (xs ++ ys)
    → Bytes m p xs × Bytes m (p + length xs) ys
Bytes-append m p [] ys h = let e : p + 0 ≡ p = omega arith in (tt, rw e h)
Bytes-append m p (x ∷ xs) ys h =
    let (here, behind) = Bytes-append m (p + 1) xs ys h.1 in
    let e : p + length (x ∷ xs) ≡ p + 1 + length xs = omega arith in ((h.0, here), rw e behind)

-- The characters of a name.
abbrev pub NonZero : List ℕ → Type 0
NonZero [] = Unit {0}
NonZero (c ∷ cs) = (c ≢ 0) × NonZero cs

-- A file with a name that fits, and its terminator with it.
pub record IsNamed (f : InitFile) : Type 0 where
  pub nonzero : NonZero f.name
  pub short : length f.name < 128
  pub small : length f.contents < 2 ^ 32

abbrev pub AreNamed : List InitFile → Type 0
AreNamed [] = Unit {0}
AreNamed (f ∷ fs) = IsNamed f × AreNamed fs

text_at-IsText :
    (fuel p n : ℕ) (m : Ram) → IsText m p n → n < fuel → text_at flat fuel p m ≡ ok (text_of m p n)
unfolding text_at
text_at-IsText zero p n m text enough = absurd (omega arith)
text_at-IsText (suc fuel) p zero m text enough =
    let start : p + 0 ≡ p = omega arith in
    let end : load8 m p ≡ 0 = rw start at text.ends in rw end refl
text_at-IsText (suc fuel) p (suc n) m text enough =
    let start : p + 0 ≡ p = omega arith in
    let there : load8 m p ≢ 0 = rw start at (text.nonzero 0 (omega arith)) in
    let test : (load8 m p == 0) ≡ false = ground arith in
    rw (test, text_at-IsText fuel (p + 1) n m (IsText-suc m p n text) (omega arith)) refl

take-short : (xs : List ℕ) (n : ℕ) → length xs ≤ n → take xs n ≡ xs
take-short [] zero h = refl
take-short [] (suc n) h = refl
take-short (x ∷ xs) zero h = absurd (omega arith)
take-short (x ∷ xs) (suc n) h = ap (λ ys. x ∷ ys) (take-short xs n (omega arith))

Bytes-text_of :
    (m : Ram) (p : ℕ) (name : List ℕ) → Bytes m p name → text_of m p (length name) ≡ name
Bytes-text_of m p [] h = refl
Bytes-text_of m p (c ∷ cs) h = ap₂ (λ x xs. x ∷ xs) h.0 (Bytes-text_of m (p + 1) cs h.1)

Bytes-nonzero :
    (m : Ram) (p : ℕ) (name : List ℕ)
    → Bytes m p name
    → NonZero name
    → (i : ℕ) → i < length name
    → load8 m (p + i) ≢ 0
Bytes-nonzero m p [] h nz i below = absurd (omega arith)
Bytes-nonzero m p (c ∷ cs) h nz zero below = let e : p + 0 ≡ p = omega arith in rw (e, h.0) nz.0
Bytes-nonzero m p (c ∷ cs) h nz (suc i) below =
    let e : p + suc i ≡ p + 1 + i = omega arith in
    rw e (Bytes-nonzero m (p + 1) cs h.1 nz.1 i (omega arith))

pub pack_size-word_at :
    (m : Ram) (p n : ℕ) → n < 2 ^ 32 → Bytes m p (pack_size n) → word_at flat p m ≡ ok n
unfolding word_at pack_size
pack_size-word_at m p n small h =
    let e2 : p + 1 + 1 ≡ p + 2 = omega arith in
    let e3 : p + 2 + 1 ≡ p + 3 = omega arith in
    let b2 = rw e2 at h.1.1.0 in
    let b3 = rw (e2, e3) at h.1.1.1.0 in rw (h.0, h.1.0, b2, b3) (ap ok (omega arith))

-- The name in its array of 128 characters.
module _ (m : Ram) (p : ℕ) (name : List ℕ) (h : Bytes m p (pack_name name)) (nz : NonZero name)
    (short : length name < 128) where
  name_and_zero : Bytes m p name × (load8 m (p + length name) ≡ 0)
  unfolding pack_name
  name_and_zero =
      let whole : take name 128 ≡ name = take-short name 128 (omega arith) in
      let more : 128 - length name ≡ suc (127 - length name) = omega arith in
      let (here, zeros) = Bytes-append m p name (replicate (128 - length name) 0) (rw whole at h) in
      (here, (rw more at zeros).0)

  pub pack_name-IsText : IsText m p (length name)
  pack_name-IsText = record {
    nonzero = Bytes-nonzero m p name name_and_zero.0 nz;
    ends = name_and_zero.1;
  }

  pub pack_name-text_of : text_of m p (length name) ≡ name
  pack_name-text_of = Bytes-text_of m p name name_and_zero.0

length-pack_name : (name : List ℕ) → length name < 128 → length (pack_name name) ≡ 128
unfolding pack_name
length-pack_name name short = omega (
  arith,
  length-append (take name 128) (replicate (128 - length name) 0),
  length-replicate {A = ℕ} (128 - length name) 0,
  ap length (take-short name 128 (omega arith)),
)

-- The file at `p`, read as `read_ramdisk` does: its size, its name up to the terminator, and its
-- contents behind the 132 bytes of those.
pub record Packed (m : Ram) (p : ℕ) (f : InitFile) : Type 0 where
  pub size : word_at flat p m ≡ ok (length f.contents)
  pub name : text_at flat (2 ^ 32) (p + 4) m ≡ ok f.name
  pub contents : Bytes m (p + 132) f.contents

pub pack_file-Packed :
    (m : Ram) (p : ℕ) (f : InitFile) → IsNamed f → Bytes m p (pack_file f) → Packed m p f
unfolding pack_file pack_size
pack_file-Packed m p f named h =
    let (size, behind) = Bytes-append m p (pack_size (length f.contents)) _ h in
    let (name, contents) = Bytes-append m (p + 4) (pack_name f.name) f.contents behind in
    let e : p + 4 + length (pack_name f.name) ≡ p + 132 =
      omega (arith, length-pack_name f.name named.short) in
    record {
      size = pack_size-word_at m p (length f.contents) named.small size;
      name =
          text_at-IsText (2 ^ 32) (p + 4) (length f.name) m
            (pack_name-IsText m (p + 4) f.name name named.nonzero named.short)
            (omega (arith, named.short))
          ∙ ap ok (pack_name-text_of m (p + 4) f.name name named.nonzero named.short);
      contents = rw e at contents;
    }

pub length-pack_file :
    (f : InitFile) → length f.name < 128 → length (pack_file f) ≡ 132 + length f.contents
unfolding pack_file pack_size
length-pack_file f short =
    omega (arith, length-append (pack_name f.name) f.contents, length-pack_name f.name short)

-- The files stand one behind the other, from `p` to `end`.
abbrev pub IsImage : Ram → (p end : ℕ) → List InitFile → Type 0
IsImage m p end [] = p ≡ end
IsImage m p end (f ∷ fs) = Packed m p f × IsImage m (p + 132 + length f.contents) end fs

-- Where the build's image of some files stands in memory, the words and texts of `read_ramdisk`
-- give each file's size and name, its contents follow 132 bytes behind its block's start, and the
-- blocks end with the image, if names have fewer than 128 bytes, none 0, and sizes fit a word.
pub make_initrd-IsImage :
    (m : Ram) (p : ℕ) (fs : List InitFile)
    → AreNamed fs
    → Bytes m p (make_initrd fs)
    → IsImage m p (p + length (make_initrd fs)) fs
unfolding make_initrd
make_initrd-IsImage m p [] named h = omega arith
make_initrd-IsImage m p (f ∷ fs) (named, more) h =
    let (here, behind) = Bytes-append m p (pack_file f) (make_initrd fs) h in
    let long = length-pack_file f named.short in
    let both = length-append (pack_file f) (make_initrd fs) in
    let next : p + length (pack_file f) ≡ p + 132 + length f.contents = omega (arith, long) in
    let end : p + length (pack_file f ++ make_initrd fs)
        ≡ p + 132 + length f.contents + length (make_initrd fs) =
      omega (arith, long, both) in
    (
      pack_file-Packed m p f named here,
      rw end (make_initrd-IsImage m (p + 132 + length f.contents) fs more (rw next at behind)),
    )
