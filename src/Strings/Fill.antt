-- ===== src/Strings/Fill.antt =====
-- `memset` and `memcpy` on plain memory.
use torch_os.Base.{
  ℕ, zero, suc, ◌+◌, ◌-◌, ◌≤◌, ◌<◌, ◌≡◌, ◌⊎◌, inl, inr, ap, ◌∙◌, arith, ◌&&◌, leb, ltb,
  if◌then◌else◌, u8, Outcome, ok, Bool-cases, fun_ext, ◌==◌,
}
use torch_os.Hardware.Ram.{Ram, load8, store8}
use torch_os.Strings.{memset_from, memset, memcpy_loop, memcpy}
use torch_os.Hardware.Bus.{flat}

-- `m` with the bytes of `[p, p + n)` equal to `v`
abbrev pub filled : Ram → (p v n : ℕ) → Ram
filled m p v n a = if leb p a && ltb a (p + n) then u8 v else m a

pub filled-zero : (m : Ram) (p v : ℕ) → filled m p v 0 ≡ m
filled-zero m p v = fun_ext λ a. ground arith

pub filled-store8 :
    (m : Ram) (p v n : ℕ) → filled (store8 m p (u8 v)) (p + 1) v n ≡ filled m p v (suc n)
unfolding store8
filled-store8 m p v n = fun_ext λ a. ground arith

memset_from-filled :
    (left buf value i : ℕ) (m : Ram)
    → memset_from flat left buf value i m ≡ ok (filled m (buf + i) value left)
unfolding memset_from
memset_from-filled zero buf value i m = rw filled-zero
memset_from-filled (suc left) buf value i m =
    memset_from-filled left buf value (i + 1) (store8 m (buf + i) (u8 value)) ∙ step
  where
    step :
        ◌≡◌ {A = Outcome Ram}
          (ok (filled (store8 m (buf + i) (u8 value)) (buf + (i + 1)) value left))
          (ok (filled m (buf + i) value (suc left)))
    step =
        let next : buf + (i + 1) ≡ buf + i + 1 = omega arith in
        rw next (ap ok (filled-store8 m (buf + i) value left))

-- `memset` returns its pointer, every byte of the buffer is the low byte of the value, and all
-- other memory is as before.
pub memset-filled :
    (bufptr value size : ℕ) (m : Ram)
    → memset flat bufptr value size m ≡ ok (bufptr, filled m bufptr value size)
unfolding memset
memset-filled bufptr value size m =
    rw (memset_from-filled size bufptr value 0 m)
      (let start : bufptr + 0 ≡ bufptr = omega arith in rw start)

-- `m` with the bytes of `[s, s + n)` copied to `[d, d + n)`
abbrev pub copied : Ram → (d s n : ℕ) → Ram
copied m d s n a = if leb d a && ltb a (d + n) then load8 m (s + (a - d)) else m a

pub copied-zero : (m : Ram) (d s : ℕ) → copied m d s 0 ≡ m
copied-zero m d s = fun_ext λ a. ground arith

-- One byte more in front. The byte that is written is none of those still to be read.
pub copied-store8 :
    (m : Ram) (d s n : ℕ)
    → (d ≤ s) ⊎ (s + suc n ≤ d)
    → copied (store8 m d (load8 m s)) (d + 1) (s + 1) n ≡ copied m d s (suc n)
unfolding store8 load8
copied-store8 m d s n apart = fun_ext λ a. elim (Bool-cases (leb (d + 1) a)) [
  | inl behind ↦
      let same : s + 1 + (a - (d + 1)) ≡ s + (a - d) = ground arith in rw same (ground arith)
  | inr not_behind ↦ elim (Bool-cases (a == d)) [
    | inl here ↦ let first : s + (a - d) ≡ s = ground arith in rw first (ground arith)
    | inr before ↦ ground arith
  ]
]

-- The loop goes upwards: a destination inside the source's range is overwritten before it is read.
memcpy_loop-copied :
    (num d src : ℕ) (m : Ram)
    → (d ≤ src) ⊎ (src + num ≤ d)
    → memcpy_loop flat num d src m ≡ ok (copied m d src num)
unfolding memcpy_loop
memcpy_loop-copied zero d src m apart = rw copied-zero
memcpy_loop-copied (suc num) d src m apart =
    memcpy_loop-copied num (d + 1) (src + 1) (store8 m d (load8 m src)) (omega arith)
    ∙ ap ok (copied-store8 m d src num apart)

-- Unless the destination starts inside the source's range, `memcpy` returns it, the destination
-- holds the bytes that the source held before, and all other memory is as before.
pub memcpy-copied :
    (destination source num : ℕ) (m : Ram)
    → (destination ≤ source) ⊎ (source + num ≤ destination)
    → memcpy flat destination source num m ≡ ok (destination, copied m destination source num)
unfolding memcpy
memcpy-copied destination source num m apart =
    rw (memcpy_loop-copied num destination source m apart)

pub load8-filled_inside :
    (m : Ram) (p v n a : ℕ) → p ≤ a → a < p + n → load8 (filled m p v n) a ≡ u8 v
unfolding load8
load8-filled_inside m p v n a h k = ground arith

pub filled_outside : (m : Ram) (p v n a : ℕ) → (a < p) ⊎ (p + n ≤ a) → filled m p v n a ≡ m a
filled_outside m p v n a h = ground arith
