-- ===== src/Keyboard/Keys.antt =====
-- What the keys do.
use torch_os.Base.{
  ℕ, zero, suc, ◌+◌, ◌-◌, ◌≤◌, ◌<◌, ◌≡◌, ◌||◌, ◌&&◌, refl, arith, ◌==◌, ltb, leb, if◌then◌else◌,
  Bool, true, false, not, bit_and, ok, hang, ◌>>=◌, Bool-cases, ==_iff, inl, inr,
}
use torch_os.Base.Bits.{bit_and-two_pow}
use torch_os.Tty.{terminal_putchar}
use torch_os.Isr.{Handler, Handlers}
use torch_os.Keyboard.{Keyboard, is_shift, keyboard_handler, init_keyboard, normal_map, shift_map}

abbrev pub is_lower : ℕ → Bool
is_lower c = leb b'a' c && leb c b'z'

-- A test of the codes from `limit` down to 0.
each_code : (test : ℕ → Bool) → ℕ → Bool
each_code test zero = true
each_code test (suc limit) = test limit && each_code test limit

each_code-passed :
    (test : ℕ → Bool) (limit code : ℕ)
    → code < limit
    → each_code test limit ≡ true
    → test code ≡ true
unfolding each_code
each_code-passed test zero code below passed = absurd (omega arith)
each_code-passed test (suc limit) code below passed = elim (Bool-cases (code == limit)) [
  | inl last ↦ let at = (==_iff code limit).0 last in rw at (ground arith)
  | inr before ↦ each_code-passed test limit code (ground arith) (ground arith)
]

abbrev pub blank : ℕ → ℕ
blank i = 0

-- What a letter's key gives with shift: the capital letter, but for the key of `u`, nothing.
abbrev expected : ℕ → ℕ
expected s = if s == 0x16 then 0 else normal_map s - 32

abbrev letter_ok : ℕ → Bool
letter_ok s = not (is_lower (normal_map s)) || (shift_map blank s == expected s && not (is_shift s))

letter_table : each_code letter_ok 128 ≡ true
unfolding each_code normal_map shift_map
letter_table = refl

letter-shifted :
    (s : ℕ)
    → s < 128
    → is_lower (normal_map s) ≡ true
    → (shift_map blank s ≡ expected s) × (is_shift s ≡ false)
letter-shifted s h lower = ground (arith, each_code-passed letter_ok 128 s h letter_table)

pressed : (s : ℕ) → s < 128 → (bit_and s 0x80 == 0) ≡ true
pressed s h = ground (arith, bit_and-two_pow s 7)

released : (s : ℕ) → 128 ≤ s → s < 256 → (bit_and s 0x80 == 0) ≡ false
released s h k = ground (arith, bit_and-two_pow s 7)

-- Pressing a shift key and releasing it again gives back the keyboard's state.
pub shift-press-release :
    (s : ℕ) (k : Keyboard)
    → is_shift s ≡ true
    → (keyboard_handler s k >>= λ k'. keyboard_handler (s + 0x80) k') ≡ ok k
unfolding keyboard_handler
shift-press-release s k shift = ground (arith, pressed s, released (s + 128))

-- Releasing any other key changes nothing.
pub release-other :
    (s : ℕ) (k : Keyboard) → s < 128 → is_shift s ≡ false → keyboard_handler (s + 0x80) k ≡ ok k
unfolding keyboard_handler
release-other s k h other = ground (arith, released (s + 128))

-- The maps are those of `init_keyboard`.
pub record IsMapped (k : Keyboard) : Type 0 where
  pub normal : k.keymap 0 ≡ normal_map
  pub shifted : k.keymap 1 ≡ shift_map blank

-- `init_keyboard` sets them, if the second map is clear, as the kernel is loaded.
pub init_keyboard-IsMapped :
    {S : Type 0} (handler : Handler S) (table : Handlers S) (k : Keyboard)
    → k.keymap 1 ≡ blank
    → IsMapped (init_keyboard handler table k).1
unfolding init_keyboard
init_keyboard-IsMapped handler table k clear = record { normal = refl; shifted = rw clear }

-- With the maps of `init_keyboard` and a shift key held, pressing a letter's key prints the
-- capital letter, but the key of `u` hangs the kernel.
pub shifted_letter :
    (s : ℕ) (k : Keyboard)
    → IsMapped k
    → 0 < k.shift
    → s < 128
    → is_lower (normal_map s) ≡ true
    → keyboard_handler s k ≡ (
        if s == 0x16
        then hang
        else ok (record k { terminal = terminal_putchar (normal_map s - 32) k.terminal }))
unfolding keyboard_handler
shifted_letter s k maps held h lower =
    let (at, other) = letter-shifted s h lower in
    let up : ltb 0 k.shift ≡ true = ground arith in
    rw (pressed s h, other, up, maps.shifted, at)
      (elim (Bool-cases (s == 0x16)) [
        | inl u ↦ rw u
        | inr letter ↦
            let printable : (normal_map s - 32 == 0) ≡ false = ground arith in
            rw (letter, printable)
      ])
