-- ===== src/Logger/Format.antt =====
-- `logf` against a description of its formats: a format is read into pieces, and each piece is
-- spelled with its argument.
use torch_os.Base.{
  ℕ, ◌+◌, ◌^◌, ◌≤◌, ◌<◌, ◌⊎◌, ◌==◌, List, [], ◌∷◌, ◌++◌, if◌then◌else◌, Bool, true, false, u8,
}
use torch_os.Hardware.Ram.{Ram}
use torch_os.Strings.Text.{IsText}
use torch_os.Strings.Text.{text_of}
use torch_os.Logger.Numeral.{numeral, decimal}

pub data Piece : Type 0 where
  literal : ℕ → Piece
  string character hex unsigned : Piece

-- The pieces of a format, whose last character was a `%` or not. A `%` before anything but the
-- four directives is dropped.
abbrev pub pieces : (percent : Bool) → List ℕ → List Piece
pieces percent [] = []
pieces false (c ∷ cs) = if c == b'%' then pieces true cs else literal c ∷ pieces false cs
pieces true (c ∷ cs) =
    if c == b's'
    then string ∷ pieces false cs
    else if c == b'c'
    then character ∷ pieces false cs
    else if c == b'x'
    then hex ∷ pieces false cs
    else if c == b'u'
    then unsigned ∷ pieces false cs
    else if c == b'%'
    then pieces true cs
    else literal c ∷ pieces false cs

-- `words` are the arguments, and `lengths` those of the strings among them.
module _ (m : Ram) (words lengths : ℕ → ℕ) where
  -- The characters of the pieces, with the arguments from the `i`th on.
  abbrev pub spelled : (i : ℕ) → List Piece → List ℕ
  spelled i [] = []
  spelled i (literal c ∷ ps) = c ∷ spelled i ps
  spelled i (string ∷ ps) = text_of m (words i) (lengths i) ++ spelled (i + 1) ps
  spelled i (character ∷ ps) = u8 (words i) ∷ spelled (i + 1) ps
  spelled i (hex ∷ ps) = b'0' ∷ b'x' ∷ (numeral 16 8 (words i) ++ spelled (i + 1) ps)
  spelled i (unsigned ∷ ps) = decimal (words i) ++ spelled (i + 1) ps

  -- The string arguments are C strings outside the array of `print_serial_unsigned_decimal`.
  abbrev pub Readable : (buffer i : ℕ) → List Piece → Type 0
  Readable buffer i [] = Unit {0}
  Readable buffer i (literal c ∷ ps) = Readable buffer i ps
  Readable buffer i (string ∷ ps) =
      IsText m (words i) (lengths i)
      × (lengths i < 2 ^ 32)
      × ((words i + lengths i < buffer) ⊎ (buffer + 25 ≤ words i))
      × Readable buffer (i + 1) ps
  Readable buffer i (character ∷ ps) = Readable buffer (i + 1) ps
  Readable buffer i (hex ∷ ps) = Readable buffer (i + 1) ps
  Readable buffer i (unsigned ∷ ps) = Readable buffer (i + 1) ps
