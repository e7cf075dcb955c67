-- ===== src/Tty/Screen.antt =====
-- Which cells the terminal writes.
use torch_os.Base.{
  ℕ, ◌+◌, ◌*◌, ◌^◌, ◌≤◌, ◌<◌, ◌≡◌, ◌≢◌, refl, ◌∙◌, arith, List, [], ◌∷◌, ◌==◌, if◌then◌else◌, u8,
  length,
}
use torch_os.Tty.{Terminal, vga_char, terminal_putchar, terminal_print}

-- The cursor is on the screen.
pub record IsOnScreen (t : Terminal) : Type 0 where
  pub row : t.row < 25
  pub column : t.column < 80

-- A character other than a newline goes to the cursor's cell and nowhere else.
pub putchar-cells :
    (c : ℕ) (t : Terminal) (i : ℕ)
    → c ≢ b'\n'
    → t.row * 80 + t.column < 2 ^ 32
    → (terminal_putchar c t).cells i
      ≡ (if i == t.row * 80 + t.column then vga_char t.color (u8 c) else t.cells i)
unfolding terminal_putchar
putchar-cells c t i ne fits = ground arith

-- It keeps the cursor on the screen.
pub putchar-IsOnScreen :
    (c : ℕ) (t : Terminal) → c ≢ b'\n' → IsOnScreen t → IsOnScreen (terminal_putchar c t)
unfolding terminal_putchar
putchar-IsOnScreen c t ne on = ground arith

-- Nothing but the last row's newline takes it off.
pub newline-row : (t : Terminal) → IsOnScreen t → (terminal_putchar b'\n' t).row ≡ t.row + 1
unfolding terminal_putchar
newline-row t on = ground arith

-- Below the screen the cursor stays below.
pub record IsBelow (t : Terminal) : Type 0 where
  pub row : 25 ≤ t.row
  pub column : t.column < 80

abbrev pub NoNewline : List ℕ → Type 0
NoNewline [] = Unit {0}
NoNewline (c ∷ rest) = (c ≢ b'\n') × NoNewline rest

-- The cells of the screen, and those behind it.
abbrev pub SameScreen : (before after : ℕ → ℕ) → Type 0
SameScreen before after = (i : ℕ) → i < 2000 → after i ≡ before i

abbrev pub SameBehind : (before after : ℕ → ℕ) → Type 0
SameBehind before after = (i : ℕ) → 2000 ≤ i → after i ≡ before i

-- Printing text without newlines with the cursor on the screen keeps it there and writes no cell
-- behind the screen.
pub terminal_print-IsOnScreen :
    (text : List ℕ) (t : Terminal)
    → NoNewline text
    → IsOnScreen t
    → IsOnScreen (terminal_print text t) × SameBehind t.cells (terminal_print text t).cells
unfolding terminal_print
terminal_print-IsOnScreen [] t plain on = (on, λ i h. refl)
terminal_print-IsOnScreen (c ∷ rest) t plain on =
    let (on', kept) =
      terminal_print-IsOnScreen rest (terminal_putchar c t) plain.1
        (putchar-IsOnScreen c t plain.0 on) in
    (on', λ i h. kept i h ∙ putchar-behind i h)
  where
    putchar-behind : (i : ℕ) → 2000 ≤ i → (terminal_putchar c t).cells i ≡ t.cells i
    putchar-behind i h =
        let row = on.row in
        let column = on.column in
        let fits : t.row * 80 + t.column < 2 ^ 32 = omega arith in
        ground (arith, putchar-cells c t i plain.0 fits)

putchar-IsBelow :
    (c : ℕ) (t : Terminal)
    → t.row * 80 + 80 ≤ 2 ^ 32
    → IsBelow t
    → IsBelow (terminal_putchar c t) × ((terminal_putchar c t).row ≤ t.row + 1)
unfolding terminal_putchar
putchar-IsBelow c t fits below = ground arith

putchar-cells_below :
    (c : ℕ) (t : Terminal) (i : ℕ)
    → t.row * 80 + 80 ≤ 2 ^ 32
    → IsBelow t
    → i < 2000
    → (terminal_putchar c t).cells i ≡ t.cells i
unfolding terminal_putchar
putchar-cells_below c t i fits below h = ground arith

-- Once the cursor is below the screen, printing changes no cell of the screen and leaves the
-- cursor below it, as long as the index of no cell wraps.
pub terminal_print-IsBelow :
    (text : List ℕ) (t : Terminal)
    → IsBelow t
    → (t.row + length text) * 80 + 80 ≤ 2 ^ 32
    → IsBelow (terminal_print text t) × SameScreen t.cells (terminal_print text t).cells
unfolding terminal_print
terminal_print-IsBelow [] t below fits = (below, λ i h. refl)
terminal_print-IsBelow (c ∷ rest) t below fits =
    let (below', step) = putchar-IsBelow c t (omega arith) below in
    let (end, kept) = terminal_print-IsBelow rest (terminal_putchar c t) below' (omega arith) in
    (end, λ i h. kept i h ∙ putchar-cells_below c t i (omega arith) below h)

-- A newline on the last row puts the cursor there.
pub newline-IsBelow :
    (t : Terminal) → IsOnScreen t → t.row ≡ 24 → IsBelow (terminal_putchar b'\n' t)
unfolding terminal_putchar
newline-IsBelow t on last = ground arith
