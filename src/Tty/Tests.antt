-- ===== src/Tty/Tests.antt =====
-- The terminal's theorems at work.
use torch_os.Base.{arith, [], ◌∷◌}
use torch_os.Tty.{Terminal, terminal_print}
use torch_os.Tty.Screen.{
  IsOnScreen, IsBelow, SameScreen, SameBehind, terminal_print-IsOnScreen, terminal_print-IsBelow,
}

abbrev corner : Terminal
corner = record { row = 24; column = 79; color = 7; cells = λ i. 0 }

abbrev below : Terminal
below = record { row = 25; column = 0; color = 7; cells = λ i. 0 }

terminal_print-IsOnScreen_example :
    IsOnScreen (terminal_print (b'o' ∷ b'k' ∷ []) corner)
    × SameBehind corner.cells (terminal_print (b'o' ∷ b'k' ∷ []) corner).cells
terminal_print-IsOnScreen_example =
    terminal_print-IsOnScreen (b'o' ∷ b'k' ∷ []) corner (omega arith, (omega arith, tt))
      (record { row = omega arith; column = omega arith })

terminal_print-IsBelow_example :
    IsBelow (terminal_print (b'o' ∷ b'k' ∷ []) below)
    × SameScreen below.cells (terminal_print (b'o' ∷ b'k' ∷ []) below).cells
terminal_print-IsBelow_example =
    terminal_print-IsBelow (b'o' ∷ b'k' ∷ []) below
      (record { row = omega arith; column = omega arith }) (omega arith)
