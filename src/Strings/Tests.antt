-- ===== src/Strings/Tests.antt =====
-- The string theorems at work on the text "abc" at address 16.
use torch_os.Base.{◌≡◌, refl, arith, ◌==◌, if◌then◌else◌, ok}
use torch_os.Hardware.Ram.{Ram, load8}
use torch_os.Hardware.Bus.{flat}
use torch_os.Strings.{strncmp, strrev}
use torch_os.Strings.Text.{IsText}
use torch_os.Strings.Compare.{Compared, strncmp-Compared}
use torch_os.Strings.Reverse.{Reversed, strrev-Reversed}

abbrev abc : Ram
abc b = if b == 16 then 97 else if b == 17 then 98 else if b == 18 then 99 else 0

abc-IsText : IsText abc 16 3
unfolding load8
abc-IsText = record { nonzero = λ i h. ground arith; ends = refl }

strncmp-Compared_example : Compared abc 16 32 3 (strncmp flat 16 32 3 abc)
strncmp-Compared_example = strncmp-Compared 16 32 3 abc

strrev-Reversed_example : (m' : Ram) × (strrev flat 16 abc ≡ ok m') × Reversed abc 16 3 m'
strrev-Reversed_example = strrev-Reversed 16 3 abc abc-IsText (omega arith)
