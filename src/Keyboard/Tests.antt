-- ===== src/Keyboard/Tests.antt =====
-- The keyboard's theorems at work: the keys of `a` and of the left shift.
use torch_os.Base.{◌+◌, ◌-◌, ◌==◌, ◌≡◌, refl, arith, if◌then◌else◌, ok, hang}
use torch_os.Tty.{Terminal, terminal_putchar}
use torch_os.Keyboard.{Keyboard, keyboard_handler, normal_map, shift_map}
use torch_os.Keyboard.Keys.{blank, IsMapped, shifted_letter, release-other}

abbrev terminal : Terminal
terminal = record { row = 0; column = 0; color = 7; cells = λ i. 0 }

abbrev held : Keyboard
held = record {
  keymap = λ m. if m == 0 then normal_map else shift_map blank;
  shift = 1;
  terminal = terminal;
}

held-IsMapped : IsMapped held
held-IsMapped = record { normal = refl; shifted = refl }

shifted_letter_example : keyboard_handler 0x1E held ≡ (
    if 0x1E == 0x16
    then hang
    else ok (record held { terminal = terminal_putchar (normal_map 0x1E - 32) terminal }))
unfolding normal_map
shifted_letter_example = shifted_letter 0x1E held held-IsMapped (omega arith) (omega arith) refl

release-other_example : keyboard_handler (0x1E + 0x80) held ≡ ok held
release-other_example = release-other 0x1E held (omega arith) refl
