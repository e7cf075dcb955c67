-- ===== src/Keyboard.antt =====
-- kernel/keyboard.c: scan codes, the two key maps and the count of held shift keys.
mod Tests
pub mod Keys
use torch_os.Base.{
  ℕ, ◌+◌, ◌-◌, ◌^◌, ◌||◌, List, [], ◌∷◌, ◌==◌, ltb, if◌then◌else◌, Bool, not, u8, bit_and, Outcome,
  ok, hang, ◌>>=◌, ◌>>◌,
}
use torch_os.Isr.{Handler, Handlers, register_interrupt_handler}
use torch_os.Tty.{Terminal, terminal_putchar}

-- `shift` is an `int`, which is never negative: the code hangs before it goes on so. It is below
-- 2 ^ 31, since each key counts once for each interrupt.
pub record Keyboard : Type 0 where
  pub keymap : ℕ → ℕ → ℕ
  pub shift : ℕ
  pub terminal : Terminal

abbrev pub is_shift : ℕ → Bool
is_shift scan_code = scan_code == 0x2a || scan_code == 0x36

abbrev pub modifier : Keyboard → ℕ
modifier k = if ltb 0 k.shift then 1 else 0

unfoldable pub process_key_press : (scan_code : ℕ) → Keyboard → Outcome Keyboard
process_key_press scan_code k =
    if is_shift scan_code
    then ok (record k { shift = k.shift + 1 })
    else if k.keymap (modifier k) scan_code == 0
    then hang
    else ok (record k { terminal = terminal_putchar (k.keymap (modifier k) scan_code) k.terminal })

unfoldable pub process_key_release : (scan_code : ℕ) → Keyboard → Outcome Keyboard
process_key_release scan_code k =
    if is_shift (u8 (scan_code + 2 ^ 8 - 0x80))
    then (if k.shift == 0 then hang else ok (record k { shift = k.shift - 1 }))
    else ok k

-- `scan_code` is the byte that `inb(0x60)` reads.
unfoldable pub keyboard_handler : (scan_code : ℕ) → Keyboard → Outcome Keyboard
unfolding process_key_press process_key_release
keyboard_handler scan_code k =
    if not (bit_and scan_code 0x80 == 0)
    then process_key_release scan_code k
    else process_key_press scan_code k

-- The assignments `keymap[…][code] = character` of `init_keyboard`, in order.
abbrev pub normal_keys : List (ℕ × ℕ)
normal_keys =
    (0x1E, b'a')
    ∷ (0x30, b'b')
    ∷ (0x2E, b'c')
    ∷ (0x20, b'd')
    ∷ (0x12, b'e')
    ∷ (0x21, b'f')
    ∷ (0x22, b'g')
    ∷ (0x23, b'h')
    ∷ (0x17, b'i')
    ∷ (0x24, b'j')
    ∷ (0x25, b'k')
    ∷ (0x26, b'l')
    ∷ (0x32, b'm')
    ∷ (0x31, b'n')
    ∷ (0x18, b'o')
    ∷ (0x19, b'p')
    ∷ (0x10, b'q')
    ∷ (0x13, b'r')
    ∷ (0x1f, b's')
    ∷ (0x14, b't')
    ∷ (0x16, b'u')
    ∷ (0x2f, b'v')
    ∷ (0x11, b'w')
    ∷ (0x2d, b'x')
    ∷ (0x15, b'y')
    ∷ (0x2c, b'z')
    ∷ (0x1c, b'\n')
    ∷ (0x39, b' ')
    ∷ (0x34, b'.')
    ∷ (0x27, b';')
    ∷ []

abbrev pub shift_keys : List (ℕ × ℕ)
shift_keys =
    (0x1E, b'A')
    ∷ (0x30, b'B')
    ∷ (0x2E, b'C')
    ∷ (0x20, b'D')
    ∷ (0x12, b'E')
    ∷ (0x21, b'F')
    ∷ (0x22, b'G')
    ∷ (0x23, b'H')
    ∷ (0x17, b'I')
    ∷ (0x24, b'J')
    ∷ (0x25, b'K')
    ∷ (0x26, b'L')
    ∷ (0x32, b'M')
    ∷ (0x31, b'N')
    ∷ (0x18, b'O')
    ∷ (0x19, b'P')
    ∷ (0x10, b'Q')
    ∷ (0x13, b'R')
    ∷ (0x1f, b'S')
    ∷ (0x14, b'T')
    ∷ (0x4e, b'U')
    ∷ (0x2f, b'V')
    ∷ (0x11, b'W')
    ∷ (0x2d, b'X')
    ∷ (0x15, b'Y')
    ∷ (0x2c, b'Z')
    ∷ (0x1c, b'\n')
    ∷ (0x39, b' ')
    ∷ (0x34, b'>')
    ∷ (0x27, b':')
    ∷ []

-- Assignments to an array, and what it held before.
assign : List (ℕ × ℕ) → (ℕ → ℕ) → ℕ → ℕ
assign [] keys = keys
assign ((code, character) ∷ rest) keys = assign rest (λ i. if i == code then character else keys i)

unfoldable pub normal_map : ℕ → ℕ
unfolding assign
normal_map = assign normal_keys (λ i. 0)

unfoldable pub shift_map : (before : ℕ → ℕ) → ℕ → ℕ
unfolding assign
shift_map before = assign shift_keys before

-- `memset` clears `KEYMAP_SIZE` bytes: the first of the two maps, and not the second.
unfoldable pub set_keymaps : Keyboard → Keyboard
set_keymaps k = record k {
  keymap =
      λ m. if m == 0 then normal_map else if m == 1 then shift_map (k.keymap 1) else k.keymap m;
}

-- `handler` is `keyboard_handler` on the state of the whole kernel.
unfoldable pub init_keyboard :
    {S : Type 0} → (handler : Handler S) → Handlers S → Keyboard → Handlers S × Keyboard
unfolding set_keymaps
init_keyboard handler table k = (register_interrupt_handler 33 handler table, set_keymaps k)
