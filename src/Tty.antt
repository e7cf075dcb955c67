-- ===== src/Tty.antt =====
-- kernel/tty.c: the terminal on the VGA text buffer.
mod Tests
pub mod Screen
use torch_os.Base.{
  ℕ, zero, suc, ◌+◌, ◌*◌, ◌^◌, List, [], ◌∷◌, ◌==◌, if◌then◌else◌, add32, u16, u8, u32, bit_or,
}

abbrev pub vga_width : ℕ
vga_width = 80

abbrev pub vga_height : ℕ
vga_height = 25

-- `cells` is the memory from 0xb8000 on, by 16-bit cells: the screen's are those below 2000, and
-- others belong to something else.
pub record Terminal : Type 0 where
  pub row : ℕ
  pub column : ℕ
  pub color : ℕ
  pub cells : ℕ → ℕ

-- `(uint16_t) character | (terminal_color << 8)`
unfoldable pub vga_char : (color character : ℕ) → ℕ
vga_char color character = u16 (bit_or character (color * 2 ^ 8))

abbrev pub put_cell : (ℕ → ℕ) → ℕ → ℕ → ℕ → ℕ
put_cell cells index v i = if i == index then v else cells i

-- The inner and the outer loop of `init_terminal`, with the rounds left.
clear_row : (left x y color : ℕ) → (ℕ → ℕ) → ℕ → ℕ
clear_row zero x y color cells = cells
clear_row (suc left) x y color cells =
    clear_row left (x + 1) y color (put_cell cells (y * vga_width + x) (vga_char color b' '))

clear_rows : (left y color : ℕ) → (ℕ → ℕ) → ℕ → ℕ
clear_rows zero y color cells = cells
clear_rows (suc left) y color cells =
    clear_rows left (y + 1) color (clear_row vga_width 0 y color cells)

unfoldable pub init_terminal : Terminal → Terminal
unfolding clear_row clear_rows
init_terminal t = record {
  row = 0;
  column = 0;
  color = 7;
  cells = clear_rows vga_height 0 7 t.cells;
}

unfoldable pub terminal_put_at : (c x y : ℕ) → Terminal → Terminal
terminal_put_at c x y t =
    let index = u32 (y * vga_width + x) in
    record t { cells = put_cell t.cells index (vga_char t.color c) }

-- `if (++terminal_row == VGA_HEIGHT) terminal_row = 0;`
next_row : ℕ → ℕ
next_row row = if add32 row 1 == vga_height then 0 else add32 row 1

-- A `char` is given by its byte.
unfoldable pub terminal_putchar : ℕ → Terminal → Terminal
unfolding next_row terminal_put_at
terminal_putchar c t =
    if c == b'\n'
    then record t { row = add32 t.row 1; column = 0 }
    else (let t1 = terminal_put_at (u8 c) t.column t.row t in
        if add32 t.column 1 == vga_width
        then record t1 { column = 0; row = next_row t.row }
        else record t1 { column = add32 t.column 1 })

-- `terminal_print` measures a C string and writes its characters: here the list of them.
unfoldable pub terminal_print : List ℕ → Terminal → Terminal
unfolding terminal_putchar
terminal_print [] t = t
terminal_print (c ∷ rest) t = terminal_print rest (terminal_putchar c t)
