-- ===== src/Framebuffer.antt =====
-- src/framebuffer.c: the text screen. The cells are the 16-bit words at MEMORY_FRAMEBUFFER, and the
-- cursor is the 16-bit register behind the two bytes 14 and 15 of the cursor ports.
pub mod Scroll
use if2230_2023_oshiete.Common.{
  ℕ, zero, suc, ◌+◌, ◌*◌, ◌/◌, ◌%◌, bit_or, Bool, ◌&&◌, ◌==◌, ltb, if◌then◌else◌, List, [], ◌∷◌,
}

abbrev pub vga_width : ℕ
vga_width = 80

abbrev pub vga_height : ℕ
vga_height = 25

-- VGA_COLOR_WHITE and VGA_COLOR_BLACK.
abbrev pub default_fg : ℕ
default_fg = 15

abbrev pub default_bg : ℕ
default_bg = 0

pub record Screen : Type 0 where
  pub cells : ℕ → ℕ
  pub cursor : ℕ

unfoldable pub framebuffer_get_cursor : Screen → ℕ
framebuffer_get_cursor s = s.cursor

-- r and c are uint8_t, so that the position fits 16 bits.
unfoldable pub framebuffer_set_cursor : Screen → ℕ → ℕ → Screen
framebuffer_set_cursor s r c = record s { cursor = r % 256 * vga_width + c % 256 }

-- A `char` is signed: from 0x80 on its conversion to 16 bits has the high byte 0xFF.
unfoldable pub widen : ℕ → ℕ
widen c = if ltb c 128 then c else c + 0xFF00

-- (uint16_t)c | (uint16_t)(fg | bg << 4) << 8, cut to 16 bits.
unfoldable pub framebuffer_set_entry : ℕ → ℕ → ℕ → ℕ
framebuffer_set_entry c fg bg = bit_or (widen c) (bit_or fg (bg * 16) % 65536 * 256) % 65536

-- framebuffer[i] = v.
unfoldable pub set_cell : Screen → ℕ → ℕ → Screen
set_cell s i v = record s { cells = λ q. if q == i then v else s.cells q }

unfoldable pub framebuffer_write : Screen → ℕ → ℕ → ℕ → ℕ → ℕ → Screen
framebuffer_write s row col c fg bg =
    set_cell s (row * vga_width + col) (framebuffer_set_entry c fg bg)

unfoldable pub framebuffer_getchar : Screen → ℕ → ℕ → ℕ
framebuffer_getchar s row col = s.cells (row * vga_width + col) % 256

unfoldable pub framebuffer_get_fg : Screen → ℕ → ℕ → ℕ
framebuffer_get_fg s row col = s.cells (row * vga_width + col) / 256 % 16

unfoldable pub framebuffer_get_bg : Screen → ℕ → ℕ → ℕ
framebuffer_get_bg s row col = s.cells (row * vga_width + col) / 4096 % 16

-- The rounds of the inner loop of framebuffer_clear, and of the outer one.
unfoldable pub clear_row : Screen → ℕ → ℕ → ℕ → Screen
clear_row s row zero col = s
clear_row s row (suc k) col =
    clear_row (set_cell s (row * vga_width + col) (framebuffer_set_entry 0 default_fg default_bg))
      row k (suc col)

unfoldable pub clear_rows : Screen → ℕ → ℕ → Screen
clear_rows s zero row = s
clear_rows s (suc k) row = clear_rows (clear_row s row vga_width 0) k (suc row)

unfoldable pub framebuffer_clear : Screen → Screen
framebuffer_clear s = clear_rows s vga_height 0

-- What framebuffer_scroll_down puts at row i and column j.
unfoldable pub scroll_cell : Screen → ℕ → ℕ → Screen
scroll_cell s i j =
    if i == 24
    then framebuffer_write s i j 0 default_fg default_bg
    else framebuffer_write s i j (framebuffer_getchar s (i + 1) j) (framebuffer_get_fg s (i + 1) j)
        (framebuffer_get_bg s (i + 1) j)

unfoldable pub scroll_row : Screen → ℕ → ℕ → ℕ → Screen
scroll_row s i zero j = s
scroll_row s i (suc k) j = scroll_row (scroll_cell s i j) i k (suc j)

unfoldable pub scroll_rows : Screen → ℕ → ℕ → Screen
scroll_rows s zero i = s
scroll_rows s (suc k) i = scroll_rows (scroll_row s i vga_width 0) k (suc i)

unfoldable pub framebuffer_scroll_down : Screen → Screen
framebuffer_scroll_down s = scroll_rows s vga_height 0

-- row and col of the cursor, as uint8_t.
abbrev pub cursor_row : Screen → ℕ
cursor_row s = framebuffer_get_cursor s / vga_width % 256

abbrev pub cursor_col : Screen → ℕ
cursor_col s = framebuffer_get_cursor s % vga_width

-- The step behind a line feed.
unfoldable pub line_feed : Screen → ℕ → Screen
line_feed s row =
    if row == 24
    then framebuffer_set_cursor (framebuffer_scroll_down s) row 0
    else framebuffer_set_cursor s (row + 1) 0

-- One round of puts_buff.
unfoldable pub put_char : Screen → ℕ → ℕ → Screen
put_char s fg c =
    let row = cursor_row s in
    let col = cursor_col s in
    if c == 10
    then line_feed s row
    else (let written = framebuffer_write s row col c fg default_bg in
        framebuffer_set_cursor
          (if row == 24 && col == 79 then framebuffer_scroll_down written else written) row
          (col + 1))

-- The bytes of the string up to its length.
unfoldable pub puts_buff : Screen → List ℕ → ℕ → Screen
puts_buff s [] fg = s
puts_buff s (c ∷ cs) fg = puts_buff (put_char s fg c) cs fg
