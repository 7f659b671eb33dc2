-- ===== src/Keyboard.antt =====
-- src/keyboard.c: the keyboard driver's state and its interrupt service routine.
pub mod Bounds
use if2230_2023_oshiete.Common.{
  ℕ, zero, suc, ◌+◌, ◌-◌, ◌*◌, ◌/◌, ◌%◌, Bytes, put8, Bool, true, false, not, ◌&&◌, ◌||◌, ◌==◌, leb,
  ltb, if◌then◌else◌, List, [], ◌∷◌,
}
use if2230_2023_oshiete.Mem.{memcpy}
use if2230_2023_oshiete.Framebuffer.{
  Screen, default_fg, default_bg, vga_width, cursor_row, cursor_col, framebuffer_set_cursor,
  framebuffer_write, framebuffer_getchar, framebuffer_scroll_down, line_feed,
}

abbrev pub keyboard_buffer_size : ℕ
keyboard_buffer_size = 256

pub record KeyboardDriverState : Type 0 where
  pub read_extended_mode : Bool
  pub keyboard_input_on : Bool
  pub buffer_index : ℕ
  pub keyboard_buffer : Bytes
  pub shift_pressed : Bool
  pub capslock_activated : Bool

abbrev pub nth : List ℕ → ℕ → ℕ
nth [] i = 0
nth (x ∷ xs) zero = x
nth (x ∷ xs) (suc i) = nth xs i

-- keyboard_scancode_1_to_ascii_map: the entries up to the last that is not 0.
unfoldable pub scancode_to_ascii : ℕ → ℕ
scancode_to_ascii = nth (
    0 ∷ 0x1B ∷ b'1' ∷ b'2' ∷ b'3' ∷ b'4' ∷ b'5' ∷ b'6' ∷ b'7' ∷ b'8' ∷ b'9' ∷ b'0' ∷ b'-' ∷ b'=' ∷ 8
    ∷ 9 ∷ b'q' ∷ b'w' ∷ b'e' ∷ b'r' ∷ b't' ∷ b'y' ∷ b'u' ∷ b'i' ∷ b'o' ∷ b'p' ∷ b'[' ∷ b']' ∷ 10 ∷ 0
    ∷ b'a' ∷ b's' ∷ b'd' ∷ b'f' ∷ b'g' ∷ b'h' ∷ b'j' ∷ b'k' ∷ b'l' ∷ b';' ∷ 39 ∷ b'`' ∷ 0 ∷ 92
    ∷ b'z' ∷ b'x' ∷ b'c' ∷ b'v' ∷ b'b' ∷ b'n' ∷ b'm' ∷ b',' ∷ b'.' ∷ b'/' ∷ 0 ∷ b'*' ∷ 0 ∷ b' ' ∷ 0
    ∷ 0 ∷ 0 ∷ 0 ∷ 0 ∷ 0 ∷ 0 ∷ 0 ∷ 0 ∷ 0 ∷ 0 ∷ 0 ∷ 0 ∷ 0 ∷ 0 ∷ 0 ∷ b'-' ∷ 0 ∷ 0 ∷ 0 ∷ b'+' ∷ 0 ∷ [])

unfoldable pub initial : KeyboardDriverState
initial = record {
  read_extended_mode = false;
  keyboard_input_on = true;
  buffer_index = 0;
  keyboard_buffer = λ i. 0;
  shift_pressed = false;
  capslock_activated = false;
}

unfoldable pub keyboard_state_activate : KeyboardDriverState → KeyboardDriverState
keyboard_state_activate k = record k { keyboard_input_on = true }

unfoldable pub keyboard_state_deactivate : KeyboardDriverState → KeyboardDriverState
keyboard_state_deactivate k = record k { keyboard_input_on = false }

-- The buffer's bytes up to the index go to address 0 of `buf`.
unfoldable pub get_keyboard_buffer : KeyboardDriverState → Bytes → Bytes
get_keyboard_buffer k buf = memcpy buf 0 k.keyboard_buffer 0 k.buffer_index

unfoldable pub is_keyboard_blocking : KeyboardDriverState → Bool
is_keyboard_blocking k = k.keyboard_input_on

unfoldable pub clear_from : Bytes → ℕ → ℕ → Bytes
clear_from m zero i = m
clear_from m (suc n) i = clear_from (put8 m i 0) n (suc i)

unfoldable pub reset_buffer : KeyboardDriverState → KeyboardDriverState
reset_buffer k = record k {
  keyboard_buffer = clear_from k.keyboard_buffer keyboard_buffer_size 0;
  buffer_index = 0;
}

-- The column that the backward search of a backspace ends at.
unfoldable pub back_to_text : Screen → ℕ → ℕ → ℕ
back_to_text s row zero = zero
back_to_text s row (suc c) =
    let before = back_to_text s row c in if framebuffer_getchar s row c == 0 then before else suc c

-- newRow and newCol.
unfoldable pub back_position : Screen → ℕ → ℕ → ℕ × ℕ
back_position s row col =
    if col == 0
    then (if row == 0 then (0, 0) else (row - 1, back_to_text s (row - 1) 79))
    else (if framebuffer_getchar s row (col - 1) == 8 then (row, col) else (row, col - 1))

unfoldable pub backspace : KeyboardDriverState → Screen → KeyboardDriverState × Screen
backspace k s =
    let (new_row, new_col) = back_position s (cursor_row s) (cursor_col s) in
    let s = framebuffer_set_cursor s new_row new_col in
    let s = framebuffer_write s new_row new_col 0 default_fg default_bg in
    (if ltb 0 k.buffer_index then record k { buffer_index = k.buffer_index - 1 } else k, s)

-- Upper case where exactly one of shift and caps lock holds.
unfoldable pub shift_char : KeyboardDriverState → ℕ → ℕ
shift_char k c =
    let differ = if k.shift_pressed then not k.capslock_activated else k.capslock_activated in
    if leb b'a' c && leb c b'z' && differ then c - 32 else c

-- A printable key: the byte goes to the screen and to the buffer, whose index is a uint8_t.
unfoldable pub type_char : KeyboardDriverState → Screen → ℕ → KeyboardDriverState × Screen
type_char k s c =
    let row = cursor_row s in
    let col = cursor_col s in
    let c = shift_char k c in
    let s = framebuffer_write s row col c default_fg default_bg in
    let k = record k {
      keyboard_buffer = put8 k.keyboard_buffer k.buffer_index c;
      buffer_index = (k.buffer_index + 1) % 256;
    } in
    (
      k,
      if row == 24 && col == 79
          then framebuffer_set_cursor (framebuffer_scroll_down s) row 0
          else framebuffer_set_cursor s row (col + 1),
    )

-- The routine with input on, for the scancode read from the port and its character.
unfoldable pub handle_key : KeyboardDriverState → Screen → ℕ → ℕ → KeyboardDriverState × Screen
handle_key k s scancode c =
    if scancode == 0x2A || scancode == 0x36
    then (record k { shift_pressed = true }, s)
    else (if scancode == 0xAA || scancode == 0xB6
        then (record k { shift_pressed = false }, s)
        else (if scancode == 0x3A
            then (record k { capslock_activated = not k.capslock_activated }, s)
            else (if c == 0
                then (k, s)
                else (if c == 8
                    then backspace k s
                    else (if c == 10
                        then (keyboard_state_deactivate k, line_feed s (cursor_row s))
                        else type_char k s c)))))

-- The acknowledgement that follows is made by the caller (Syscall.on_key).
unfoldable pub keyboard_isr : KeyboardDriverState → Screen → ℕ → KeyboardDriverState × Screen
keyboard_isr k s scancode =
    if k.keyboard_input_on
    then handle_key k s scancode (scancode_to_ascii scancode)
    else (reset_buffer k, s)
