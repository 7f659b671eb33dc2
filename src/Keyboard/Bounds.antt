-- ===== src/Keyboard/Bounds.antt =====
-- What the routine of src/keyboard.c keeps: its buffer index and the cursor stay in range.
use if2230_2023_oshiete.Common.{ℕ, zero, suc, ◌-◌, ◌/◌, ◌%◌, ◌≤◌, ◌<◌, arith}
use if2230_2023_oshiete.Framebuffer.{
  Screen, framebuffer_get_cursor, framebuffer_set_cursor, framebuffer_write, set_cell, line_feed,
  cursor_row,
}
use if2230_2023_oshiete.Keyboard.{
  KeyboardDriverState, keyboard_state_deactivate, reset_buffer, back_to_text, back_position,
  backspace, type_char, handle_key, keyboard_isr, scancode_to_ascii,
}

-- The index lies in the buffer, and the cursor on the screen.
pub record InRange (k : KeyboardDriverState) (s : Screen) : Type 0 where
  pub index : k.buffer_index < 256
  pub on_screen : s.cursor < 2000

back_to_text-le : (s : Screen) (row c : ℕ) → back_to_text s row c ≤ c
unfolding back_to_text
back_to_text-le s row zero = omega arith
back_to_text-le s row (suc c) = ground (arith, back_to_text-le s row c)

line_feed-on_screen : (s : Screen) → s.cursor < 2000 → (line_feed s (cursor_row s)).cursor < 2000
unfolding line_feed framebuffer_set_cursor framebuffer_get_cursor
line_feed-on_screen s h = ground arith

type_char-InRange :
    (k : KeyboardDriverState) (s : Screen) (c : ℕ)
    → InRange k s
    → InRange (type_char k s c).0 (type_char k s c).1
unfolding type_char framebuffer_set_cursor framebuffer_get_cursor
type_char-InRange k s c h = ground arith

backspace-InRange :
    (k : KeyboardDriverState) (s : Screen)
    → InRange k s
    → InRange (backspace k s).0 (backspace k s).1
unfolding backspace back_position framebuffer_write set_cell framebuffer_set_cursor
    framebuffer_get_cursor
backspace-InRange k s h = ground (arith, back_to_text-le s (s.cursor / 80 % 256 - 1) 79)

handle_key-InRange :
    (k : KeyboardDriverState) (s : Screen) (scancode c : ℕ)
    → InRange k s
    → InRange (handle_key k s scancode c).0 (handle_key k s scancode c).1
unfolding handle_key keyboard_state_deactivate
handle_key-InRange k s scancode c h =
    ground
      (arith, type_char-InRange k s c h, backspace-InRange k s h, line_feed-on_screen s h.on_screen)

-- Every interrupt keeps the buffer index in the buffer, and the cursor on the screen.
pub keyboard_isr-InRange :
    (k : KeyboardDriverState) (s : Screen) (scancode : ℕ)
    → InRange k s
    → InRange (keyboard_isr k s scancode).0 (keyboard_isr k s scancode).1
unfolding keyboard_isr reset_buffer
keyboard_isr-InRange k s scancode h =
    ground (arith, handle_key-InRange k s scancode (scancode_to_ascii scancode) h)
