-- ===== src/User/Pwd.antt =====
-- pwd of src/user-shell.c: the prompt of the shell.
use if2230_2023_oshiete.Common.{
  ℕ, zero, suc, ◌+◌, ◌-◌, ◌*◌, leb, ◌==◌, if◌then◌else◌, [], ◌∷◌, Bytes, Option, some, ◌>>=◌,
}
use if2230_2023_oshiete.Framebuffer.{Screen}
use if2230_2023_oshiete.Fat32.Init.{bytes_of}
use if2230_2023_oshiete.User.{CurrentWorkingDirectory, puts, slash}

abbrev pub vga_color_light_magenta : ℕ
vga_color_light_magenta = 13

abbrev pub vga_color_green : ℕ
vga_color_green = 2

-- "../" and "$"; "\b" is the byte 8.
abbrev pub truncated : Bytes
truncated = bytes_of (b'.' ∷ b'.' ∷ b'/' ∷ [])

abbrev pub dollar : Bytes
dollar = bytes_of (b'$' ∷ [])

abbrev pub backspace_byte : Bytes
backspace_byte = bytes_of (8 ∷ [])

-- One round of the loop, for the name at row i.
unfoldable pub put_name : ℕ → CurrentWorkingDirectory → ℕ → Screen → Option Screen
put_name fuel cwd i screen = do
  screen ← puts fuel screen cwd.dir_names (i * 8) vga_color_light_magenta
  let between = puts fuel screen slash 0 vga_color_light_magenta
  if i == cwd.top then some screen else between

-- The rounds left, and i.
unfoldable pub put_names : ℕ → CurrentWorkingDirectory → ℕ → ℕ → Screen → Option Screen
put_names fuel cwd zero i screen = some screen
put_names fuel cwd (suc k) i screen = do
  screen ← put_name fuel cwd i screen
  put_names fuel cwd k (suc i) screen

unfoldable pub pwd : ℕ → CurrentWorkingDirectory → Screen → Option Screen
pwd fuel cwd screen = do
  let long = leb 10 cwd.top
  let start_idx = if long then cwd.top - 10 else 1
  screen ← puts fuel screen (if long then truncated else slash) 0 vga_color_light_magenta
  screen ← put_names fuel cwd (cwd.top + 1 - start_idx) start_idx screen
  screen ← puts fuel screen dollar 0 vga_color_green
  puts fuel screen backspace_byte 0 0
