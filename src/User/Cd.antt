-- ===== src/User/Cd.antt =====
-- src/commands/cd.c: the change of the working directory.
use if2230_2023_oshiete.Common.{
  ℕ, Bytes, clear, ◌&&◌, ◌==◌, ltb, not, if◌then◌else◌, Option, some, ◌>>=◌, [], ◌∷◌,
}
use if2230_2023_oshiete.Str.{strlen}
use if2230_2023_oshiete.Framebuffer.{Screen}
use if2230_2023_oshiete.Fat32.Driver.{Fs, Result}
use if2230_2023_oshiete.Fat32.Init.{zeros, bytes_of}
use if2230_2023_oshiete.User.{
  CurrentWorkingDirectory, FoundPath, top_cluster, push, puts, read_path, call_read_directory,
  directory_request, path_not_found,
}

-- "cd: No such file or directory" and "cd: Unknown error occured".
abbrev pub no_such_file : Bytes
no_such_file = bytes_of (
    b'c' ∷ b'd' ∷ b':' ∷ b' ' ∷ b'N' ∷ b'o' ∷ b' ' ∷ b's' ∷ b'u' ∷ b'c' ∷ b'h' ∷ b' ' ∷ b'f' ∷ b'i'
    ∷ b'l' ∷ b'e' ∷ b' ' ∷ b'o' ∷ b'r' ∷ b' ' ∷ b'd' ∷ b'i' ∷ b'r' ∷ b'e' ∷ b'c' ∷ b't' ∷ b'o'
    ∷ b'r' ∷ b'y' ∷ [])

abbrev pub unknown_error : Bytes
unknown_error = bytes_of (
    b'c' ∷ b'd' ∷ b':' ∷ b' ' ∷ b'U' ∷ b'n' ∷ b'k' ∷ b'n' ∷ b'o' ∷ b'w' ∷ b'n' ∷ b' ' ∷ b'e' ∷ b'r'
    ∷ b'r' ∷ b'o' ∷ b'r' ∷ b' ' ∷ b'o' ∷ b'c' ∷ b'c' ∷ b'u' ∷ b'r' ∷ b'e' ∷ b'd' ∷ [])

abbrev pub vga_color_red : ℕ
vga_color_red = 4

-- What cd leaves, with the code of its last step.
pub record Moved : Type 0 where
  pub code : ℕ
  pub cwd : CurrentWorkingDirectory
  pub fs : Fs

-- The answer of system call 1 for the last part of the path.
unfoldable pub enter_last : FoundPath → Result → Option Moved
enter_last f (code, fs) = do
  let entered = push f.cwd fs.found f.to_find 0
  cwd ← if code == 0 then entered else some f.cwd
  some (record { code = code; cwd = cwd; fs = fs })

-- cd up to the messages: n is strlen(new_dir).
unfoldable pub resolve : ℕ → FoundPath → ℕ → Option Moved
resolve fuel f n =
    let code = if ltb 8 n then path_not_found else f.code in
    let stay : Moved = record { code = code; cwd = f.cwd; fs = f.fs } in
    let entered =
      call_read_directory fuel (directory_request f.to_find 0 (top_cluster f.cwd))
        (record f.fs { buf = zeros })
      >>= enter_last f in
    if code == 0 && not (f.to_find 0 == 0) then entered else some stay

-- The switch on the code.
unfoldable pub report : ℕ → Screen → ℕ → Option Screen
report fuel screen code =
    let missing = puts fuel screen no_such_file 0 vga_color_red in
    let unknown = puts fuel screen unknown_error 0 vga_color_red in
    if code == 0
    then some screen
    else (if code == 1 then missing else (if code == path_not_found then missing else unknown))

-- `char new_dir[12]` is zeroed; `unset` is what lies in uninitialised memory. The result has the
-- screen behind it.
unfoldable pub cd :
    ℕ
    → CurrentWorkingDirectory
    → Bytes
    → ℕ
    → Bytes
    → Option ℕ
    → Fs
    → Screen
    → Option (Moved × Screen)
cd fuel cwd text dir_path unset next fs screen = do
  f ← read_path fuel text dir_path cwd (clear unset 0 12) unset next fs
  n ← strlen fuel f.to_find 0
  moved ← resolve fuel f n
  shown ← report fuel screen moved.code
  some (moved, shown)
