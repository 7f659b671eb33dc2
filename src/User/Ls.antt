-- ===== src/User/Ls.antt =====
-- src/commands/ls.c: the entries of a directory on the screen.
use if2230_2023_oshiete.Common.{
  ℕ, zero, suc, ◌+◌, ◌-◌, ◌*◌, ◌%◌, Bytes, clear, Bool, ◌&&◌, ◌==◌, not, if◌then◌else◌, [], ◌∷◌,
  Option, some, ◌>>=◌,
}
use if2230_2023_oshiete.Mem.{memcpy}
use if2230_2023_oshiete.Str.{strcmp, strcpy}
use if2230_2023_oshiete.Framebuffer.{Screen}
use if2230_2023_oshiete.Fat32.Layout.{cluster_size, entry_at, attribute, undelete}
use if2230_2023_oshiete.Fat32.Driver.{Fs, Request, Result}
use if2230_2023_oshiete.Fat32.Directory.{read_root_directory}
use if2230_2023_oshiete.Fat32.Init.{zeros, bytes_of}
use if2230_2023_oshiete.User.{
  CurrentWorkingDirectory, FoundPath, top_cluster, puts, call_read_directory, read_path,
}
use if2230_2023_oshiete.User.Filename.{dot}
use if2230_2023_oshiete.User.Cat.{vga_color_white, color_red}

abbrev pub vga_color_light_red : ℕ
vga_color_light_red = 12

abbrev pub root_name : Bytes
root_name = bytes_of (b'r' ∷ b'o' ∷ b'o' ∷ b't' ∷ [])

abbrev pub ls_no_such : Bytes
ls_no_such = bytes_of (
    b'l' ∷ b's' ∷ b':' ∷ b' ' ∷ b'N' ∷ b'o' ∷ b' ' ∷ b's' ∷ b'u' ∷ b'c' ∷ b'h' ∷ b' ' ∷ b'f' ∷ b'i'
    ∷ b'l' ∷ b'e' ∷ b' ' ∷ b'o' ∷ b'r' ∷ b' ' ∷ b'd' ∷ b'i' ∷ b'r' ∷ b'e' ∷ b'c' ∷ b't' ∷ b'o'
    ∷ b'r' ∷ b'y' ∷ [])

abbrev pub ls_unknown : Bytes
ls_unknown = bytes_of (
    b'l' ∷ b's' ∷ b':' ∷ b' ' ∷ b'U' ∷ b'n' ∷ b'k' ∷ b'n' ∷ b'o' ∷ b'w' ∷ b'n' ∷ b' ' ∷ b'e' ∷ b'r'
    ∷ b'r' ∷ b'o' ∷ b'r' ∷ b' ' ∷ b'o' ∷ b'c' ∷ b'c' ∷ b'u' ∷ b'r' ∷ b'e' ∷ b'd' ∷ [])

abbrev pub seven_spaces : Bytes
seven_spaces = bytes_of (b' ' ∷ b' ' ∷ b' ' ∷ b' ' ∷ b' ' ∷ b' ' ∷ b' ' ∷ [])

abbrev pub line_end : Bytes
line_end = bytes_of (10 ∷ [])

-- The request with the 8 bytes at p for its name, and that with a name of zeros.
unfoldable pub table_request : Bytes → ℕ → ℕ → Request
table_request names p cluster = record {
  name = memcpy zeros 0 names p 8;
  ext = zeros;
  parent_cluster_number = cluster;
  buffer_size = 8 * cluster_size;
}

-- System call 1, with a buffer of zeros.
unfoldable pub list_table : ℕ → Bytes → ℕ → ℕ → Fs → Option Result
list_table fuel names p cluster fs =
    call_read_directory fuel (table_request names p cluster) (record fs { buf = zeros })

-- Behind read_path: where it answers an error, that is the code.
unfoldable pub list_path : ℕ → FoundPath → Option Result
list_path fuel f =
    let listed = list_table fuel f.to_find 0 (top_cluster f.cwd) f.fs in
    if f.code == 0 then listed else some (f.code, f.fs)

-- Without an argument: system call 6 in the root, and system call 1 for the name on top of the stack,
-- in the directory below.
unfoldable pub list_top : ℕ → CurrentWorkingDirectory → Fs → Option Result
list_top fuel cwd fs = do
  root ← strcmp fuel cwd.dir_names (cwd.top * 8) root_name 0
  let whole =
      read_root_directory fuel (table_request zeros 0 (top_cluster cwd)) (record fs { buf = zeros })
  let named = list_table fuel cwd.dir_names (cwd.top * 8) (cwd.clusters_stack (cwd.top - 1)) fs
  if root then whole else named

-- The extension, behind its copy into a local buffer, which nothing reads.
unfoldable pub put_ext : ℕ → Bytes → Bytes → ℕ → Screen → Option Screen
put_ext fuel unset table e screen = do
  _ ← strcpy fuel (clear unset 0 3) 0 table (e + 8)
  screen ← puts fuel screen dot 0 vga_color_white
  puts fuel screen table (e + 8) vga_color_white

-- A name of a file, and its extension.
unfoldable pub put_file : ℕ → Bytes → Bytes → Bytes → ℕ → Screen → Option Screen
put_file fuel unset name table e screen = do
  screen ← puts fuel screen name 0 vga_color_white
  let dotted = put_ext fuel unset table e screen
  if table (e + 8) == 0 then some screen else dotted

-- The name goes through a local buffer of 8 bytes.
unfoldable pub put_entry : ℕ → Bytes → Bytes → ℕ → Screen → Option Screen
put_entry fuel unset table e screen = do
  name ← strcpy fuel (clear unset 0 8) 0 table e
  let folder = puts fuel screen name 0 vga_color_light_red
  let plain = put_file fuel unset name table e screen
  if attribute table e == 0 then plain else folder

-- Behind an entry: a new line where its number is a multiple of six.
unfoldable pub put_gap : ℕ → ℕ → Screen → Option Screen
put_gap fuel i screen =
    let spaces = puts fuel screen seven_spaces 0 vga_color_white in
    let line = puts fuel screen line_end 0 vga_color_white in if i % 6 == 0 then line else spaces

-- The entry is listed: it has a name, and is in use.
unfoldable pub is_listed : Bytes → ℕ → Bool
is_listed table e = not (table e == 0) && undelete table e

unfoldable pub list_entry : ℕ → Bytes → Bytes → ℕ → Screen → Option Screen
list_entry fuel unset table i screen =
    let listed = put_entry fuel unset table (entry_at 0 i) screen >>= put_gap fuel i in
    if is_listed table (entry_at 0 i) then listed else some screen

-- The rounds left and i.
unfoldable pub list_entries : ℕ → Bytes → Bytes → ℕ → ℕ → Screen → Option Screen
list_entries fuel unset table zero i screen = some screen
list_entries fuel unset table (suc k) i screen =
    list_entry fuel unset table i screen >>= list_entries fuel unset table k (suc i)

-- The entries 1 to 511 of the buffer, or the message for the code.
unfoldable pub list_answer : ℕ → Bytes → Screen → Result → Option (Screen × Fs)
list_answer fuel unset screen (code, fs) = do
  let listed = list_entries fuel unset fs.buf 511 1 screen
  let missing = puts fuel screen ls_no_such 0 color_red
  let unknown = puts fuel screen ls_unknown 0 color_red
  screen ←
      if code == 0
      then listed
      else (if code == 1 then missing else (if code == 3 then missing else unknown))
  some (screen, fs)

-- parsed_dir_name is a buffer of 8 zeros, behind which read_path writes 4 bytes.
unfoldable pub ls :
    ℕ → CurrentWorkingDirectory → Bytes → ℕ → Bytes → Option ℕ → Fs → Screen → Option (Screen × Fs)
ls fuel cwd text dir_name unset next fs screen = do
  let below = read_path fuel text dir_name cwd (clear unset 0 8) unset next fs >>= list_path fuel
  let here = list_top fuel cwd fs
  answer ← if text dir_name == 0 then here else below
  list_answer fuel unset screen answer
