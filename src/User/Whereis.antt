-- ===== src/User/Whereis.antt =====
-- src/commands/whereis.c: the paths of the files with a name.
pub mod Kept
mod Tests
use if2230_2023_oshiete.Common.{
  ℕ, zero, suc, ◌+◌, ◌-◌, ◌*◌, Bytes, put32, clear, Bool, ◌&&◌, ◌||◌, ◌==◌, ltb, if◌then◌else◌, [],
  ◌∷◌, Option, none, some, ◌>>=◌,
}
use if2230_2023_oshiete.Mem.{memcmp}
use if2230_2023_oshiete.Str.{strlen, strcpy}
use if2230_2023_oshiete.Framebuffer.{Screen}
use if2230_2023_oshiete.Fat32.Layout.{
  cluster_size, root_cluster_number, entry_at, attribute, attr_subdirectory, entry_cluster,
}
use if2230_2023_oshiete.Fat32.Driver.{Fs, Request}
use if2230_2023_oshiete.Fat32.Directory.{read_directory, read_root_directory}
use if2230_2023_oshiete.Fat32.Init.{zeros, bytes_of}
use if2230_2023_oshiete.Syscall.{request_at}
use if2230_2023_oshiete.User.{CurrentWorkingDirectory, top_cluster, puts, slash}
use if2230_2023_oshiete.User.Filename.{dot, separate_filename}
use if2230_2023_oshiete.User.Cat.{vga_color_white}
use if2230_2023_oshiete.User.Ls.{root_name, is_listed, table_request}

abbrev pub colon : Bytes
colon = bytes_of (b':' ∷ b' ' ∷ [])

abbrev pub two_spaces : Bytes
two_spaces = bytes_of (b' ' ∷ b' ' ∷ [])

-- What is looked for: the two buffers that separate_filename fills, and what lies behind them.
pub record Wanted : Type 0 where
  pub name : Bytes
  pub ext : Bytes

-- What the search changes.
pub record Seeking : Type 0 where
  pub cwd : CurrentWorkingDirectory
  pub fs : Fs
  pub screen : Screen

-- The names on the stack, each with a slash: the rounds left and j.
unfoldable pub put_stack : ℕ → CurrentWorkingDirectory → ℕ → ℕ → Screen → Option Screen
put_stack fuel cwd zero j screen = some screen
put_stack fuel cwd (suc k) j screen = do
  screen ← puts fuel screen cwd.dir_names (j * 8) vga_color_white
  screen ← puts fuel screen slash 0 vga_color_white
  put_stack fuel cwd k (suc j) screen

-- A dot and the extension of the entry.
unfoldable pub put_extension : ℕ → Bytes → ℕ → Screen → Option Screen
put_extension fuel table e screen = do
  screen ← puts fuel screen dot 0 vga_color_white
  puts fuel screen table (e + 8) vga_color_white

-- A file that was found.
unfoldable pub put_found : ℕ → Wanted → Bytes → ℕ → Seeking → Option Seeking
put_found fuel w table e s = do
  screen ← put_stack fuel s.cwd (s.cwd.top + 1) 0 s.screen
  screen ← puts fuel screen w.name 0 vga_color_white
  let dotted = put_extension fuel table e screen
  screen ← if table (e + 8) == 0 then some screen else dotted
  screen ← puts fuel screen two_spaces 0 vga_color_white
  some (record s { screen = screen })

-- The test on a file: the first n bytes of the name are those looked for, and so is the extension,
-- unless none is looked for.
unfoldable pub is_wanted : Wanted → ℕ → Bytes → ℕ → Bool
is_wanted w n table e =
    memcmp table e w.name 0 n == 0 && (w.ext 0 == 0 || memcmp table (e + 8) w.ext 0 3 == 0)

unfoldable pub search_file : ℕ → Wanted → Bytes → ℕ → Seeking → Option Seeking
search_file fuel w table e s = do
  n ← strlen fuel w.name 0
  let found = put_found fuel w table e s
  if is_wanted w n table e then found else some s

-- A directory: it goes on the stack, is searched, and leaves the stack, with its name left there. A
-- name that goes over the end of dir_names has no result, as in push.
unfoldable pub search_directory :
    ℕ → (Seeking → Option Seeking) → Bytes → ℕ → Seeking → Option Seeking
search_directory fuel below table e s = do
  let top = s.cwd.top + 1
  n ← strlen fuel table e
  let copied = strcpy fuel s.cwd.dir_names (top * 8) table e
  names ← if ltb (top * 8 + n) 4096 then copied else none
  let entered : CurrentWorkingDirectory = record {
    clusters_stack = λ i. if i == top then entry_cluster table e else s.cwd.clusters_stack i;
    dir_names = names;
    top = top;
  }
  s ← below (record s { cwd = entered })
  some (record s { cwd = record (s.cwd) { top = s.cwd.top - 1 } })

-- One round for the entry at e.
unfoldable pub search_entry :
    ℕ → (Seeking → Option Seeking) → Wanted → Bytes → ℕ → Seeking → Option Seeking
search_entry fuel below w table e s =
    let folder = search_directory fuel below table e s in
    let plain = search_file fuel w table e s in
    if is_listed table e
    then (if attribute table e == attr_subdirectory then folder else plain)
    else some s

-- The rounds left and i.
unfoldable pub search_entries :
    ℕ → (Seeking → Option Seeking) → Wanted → Bytes → ℕ → ℕ → Seeking → Option Seeking
search_entries fuel below w table zero i s = some s
search_entries fuel below w table (suc k) i s =
    search_entry fuel below w table (entry_at 0 i) s >>= search_entries fuel below w table k (suc i)

-- The structure of the request, with the name on top of the stack, a string, put at its place.
unfoldable pub top_request : ℕ → CurrentWorkingDirectory → Option Request
top_request fuel cwd = do
  let start = put32 (put32 zeros 15 (cwd.clusters_stack (cwd.top - 1))) 19 (8 * cluster_size)
  r ← strcpy fuel start 4 cwd.dir_names (cwd.top * 8)
  some (request_at r 0)

-- System call 1, with a buffer of zeros; found_cluster_number is the null pointer, so that the word
-- there is the program's own, 0 here. The code is not looked at.
unfoldable pub search_util : ℕ → ℕ → Wanted → Seeking → Option Seeking
search_util zero fuel w s = none
search_util (suc depth) fuel w s = do
  rq ← top_request fuel s.cwd
  d ← read_directory fuel rq (record (s.fs) { buf = zeros; found = 0 })
  search_entries fuel (search_util depth fuel w) w d.1.buf 511 1 (record s { fs = d.1 })

-- The stack of the search at first.
abbrev pub root_stack : CurrentWorkingDirectory
root_stack = record {
  clusters_stack = λ i. if i == 0 then root_cluster_number else 0;
  dir_names = root_name;
  top = 0;
}

-- Behind separate_filename, whose code is not looked at.
unfoldable pub search_root : ℕ → ℕ → Wanted → Fs → Screen → Option Seeking
search_root depth fuel w fs screen = do
  screen ← puts fuel screen w.name 0 vga_color_white
  screen ← puts fuel screen colon 0 vga_color_white
  d ←
      read_root_directory fuel (table_request zeros 0 (top_cluster root_stack))
        (record fs { buf = zeros })
  search_entries fuel (search_util depth fuel w) w d.1.buf 511 1
      (record { cwd = root_stack; fs = d.1; screen = screen })

-- `name` and `ext` are buffers of 8 and 3 zeros; `next` is what strtok keeps.
unfoldable pub whereis : ℕ → ℕ → Bytes → ℕ → Bytes → Option ℕ → Fs → Screen → Option Seeking
whereis depth fuel text file_name unset next fs screen = do
  r ←
      separate_filename fuel file_name
        (record { memory = text; name = clear unset 0 8; ext = clear unset 0 3; next = next })
  search_root depth fuel (record { name = r.1.name; ext = r.1.ext }) fs screen
