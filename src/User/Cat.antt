-- ===== src/User/Cat.antt =====
-- src/commands/cat.c: a file on the screen.
pub mod Text
pub mod Shown
mod Tests
use if2230_2023_oshiete.Common.{
  ℕ, zero, suc, ◌+◌, ◌*◌, Bytes, clear, ltb, ◌==◌, if◌then◌else◌, List, [], ◌∷◌, Option, some,
  ◌>>=◌,
}
use if2230_2023_oshiete.Mem.{memcpy}
use if2230_2023_oshiete.Framebuffer.{Screen, puts_buff}
use if2230_2023_oshiete.Fat32.Layout.{cluster_size}
use if2230_2023_oshiete.Fat32.Driver.{Fs, Request, Result}
use if2230_2023_oshiete.Fat32.Read.{read}
use if2230_2023_oshiete.Fat32.Init.{zeros, bytes_of}
use if2230_2023_oshiete.Syscall.{put_view}
use if2230_2023_oshiete.User.{CurrentWorkingDirectory, FoundPath, top_cluster, puts, read_path}
use if2230_2023_oshiete.User.Filename.{Filename, separate_filename}

abbrev pub vga_color_white : ℕ
vga_color_white = 15

abbrev pub color_red : ℕ
color_red = 4

abbrev pub out_of_constraints : Bytes
out_of_constraints = bytes_of (
    b'E' ∷ b'r' ∷ b'r' ∷ b'o' ∷ b'r' ∷ b':' ∷ b' ' ∷ b'F' ∷ b'i' ∷ b'l' ∷ b'e' ∷ b' ' ∷ b'n' ∷ b'a'
    ∷ b'm' ∷ b'e' ∷ b' ' ∷ b'o' ∷ b'r' ∷ b' ' ∷ b'e' ∷ b'x' ∷ b't' ∷ b'e' ∷ b'n' ∷ b's' ∷ b'i'
    ∷ b'o' ∷ b'n' ∷ b' ' ∷ b'o' ∷ b'u' ∷ b't' ∷ b' ' ∷ b'o' ∷ b'f' ∷ b' ' ∷ b'c' ∷ b'o' ∷ b'n'
    ∷ b's' ∷ b't' ∷ b'r' ∷ b'a' ∷ b'i' ∷ b'n' ∷ b't' ∷ b's' ∷ [])

abbrev pub not_a_file : Bytes
not_a_file = bytes_of (
    b'E' ∷ b'r' ∷ b'r' ∷ b'o' ∷ b'r' ∷ b':' ∷ b' ' ∷ b'N' ∷ b'o' ∷ b't' ∷ b' ' ∷ b'a' ∷ b' ' ∷ b'f'
    ∷ b'i' ∷ b'l' ∷ b'e' ∷ [])

abbrev pub not_enough_buffer : Bytes
not_enough_buffer = bytes_of (
    b'E' ∷ b'r' ∷ b'r' ∷ b'o' ∷ b'r' ∷ b':' ∷ b' ' ∷ b'N' ∷ b'o' ∷ b't' ∷ b' ' ∷ b'e' ∷ b'n' ∷ b'o'
    ∷ b'u' ∷ b'g' ∷ b'h' ∷ b' ' ∷ b'b' ∷ b'u' ∷ b'f' ∷ b'f' ∷ b'e' ∷ b'r' ∷ [])

abbrev pub file_not_found : Bytes
file_not_found = bytes_of (
    b'E' ∷ b'r' ∷ b'r' ∷ b'o' ∷ b'r' ∷ b':' ∷ b' ' ∷ b'F' ∷ b'i' ∷ b'l' ∷ b'e' ∷ b' ' ∷ b'n' ∷ b'o'
    ∷ b't' ∷ b' ' ∷ b'f' ∷ b'o' ∷ b'u' ∷ b'n' ∷ b'd' ∷ [])

abbrev pub unknown : Bytes
unknown = bytes_of (
    b'E' ∷ b'r' ∷ b'r' ∷ b'o' ∷ b'r' ∷ b':' ∷ b' ' ∷ b'U' ∷ b'n' ∷ b'k' ∷ b'n' ∷ b'o' ∷ b'w' ∷ b'n'
    ∷ [])

-- One character, as a string of its own.
unfoldable pub put_byte : ℕ → Screen → ℕ → Option Screen
put_byte fuel screen c = puts fuel screen (bytes_of (c ∷ [])) 0 vga_color_white

-- The inner loop, with the rounds left: the bytes of a cluster up to a zero.
unfoldable pub show_cluster : ℕ → Bytes → ℕ → ℕ → Screen → Option Screen
show_cluster fuel m p zero screen = some screen
show_cluster fuel m p (suc k) screen =
    let shown = put_byte fuel screen (m p) >>= show_cluster fuel m (suc p) k in
    if m p == 0 then some screen else shown

-- The outer loop.
unfoldable pub show_clusters : ℕ → Bytes → ℕ → ℕ → Screen → Option Screen
show_clusters fuel m zero i screen = some screen
show_clusters fuel m (suc k) i screen = do
  screen ← show_cluster fuel m (i * cluster_size) cluster_size screen
  show_clusters fuel m k (suc i) screen

-- Behind system call 0: `unset` is what filled_buf holds before the copy of five clusters.
unfoldable pub show_answer : ℕ → Bytes → Screen → ℕ → Fs → Option Screen
show_answer fuel unset screen code fs =
    let shown = show_clusters fuel (memcpy unset 0 fs.buf 0 (5 * cluster_size)) 5 0 screen in
    if code == 0
    then shown
    else if code == 1
    then puts fuel screen not_a_file 0 color_red
    else if code == 2
    then puts fuel screen not_enough_buffer 0 color_red
    else if code == 3
    then puts fuel screen file_not_found 0 color_red
    else puts fuel screen unknown 0 color_red

unfoldable pub file_request : Filename → ℕ → Request
file_request f cluster = record {
  name = memcpy zeros 0 f.name 0 8;
  ext = memcpy zeros 0 f.ext 0 3;
  parent_cluster_number = cluster;
  buffer_size = 8 * cluster_size;
}

-- System call 0, and what the screen shows of its answer.
unfoldable pub show_file : ℕ → Bytes → Screen → FoundPath → Filename → Option (Screen × Fs)
show_file fuel unset screen f names = do
  answer ←
      read fuel (file_request names (top_cluster f.cwd)) (record f.fs { buf = unset; found = 0 })
  screen ← show_answer fuel unset screen answer.0 answer.1
  some (screen, answer.1)

unfoldable pub refuse_name : ℕ → Screen → FoundPath → Option (Screen × Fs)
refuse_name fuel screen f = do
  screen ← puts fuel screen out_of_constraints 0 color_red
  some (screen, f.fs)

-- The code of read_path is overwritten by that of separate_filename. `local` is the address of
-- file_name, a buffer of 12 zeros, and `unset` is what uninitialised memory holds.
unfoldable pub cat :
    ℕ
    → CurrentWorkingDirectory
    → Bytes
    → ℕ
    → ℕ
    → Bytes
    → Option ℕ
    → Fs
    → Screen
    → Option (Screen × Fs)
cat fuel cwd text file_path local unset next fs screen = do
  f ← read_path fuel text file_path cwd (clear unset 0 12) unset next fs
  r ←
      separate_filename fuel local (record {
        memory = put_view unset local f.to_find;
        name = zeros;
        ext = zeros;
        next = f.next;
      })
  let shown = show_file fuel unset screen f r.1
  let refused = refuse_name fuel screen f
  if r.0 == 3 then refused else shown
