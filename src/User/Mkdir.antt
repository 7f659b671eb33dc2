-- ===== src/User/Mkdir.antt =====
-- src/commands/mkdir.c: a new directory.
pub mod Named
mod Tests
use if2230_2023_oshiete.Common.{
  ℕ, zero, suc, ◌+◌, ◌-◌, Bytes, put8, put32, clear, ltb, ◌==◌, if◌then◌else◌, Option, none, some,
  ◌>>=◌,
}
use if2230_2023_oshiete.Str.{strlen, strcpy}
use if2230_2023_oshiete.Fat32.Layout.{root_cluster_number}
use if2230_2023_oshiete.Fat32.Driver.{Fs, Request, Result}
use if2230_2023_oshiete.Fat32.Write.{write}
use if2230_2023_oshiete.Fat32.Init.{zeros}
use if2230_2023_oshiete.Syscall.{request_at}
use if2230_2023_oshiete.User.{CurrentWorkingDirectory, FoundPath, top_cluster, read_path}

abbrev pub max_folder_name_length : ℕ
max_folder_name_length = 8

-- start_idx + 1: the place behind the last slash, or 0.
unfoldable pub after_slash : Bytes → ℕ → ℕ → ℕ
after_slash m p zero = zero
after_slash m p (suc i) =
    let before = after_slash m p i in if m (p + i) == b'/' then suc i else before

-- The rounds left and i: the byte i of the path goes to folder_name, and becomes zero.
unfoldable pub take_name : Bytes → Bytes → ℕ → ℕ → ℕ → ℕ → Bytes × Bytes
take_name m folder p start zero i = (folder, m)
take_name m folder p start (suc k) i =
    take_name (put8 m (p + i) 0) (put8 folder (i - start) (m (p + i))) p start k (suc i)

-- A path that starts with a slash, the only one, starts from the root.
unfoldable pub from_root : ℕ → CurrentWorkingDirectory → CurrentWorkingDirectory
from_root start cwd =
    if start == 1
    then record cwd {
      clusters_stack = λ i. if i == 0 then root_cluster_number else cwd.clusters_stack i;
      top = 0;
    }
    else cwd

-- The structure of the request, with folder_name at its place; buf is 0, and nothing is read there.
unfoldable pub folder_struct : ℕ → Bytes → ℕ → Option Bytes
folder_struct fuel folder cluster = strcpy fuel (put32 (put32 zeros 15 cluster) 19 0) 4 folder 0

-- System call 2.
unfoldable pub make_folder : ℕ → Bytes → CurrentWorkingDirectory → Fs → Option Fs
make_folder fuel folder cwd fs = do
  r ← folder_struct fuel folder (top_cluster cwd)
  answer ← write fuel (request_at r 0) fs
  some answer.1

-- Behind read_path: where it answers an error, nothing is made.
unfoldable pub make_below : ℕ → Bytes → FoundPath → Option Fs
make_below fuel folder f =
    let made = make_folder fuel folder f.cwd f.fs in if f.code == 0 then made else some f.fs

-- Behind the copy of the name: the path is what is left in the memory m.
unfoldable pub make_at :
    ℕ → Bytes → Bytes → ℕ → CurrentWorkingDirectory → Bytes → Option ℕ → Fs → Option Fs
make_at fuel folder m p cwd unset next fs = do
  n ← strlen fuel m p
  let here = make_folder fuel folder cwd fs
  let below = read_path fuel m p cwd (clear unset 0 8) unset next fs >>= make_below fuel folder
  if n == 0 then here else below

-- `cwd` is a copy, so that the caller's stays. `unset` is what lies behind the local buffers of 8 bytes.
unfoldable pub mkdir : ℕ → CurrentWorkingDirectory → Bytes → ℕ → Bytes → Option ℕ → Fs → Option Fs
mkdir fuel cwd m p unset next fs = do
  n ← strlen fuel m p
  let start = after_slash m p n
  let taken = take_name m (clear unset 0 8) p start (n - start) start
  let made = make_at fuel taken.0 taken.1 p (from_root start cwd) unset next fs
  if ltb max_folder_name_length (n - start) then some fs else made
