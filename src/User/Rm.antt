-- ===== src/User/Rm.antt =====
-- src/commands/rm.c: a file or a directory is deleted.
pub mod Alone
pub mod Named
mod Tests
use if2230_2023_oshiete.Common.{
  ℕ, zero, suc, Bytes, Bool, true, false, ◌&&◌, ◌==◌, not, if◌then◌else◌, [], ◌∷◌, Option, none,
  some, ◌>>=◌,
}
use if2230_2023_oshiete.Fat32.Layout.{entry_at, user_attribute, undelete, uattr_not_empty}
use if2230_2023_oshiete.Fat32.Driver.{Request}
use if2230_2023_oshiete.Fat32.Delete.{delete}
use if2230_2023_oshiete.Fat32.Init.{bytes_of}
use if2230_2023_oshiete.User.{FoundPath, top_cluster}
use if2230_2023_oshiete.User.Filename.{Filename}
use if2230_2023_oshiete.User.Cat.{file_request}
use if2230_2023_oshiete.User.Target.{
  Run, complain, Caller, copy_path, find_path, separate, Kind, directory, file, absent, probe,
  entry_name, path_below,
}

abbrev pub source_not_valid : Bytes
source_not_valid = bytes_of (
    b'E' ∷ b'r' ∷ b'r' ∷ b'o' ∷ b'r' ∷ b':' ∷ b' ' ∷ b'S' ∷ b'o' ∷ b'u' ∷ b'r' ∷ b'c' ∷ b'e' ∷ b' '
    ∷ b'f' ∷ b'i' ∷ b'l' ∷ b'e' ∷ b' ' ∷ b'n' ∷ b'o' ∷ b't' ∷ b' ' ∷ b'v' ∷ b'a' ∷ b'l' ∷ b'i'
    ∷ b'd' ∷ [])

abbrev pub source_not_valid_dot : Bytes
source_not_valid_dot = bytes_of (
    b'E' ∷ b'r' ∷ b'r' ∷ b'o' ∷ b'r' ∷ b':' ∷ b' ' ∷ b'S' ∷ b'o' ∷ b'u' ∷ b'r' ∷ b'c' ∷ b'e' ∷ b' '
    ∷ b'f' ∷ b'i' ∷ b'l' ∷ b'e' ∷ b' ' ∷ b'n' ∷ b'o' ∷ b't' ∷ b' ' ∷ b'v' ∷ b'a' ∷ b'l' ∷ b'i'
    ∷ b'd' ∷ b'.' ∷ [])

abbrev pub source_out_of_constraints : Bytes
source_out_of_constraints = bytes_of (
    b'E' ∷ b'r' ∷ b'r' ∷ b'o' ∷ b'r' ∷ b':' ∷ b' ' ∷ b'S' ∷ b'o' ∷ b'u' ∷ b'r' ∷ b'c' ∷ b'e' ∷ b' '
    ∷ b'f' ∷ b'i' ∷ b'l' ∷ b'e' ∷ b' ' ∷ b'n' ∷ b'a' ∷ b'm' ∷ b'e' ∷ b' ' ∷ b'o' ∷ b'r' ∷ b' '
    ∷ b'e' ∷ b'x' ∷ b't' ∷ b'e' ∷ b'n' ∷ b's' ∷ b'i' ∷ b'o' ∷ b'n' ∷ b' ' ∷ b'o' ∷ b'u' ∷ b't'
    ∷ b' ' ∷ b'o' ∷ b'f' ∷ b' ' ∷ b'c' ∷ b'o' ∷ b'n' ∷ b's' ∷ b't' ∷ b'r' ∷ b'a' ∷ b'i' ∷ b'n'
    ∷ b't' ∷ b's' ∷ [])

abbrev pub delete_failed : Bytes
delete_failed = bytes_of (
    b'E' ∷ b'r' ∷ b'r' ∷ b'o' ∷ b'r' ∷ b':' ∷ b' ' ∷ b'D' ∷ b'e' ∷ b'l' ∷ b'e' ∷ b't' ∷ b'e' ∷ b' '
    ∷ b'f' ∷ b'a' ∷ b'i' ∷ b'l' ∷ b'e' ∷ b'd' ∷ b'.' ∷ [])

abbrev pub not_specified : Bytes
not_specified = bytes_of (
    b'E' ∷ b'r' ∷ b'r' ∷ b'o' ∷ b'r' ∷ b' ' ∷ b':' ∷ b' ' ∷ b'-' ∷ b'r' ∷ b' ' ∷ b'n' ∷ b'o' ∷ b't'
    ∷ b' ' ∷ b's' ∷ b'p' ∷ b'e' ∷ b'c' ∷ b'i' ∷ b'f' ∷ b'i' ∷ b'e' ∷ b'd' ∷ b'.' ∷ [])

-- System call 3, and its error; a command returns either way.
unfoldable pub delete_target : ℕ → Request → Run → Option Run
delete_target fuel rq run = do
  r ← delete fuel rq run.fs
  let run = record run { fs = r.1 }
  let failed = complain fuel delete_failed run
  if r.0 == 0 then some run else failed

-- One round for the entry i, with the call of rm for the path below.
unfoldable pub remove_entry :
    ℕ → Caller → (Bytes → Run → Option Run) → Bytes → Bytes → ℕ → Run → Option Run
remove_entry fuel caller below table full i run =
    let removed = (do
      name ← entry_name fuel caller table (entry_at 0 i)
      path ← path_below fuel caller full name
      below path run) in
    if undelete table (entry_at 0 i) then removed else some run

-- The rounds left and i.
unfoldable pub remove_entries :
    ℕ → Caller → (Bytes → Run → Option Run) → Bytes → Bytes → ℕ → ℕ → Run → Option Run
remove_entries fuel caller below table full zero i run = some run
remove_entries fuel caller below table full (suc k) i run =
    remove_entry fuel caller below table full i run
    >>= remove_entries fuel caller below table full k (suc i)

-- The folder part; the table is the buffer of the request, on the stack of this call.
unfoldable pub remove_directory :
    ℕ → Caller → (Bytes → Run → Option Run) → Bytes → Bool → Request → Run → Option Run
remove_directory fuel caller below full is_recursive rq run =
    let deleted = delete_target fuel rq run in
    let emptied =
      remove_entries fuel caller below run.fs.buf full 511 1 run >>= delete_target fuel rq in
    let refused = complain fuel not_specified run in
    if not (user_attribute run.fs.buf 0 == uattr_not_empty)
    then deleted
    else (if is_recursive then emptied else refused)

unfoldable pub remove :
    ℕ → Caller → (Bytes → Run → Option Run) → Bytes → Bool → Request → Kind → Run → Option Run
remove fuel caller below full is_recursive rq directory run =
    remove_directory fuel caller below full is_recursive rq run
remove fuel caller below full is_recursive rq file run = delete_target fuel rq run
remove fuel caller below full is_recursive rq absent run = complain fuel source_not_valid_dot run

-- Behind separate_filename.
unfoldable pub remove_named :
    ℕ → Caller → (Bytes → Run → Option Run) → Bytes → Bool → Request → Run → Option Run
remove_named fuel caller below full is_recursive rq run = do
  p ← probe fuel caller rq run.fs
  remove fuel caller below full is_recursive rq p.kind (record run { fs = p.fs })

-- What separate_filename answers.
unfoldable pub remove_separated :
    ℕ
    → Caller
    → (Bytes → Run → Option Run)
    → Bytes
    → Bool
    → FoundPath
    → Run
    → ℕ × Filename
    → Option Run
remove_separated fuel caller below full is_recursive f run (code, names) =
    let run = record run { next = names.next } in
    let named =
      remove_named fuel caller below full is_recursive (file_request names (top_cluster f.cwd))
        run in
    let refused = complain fuel source_out_of_constraints run in
    if code == 3 then refused else named

-- Behind read_path: what was found, and whether the command is the user's.
unfoldable pub remove_found :
    ℕ → Caller → (Bytes → Run → Option Run) → Bytes → Bool → Bool → FoundPath → Run → Option Run
remove_found fuel caller below full is_recursive is_root f run =
    let refused = complain fuel source_not_valid run in
    let removed =
      separate fuel caller caller.unset f.to_find f.next
      >>= remove_separated fuel caller below full is_recursive f run in
    if f.code == 3 && is_root then refused else removed

-- One call, with the calls for what lies below as a function.
unfoldable pub rm_at :
    ℕ → Caller → (Bytes → Run → Option Run) → Bytes → ℕ → Bool → Bool → Run → Option Run
rm_at fuel caller below text src is_recursive is_root run = do
  full ← copy_path fuel caller text src
  changeable ← copy_path fuel caller text src
  f ← find_path fuel caller changeable 0 run
  remove_found fuel caller below full is_recursive is_root f
      (record run { fs = f.fs; next = f.next })

-- The calls, up to a depth.
unfoldable pub rm : ℕ → ℕ → Caller → Bytes → ℕ → Bool → Bool → Run → Option Run
rm zero fuel caller text src is_recursive is_root run = none
rm (suc depth) fuel caller text src is_recursive is_root run =
    rm_at fuel caller (λ path. rm depth fuel caller path 0 true false) text src is_recursive is_root
      run
