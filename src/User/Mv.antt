-- ===== src/User/Mv.antt =====
-- src/commands/mv.c: a file or a directory gets another place or another name.
pub mod Named
mod Tests
use if2230_2023_oshiete.Common.{ℕ, ◌+◌, Bytes, ◌==◌, if◌then◌else◌, [], ◌∷◌, Option, some, ◌>>=◌}
use if2230_2023_oshiete.Mem.{memcpy}
use if2230_2023_oshiete.Fat32.Driver.{Request, Result}
use if2230_2023_oshiete.Fat32.Write.{write}
use if2230_2023_oshiete.Fat32.Delete.{delete}
use if2230_2023_oshiete.Fat32.Move.{rename_dir, move_dir}
use if2230_2023_oshiete.Fat32.Init.{bytes_of}
use if2230_2023_oshiete.User.{FoundPath, top_cluster}
use if2230_2023_oshiete.User.Filename.{Filename}
use if2230_2023_oshiete.User.Cat.{file_request}
use if2230_2023_oshiete.User.Rm.{source_not_valid, source_out_of_constraints}
use if2230_2023_oshiete.User.Target.{
  Run, complain, Caller, find_path, separate, Kind, directory, file, absent, Probe, probe,
  is_absent, Endpoints, with_buf, look_up_dest, cut_text,
}

abbrev pub dest_out_of_constraints : Bytes
dest_out_of_constraints = bytes_of (
    b'E' ∷ b'r' ∷ b'r' ∷ b'o' ∷ b'r' ∷ b':' ∷ b' ' ∷ b'D' ∷ b'e' ∷ b's' ∷ b't' ∷ b'i' ∷ b'n' ∷ b'a'
    ∷ b't' ∷ b'i' ∷ b'o' ∷ b'n' ∷ b' ' ∷ b'f' ∷ b'i' ∷ b'l' ∷ b'e' ∷ b' ' ∷ b'n' ∷ b'a' ∷ b'm'
    ∷ b'e' ∷ b' ' ∷ b'o' ∷ b'r' ∷ b' ' ∷ b'e' ∷ b'x' ∷ b't' ∷ b'e' ∷ b'n' ∷ b's' ∷ b'i' ∷ b'o'
    ∷ b'n' ∷ b' ' ∷ b'o' ∷ b'u' ∷ b't' ∷ b' ' ∷ b'o' ∷ b'f' ∷ b' ' ∷ b'c' ∷ b'o' ∷ b'n' ∷ b's'
    ∷ b't' ∷ b'r' ∷ b'a' ∷ b'i' ∷ b'n' ∷ b't' ∷ b's' ∷ [])

abbrev pub move_directory_failed : Bytes
move_directory_failed = bytes_of (
    b'E' ∷ b'r' ∷ b'r' ∷ b'o' ∷ b'r' ∷ b' ' ∷ b':' ∷ b' ' ∷ b'F' ∷ b'a' ∷ b'i' ∷ b'l' ∷ b'e' ∷ b'd'
    ∷ b' ' ∷ b't' ∷ b'o' ∷ b' ' ∷ b'm' ∷ b'o' ∷ b'v' ∷ b'e' ∷ b' ' ∷ b'd' ∷ b'i' ∷ b'r' ∷ b'e'
    ∷ b'c' ∷ b't' ∷ b'o' ∷ b'r' ∷ b'y' ∷ [])

abbrev pub rename_directory_failed : Bytes
rename_directory_failed = bytes_of (
    b'E' ∷ b'r' ∷ b'r' ∷ b'o' ∷ b'r' ∷ b' ' ∷ b':' ∷ b' ' ∷ b'F' ∷ b'a' ∷ b'i' ∷ b'l' ∷ b'e' ∷ b'd'
    ∷ b' ' ∷ b't' ∷ b'o' ∷ b' ' ∷ b'r' ∷ b'e' ∷ b'n' ∷ b'a' ∷ b'm' ∷ b'e' ∷ b' ' ∷ b'd' ∷ b'i'
    ∷ b'r' ∷ b'e' ∷ b'c' ∷ b't' ∷ b'o' ∷ b'r' ∷ b'y' ∷ [])

abbrev pub move_file_failed : Bytes
move_file_failed = bytes_of (
    b'E' ∷ b'r' ∷ b'r' ∷ b'o' ∷ b'r' ∷ b' ' ∷ b':' ∷ b' ' ∷ b'F' ∷ b'a' ∷ b'i' ∷ b'l' ∷ b'e' ∷ b'd'
    ∷ b' ' ∷ b't' ∷ b'o' ∷ b' ' ∷ b'm' ∷ b'o' ∷ b'v' ∷ b'e' ∷ b' ' ∷ b'f' ∷ b'i' ∷ b'l' ∷ b'e' ∷ [])

abbrev pub replace_failed : Bytes
replace_failed = bytes_of (
    b'E' ∷ b'r' ∷ b'r' ∷ b'o' ∷ b'r' ∷ b' ' ∷ b':' ∷ b' ' ∷ b'F' ∷ b'a' ∷ b'i' ∷ b'l' ∷ b'e' ∷ b'd'
    ∷ b' ' ∷ b't' ∷ b'o' ∷ b' ' ∷ b'r' ∷ b'e' ∷ b'p' ∷ b'l' ∷ b'a' ∷ b'c' ∷ b'e' ∷ b' ' ∷ b'f'
    ∷ b'i' ∷ b'l' ∷ b'e' ∷ b' ' ∷ b'c' ∷ b'o' ∷ b'n' ∷ b't' ∷ b'e' ∷ b'n' ∷ b't' ∷ [])

abbrev pub rename_file_failed : Bytes
rename_file_failed = bytes_of (
    b'E' ∷ b'r' ∷ b'r' ∷ b'o' ∷ b'r' ∷ b' ' ∷ b':' ∷ b' ' ∷ b'F' ∷ b'a' ∷ b'i' ∷ b'l' ∷ b'e' ∷ b'd'
    ∷ b' ' ∷ b't' ∷ b'o' ∷ b' ' ∷ b'r' ∷ b'e' ∷ b'n' ∷ b'a' ∷ b'm' ∷ b'e' ∷ b' ' ∷ b'f' ∷ b'i'
    ∷ b'l' ∷ b'e' ∷ [])

-- An answer of a system call, with the message for any code but 0.
unfoldable pub settle : ℕ → Bytes → Run → Result → Option Run
settle fuel message run (code, fs) =
    let run = record run { fs = fs } in
    let failed = complain fuel message run in if code == 0 then some run else failed

-- System call 2 with the buffer, and where it answers 0, system call 3 with another request.
unfoldable pub write_then_delete : ℕ → Bytes → Request → Request → Run → Option Run
write_then_delete fuel message new_req prev_req run = do
  w ← write fuel new_req run.fs
  let run = record run { fs = w.1 }
  let deleted = delete fuel prev_req w.1 >>= settle fuel message run
  let failed = complain fuel message run
  if w.0 == 0 then deleted else failed

-- Both files are deleted, and then the destination is written, with the source's buffer.
unfoldable pub replace_file : ℕ → Bytes → Request → Request → Run → Option Run
replace_file fuel buf src_req dest_req run = do
  s ← delete fuel src_req run.fs
  d ← delete fuel dest_req s.1
  let run = record run { fs = d.1 }
  let written = write fuel dest_req (with_buf d.1 buf) >>= settle fuel replace_failed run
  let failed = complain fuel replace_failed run
  if s.0 == 0 then (if d.0 == 0 then written else failed) else failed

-- The 8 bytes of the destination's name go where new_name points, over the string "\0".
unfoldable pub new_name : Caller → Request → Bytes
new_name caller dest_req = memcpy caller.unset 0 dest_req.name 0 8

-- The cases of the types of the source and the destination.
unfoldable pub dispatch : ℕ → Caller → Endpoints → Kind → Kind → Run → Option Run
dispatch fuel caller e directory directory run =
    move_dir fuel e.src_req e.dest_cluster_number (with_buf run.fs e.src_buf)
    >>= settle fuel move_directory_failed run
dispatch fuel caller e directory file run =
    rename_dir fuel e.src_req (new_name caller e.dest_req) (with_buf run.fs e.src_buf)
    >>= settle fuel rename_directory_failed run
dispatch fuel caller e directory absent run =
    rename_dir fuel e.src_req (new_name caller e.dest_req) (with_buf run.fs e.src_buf)
    >>= settle fuel rename_directory_failed run
dispatch fuel caller e file directory run =
    write_then_delete fuel move_file_failed
      (record (e.src_req) { parent_cluster_number = e.dest_cluster_number }) e.src_req
      (record run { fs = with_buf run.fs e.src_buf })
dispatch fuel caller e file file run = replace_file fuel e.src_buf e.src_req e.dest_req run
dispatch fuel caller e file absent run =
    write_then_delete fuel rename_file_failed
      (record (e.src_req) { name = e.dest_req.name; ext = e.dest_req.ext }) e.src_req
      (record run { fs = with_buf run.fs e.src_buf })
dispatch fuel caller e absent dest_type run = some run

-- Behind the test of the source's type.
unfoldable pub move_to : ℕ → Caller → Bytes → ℕ → Request → Request → Probe → Run → Option Run
move_to fuel caller text dest src_req dest_req s run = do
  e ← look_up_dest fuel caller text dest src_req dest_req s run
  dispatch fuel caller e.0 e.0.src_type e.0.dest_type e.1

-- The source's type is looked up first.
unfoldable pub move_from : ℕ → Caller → Bytes → ℕ → Request → Request → Run → Option Run
move_from fuel caller text dest src_req dest_req run = do
  s ← probe fuel caller src_req run.fs
  let run = record run { fs = s.fs }
  let refused = complain fuel source_not_valid run
  let moved = move_to fuel caller text dest src_req dest_req s run
  if is_absent s.kind then refused else moved

-- The destination's name, from a buffer behind the source's, in the memory that the first call of
-- separate_filename has left.
unfoldable pub split_dest :
    ℕ → Caller → Bytes → ℕ → FoundPath → FoundPath → Filename → Run → Option Run
split_dest fuel caller text dest f g names run = do
  d ← separate fuel (record caller { local = caller.local + 12 }) names.memory g.to_find names.next
  let run = record run { next = d.1.next }
  let refused = complain fuel dest_out_of_constraints run
  let moved =
      move_from fuel caller text dest (file_request names (top_cluster f.cwd))
        (file_request d.1 (top_cluster g.cwd)) run
  if d.0 == 3 then refused else moved

-- The source's name.
unfoldable pub split_source : ℕ → Caller → Bytes → ℕ → FoundPath → FoundPath → Run → Option Run
split_source fuel caller text dest f g run = do
  s ← separate fuel caller caller.unset f.to_find g.next
  let run = record run { next = s.1.next }
  let refused = complain fuel source_out_of_constraints run
  let split = split_dest fuel caller text dest f g s.1 run
  if s.0 == 3 then refused else split

unfoldable pub mv : ℕ → Caller → Bytes → ℕ → ℕ → Run → Option Run
mv fuel caller text src dest run = do
  f ← find_path fuel caller text src run
  text ← cut_text fuel caller text src run.next
  let run = record run { fs = f.fs; next = f.next }
  g ← find_path fuel caller text dest run
  text ← cut_text fuel caller text dest run.next
  let run = record run { fs = g.fs; next = g.next }
  let refused = complain fuel source_not_valid run
  let split = split_source fuel caller text dest f g run
  if f.code == 3 then refused else split
