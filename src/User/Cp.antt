-- ===== src/User/Cp.antt =====
-- src/commands/cp.c: a file or a directory gets a copy.
pub mod Named
mod Tests
use if2230_2023_oshiete.Common.{
  ℕ, zero, suc, ◌+◌, Bytes, put32, Bool, true, false, ◌&&◌, ◌==◌, not, if◌then◌else◌, [], ◌∷◌,
  Option, none, some, ◌>>=◌,
}
use if2230_2023_oshiete.Mem.{memcpy}
use if2230_2023_oshiete.Str.{strcat}
use if2230_2023_oshiete.Fat32.Layout.{entry_at, undelete}
use if2230_2023_oshiete.Fat32.Driver.{Request}
use if2230_2023_oshiete.Fat32.Write.{write}
use if2230_2023_oshiete.Fat32.Init.{zeros, bytes_of}
use if2230_2023_oshiete.User.{FoundPath, top_cluster, slash}
use if2230_2023_oshiete.User.Filename.{Filename}
use if2230_2023_oshiete.User.Cat.{file_request}
use if2230_2023_oshiete.User.Rm.{source_not_valid_dot, not_specified}
use if2230_2023_oshiete.User.Target.{
  Run, complain, Caller, copy_path, find_path, separate, Kind, directory, file, absent, Probe,
  probe, is_absent, Endpoints, with_buf, look_up_dest, entry_name, path_below,
}

abbrev pub source_constraints : Bytes
source_constraints = bytes_of (
    b'E' ∷ b'r' ∷ b'r' ∷ b'o' ∷ b'r' ∷ b':' ∷ b' ' ∷ b'S' ∷ b'o' ∷ b'u' ∷ b'r' ∷ b'c' ∷ b'e' ∷ b' '
    ∷ b'f' ∷ b'i' ∷ b'l' ∷ b'e' ∷ b' ' ∷ b'n' ∷ b'a' ∷ b'm' ∷ b'e' ∷ b' ' ∷ b'o' ∷ b'r' ∷ b' '
    ∷ b'e' ∷ b'x' ∷ b't' ∷ b'e' ∷ b'n' ∷ b's' ∷ b'i' ∷ b'o' ∷ b'n' ∷ b' ' ∷ b'o' ∷ b'u' ∷ b't'
    ∷ b' ' ∷ b'o' ∷ b'f' ∷ b' ' ∷ b'c' ∷ b'o' ∷ b'n' ∷ b's' ∷ b't' ∷ b'r' ∷ b'a' ∷ b'i' ∷ b'n'
    ∷ b't' ∷ b's' ∷ b'.' ∷ [])

abbrev pub dest_constraints : Bytes
dest_constraints = bytes_of (
    b'E' ∷ b'r' ∷ b'r' ∷ b'o' ∷ b'r' ∷ b':' ∷ b' ' ∷ b'D' ∷ b'e' ∷ b's' ∷ b't' ∷ b'i' ∷ b'n' ∷ b'a'
    ∷ b't' ∷ b'i' ∷ b'o' ∷ b'n' ∷ b' ' ∷ b'f' ∷ b'i' ∷ b'l' ∷ b'e' ∷ b' ' ∷ b'n' ∷ b'a' ∷ b'm'
    ∷ b'e' ∷ b' ' ∷ b'o' ∷ b'r' ∷ b' ' ∷ b'e' ∷ b'x' ∷ b't' ∷ b'e' ∷ b'n' ∷ b's' ∷ b'i' ∷ b'o'
    ∷ b'n' ∷ b' ' ∷ b'o' ∷ b'u' ∷ b't' ∷ b' ' ∷ b'o' ∷ b'f' ∷ b' ' ∷ b'c' ∷ b'o' ∷ b'n' ∷ b's'
    ∷ b't' ∷ b'r' ∷ b'a' ∷ b'i' ∷ b'n' ∷ b't' ∷ b's' ∷ b'.' ∷ [])

abbrev pub already_exists : Bytes
already_exists = bytes_of (
    b'E' ∷ b'r' ∷ b'r' ∷ b'o' ∷ b'r' ∷ b':' ∷ b' ' ∷ b'F' ∷ b'a' ∷ b'i' ∷ b'l' ∷ b'e' ∷ b'd' ∷ b' '
    ∷ b't' ∷ b'o' ∷ b' ' ∷ b'c' ∷ b'o' ∷ b'p' ∷ b'y' ∷ b' ' ∷ b'b' ∷ b'e' ∷ b'c' ∷ b'a' ∷ b'u'
    ∷ b's' ∷ b'e' ∷ b' ' ∷ b'f' ∷ b'i' ∷ b'l' ∷ b'e' ∷ b' ' ∷ b'n' ∷ b'a' ∷ b'm' ∷ b'e' ∷ b' '
    ∷ b'a' ∷ b'l' ∷ b'r' ∷ b'e' ∷ b'a' ∷ b'd' ∷ b'y' ∷ b' ' ∷ b'e' ∷ b'x' ∷ b'i' ∷ b's' ∷ b't'
    ∷ b's' ∷ b'.' ∷ [])

abbrev pub copy_failed : Bytes
copy_failed = bytes_of (
    b'E' ∷ b'r' ∷ b'r' ∷ b'o' ∷ b'r' ∷ b' ' ∷ b':' ∷ b' ' ∷ b'F' ∷ b'a' ∷ b'i' ∷ b'l' ∷ b'e' ∷ b'd'
    ∷ b' ' ∷ b't' ∷ b'o' ∷ b' ' ∷ b'c' ∷ b'o' ∷ b'p' ∷ b'y' ∷ b' ' ∷ b'f' ∷ b'i' ∷ b'l' ∷ b'e'
    ∷ b'.' ∷ [])

-- A call of cp for two paths at the addresses 0; the flag is is_root_command, and is_recursive is 1.
abbrev pub Call : Type 0
Call = Bytes → Bytes → Bool → Run → Option Run

-- sizeof(src_req.buf), the size of a pointer.
abbrev pub pointer_size : ℕ
pointer_size = 4

-- new_req, for a file in a directory, and for a file of the destination's name.
unfoldable pub request_into : Endpoints → Kind → Request
request_into e directory = record (e.src_req) {
  parent_cluster_number = e.dest_cluster_number;
  buffer_size = pointer_size;
}
request_into e file = record (e.dest_req) { buffer_size = pointer_size }
request_into e absent = record (e.dest_req) { buffer_size = pointer_size }

-- System call 2 with the source's buffer; a call that is not the user's shows no error.
unfoldable pub write_copy : ℕ → Endpoints → Bool → Run → Option Run
write_copy fuel e is_root run = do
  w ← write fuel (request_into e e.dest_type) (with_buf run.fs e.src_buf)
  let run = record run { fs = w.1 }
  let failed = complain fuel copy_failed run
  if w.0 == 0 then some run else (if is_root then failed else some run)

-- The part for files.
unfoldable pub copy_file : ℕ → Endpoints → Kind → Bool → Run → Option Run
copy_file fuel e directory is_root run = write_copy fuel e is_root run
copy_file fuel e file is_root run =
    let refused = complain fuel already_exists run in
    let written = write_copy fuel e is_root run in if is_root then refused else written
copy_file fuel e absent is_root run = write_copy fuel e is_root run

-- One round for the entry i: the calls for the paths below the source and the destination.
unfoldable pub copy_entry : ℕ → Caller → Call → Bytes → Bytes → Bytes → ℕ → Run → Option Run
copy_entry fuel caller call table full_src full_dest i run =
    let copied = (do
      name ← entry_name fuel caller table (entry_at 0 i)
      src ← path_below fuel caller full_src name
      dest ← path_below fuel caller full_dest name
      call src dest false run) in
    if undelete table (entry_at 0 i) then copied else some run

-- The rounds left and i.
unfoldable pub copy_entries : ℕ → Caller → Call → Bytes → Bytes → Bytes → ℕ → ℕ → Run → Option Run
copy_entries fuel caller call table full_src full_dest zero i run = some run
copy_entries fuel caller call table full_src full_dest (suc k) i run =
    copy_entry fuel caller call table full_src full_dest i run
    >>= copy_entries fuel caller call table full_src full_dest k (suc i)

-- The structure of a request in memory: `buf` is its first word, which is left 0 here.
unfoldable pub request_struct : Request → Bytes
request_struct rq =
    put32 (put32 (memcpy (memcpy zeros 4 rq.name 0 8) 12 rq.ext 0 3) 15 rq.parent_cluster_number) 19
      rq.buffer_size

-- Into a directory: the name, a string that begins at the field of the request, is put behind the
-- destination's path, and the call is the user's once more.
unfoldable pub copy_inside : ℕ → Call → Bytes → Bytes → Endpoints → Run → Option Run
copy_inside fuel call full_src full_dest e run = do
  dest ← strcat fuel full_dest 0 slash 0
  dest ← strcat fuel dest 0 (request_struct e.src_req) 4
  call full_src dest true run

-- To a new directory: system call 2, whose answer is not looked at, and the loop over the entries.
unfoldable pub copy_anew : ℕ → Caller → Call → Bytes → Bytes → Endpoints → Run → Option Run
copy_anew fuel caller call full_src full_dest e run = do
  w ← write fuel (record (e.dest_req) { buffer_size = 0 }) (with_buf run.fs e.src_buf)
  copy_entries fuel caller call e.src_buf full_src full_dest 511 1 (record run { fs = w.1 })

unfoldable pub copy_directory :
    ℕ → Caller → Call → Bytes → Bytes → Endpoints → Kind → Run → Option Run
copy_directory fuel caller call full_src full_dest e directory run =
    copy_inside fuel call full_src full_dest e run
copy_directory fuel caller call full_src full_dest e file run =
    copy_anew fuel caller call full_src full_dest e run
copy_directory fuel caller call full_src full_dest e absent run =
    copy_anew fuel caller call full_src full_dest e run

-- The cases of the source's type; without -r the user gets a directory refused.
unfoldable pub copy_target :
    ℕ → Caller → Call → Bytes → Bytes → Endpoints → Kind → Bool → Bool → Run → Option Run
copy_target fuel caller call full_src full_dest e directory is_recursive is_root run =
    let refused = complain fuel not_specified run in
    let copied = copy_directory fuel caller call full_src full_dest e e.dest_type run in
    if not is_recursive && is_root then refused else copied
copy_target fuel caller call full_src full_dest e file is_recursive is_root run =
    copy_file fuel e e.dest_type is_root run
copy_target fuel caller call full_src full_dest e absent is_recursive is_root run = some run

-- The arguments of a call, and the copies of the two paths.
pub record Arguments : Type 0 where
  pub text : Bytes
  pub dest : ℕ
  pub full_src : Bytes
  pub full_dest : Bytes
  pub is_recursive : Bool
  pub is_root : Bool

-- Behind the test of the source's type.
unfoldable pub copy_to :
    ℕ → Caller → Call → Arguments → Request → Request → Probe → Run → Option Run
copy_to fuel caller call a src_req dest_req s run = do
  e ← look_up_dest fuel caller a.text a.dest src_req dest_req s run
  copy_target fuel caller call a.full_src a.full_dest e.0 e.0.src_type a.is_recursive a.is_root e.1

unfoldable pub copy_from : ℕ → Caller → Call → Arguments → Request → Request → Run → Option Run
copy_from fuel caller call a src_req dest_req run = do
  s ← probe fuel caller src_req run.fs
  let run = record run { fs = s.fs }
  let refused = complain fuel source_not_valid_dot run
  let copied = copy_to fuel caller call a src_req dest_req s run
  if is_absent s.kind then refused else copied

-- The destination's name, from a buffer behind the source's. Names that are refused are empty names
-- to a call that is not the user's.
unfoldable pub copy_split_dest :
    ℕ → Caller → Call → Arguments → FoundPath → FoundPath → Filename → Run → Option Run
copy_split_dest fuel caller call a f g names run = do
  d ← separate fuel (record caller { local = caller.local + 12 }) names.memory g.to_find names.next
  let run = record run { next = d.1.next }
  let refused = complain fuel dest_constraints run
  let copied =
      copy_from fuel caller call a (file_request names (top_cluster f.cwd))
        (file_request d.1 (top_cluster g.cwd)) run
  if d.0 == 3 && a.is_root then refused else copied

unfoldable pub copy_split_source :
    ℕ → Caller → Call → Arguments → FoundPath → FoundPath → Run → Option Run
copy_split_source fuel caller call a f g run = do
  s ← separate fuel caller caller.unset f.to_find g.next
  let run = record run { next = s.1.next }
  let refused = complain fuel source_constraints run
  let split = copy_split_dest fuel caller call a f g s.1 run
  if s.0 == 3 && a.is_root then refused else split

-- One call, with the calls that it makes as a function.
unfoldable pub cp_at : ℕ → Caller → Call → Bytes → ℕ → Bytes → ℕ → Bool → Bool → Run → Option Run
cp_at fuel caller call src_text src dest_text dest is_recursive is_root run = do
  full_src ← copy_path fuel caller src_text src
  full_dest ← copy_path fuel caller dest_text dest
  f ← find_path fuel caller full_src 0 run
  let run = record run { fs = f.fs; next = f.next }
  g ← find_path fuel caller full_dest 0 run
  let run = record run { fs = g.fs; next = g.next }
  let refused = complain fuel source_not_valid_dot run
  let a : Arguments = record {
    text = dest_text;
    dest = dest;
    full_src = full_src;
    full_dest = full_dest;
    is_recursive = is_recursive;
    is_root = is_root;
  }
  let split = copy_split_source fuel caller call a f g run
  if f.code == 3 then refused else split

-- The calls, up to a depth.
unfoldable pub cp : ℕ → ℕ → Caller → Bytes → ℕ → Bytes → ℕ → Bool → Bool → Run → Option Run
cp zero fuel caller src_text src dest_text dest is_recursive is_root run = none
cp (suc depth) fuel caller src_text src dest_text dest is_recursive is_root run =
    cp_at fuel caller (λ path to. cp depth fuel caller path 0 to 0 true) src_text src dest_text dest
      is_recursive is_root run
