-- ===== src/User/Target.antt =====
-- The steps that src/commands/rm.c, mv.c and cp.c share: the name that a path leads to, and what it is.
use if2230_2023_oshiete.Common.{
  ℕ, ◌+◌, ◌*◌, Bytes, clear, Bool, true, false, ◌==◌, if◌then◌else◌, Option, some, ◌>>=◌,
}
use if2230_2023_oshiete.Str.{strcmp, strcpy, strcat}
use if2230_2023_oshiete.Str.Parse.{strparse}
use if2230_2023_oshiete.Framebuffer.{Screen}
use if2230_2023_oshiete.Fat32.Layout.{cluster_size, attribute, attr_subdirectory}
use if2230_2023_oshiete.Fat32.Driver.{Fs, Request, Result}
use if2230_2023_oshiete.Fat32.Read.{read}
use if2230_2023_oshiete.Fat32.Init.{zeros}
use if2230_2023_oshiete.Syscall.{put_view}
use if2230_2023_oshiete.User.{
  CurrentWorkingDirectory, FoundPath, top_cluster, puts, slash, call_read_directory, read_path,
}
use if2230_2023_oshiete.User.Filename.{Filename, dot, separate_filename}
use if2230_2023_oshiete.User.Cat.{color_red}

-- What a command changes: the screen, the kernel's file system, and what strtok keeps.
pub record Run : Type 0 where
  pub screen : Screen
  pub fs : Fs
  pub next : Option ℕ

-- puts in red.
unfoldable pub complain : ℕ → Bytes → Run → Option Run
complain fuel message run = do
  screen ← puts fuel run.screen message 0 color_red
  some (record run { screen = screen })

-- What a call stands in: what filled the memory before, the address of its first local buffer of 12
-- bytes, and the stack of directories.
pub record Caller : Type 0 where
  pub unset : Bytes
  pub local : ℕ
  pub cwd : CurrentWorkingDirectory

-- The path is copied into a buffer of 50 zeros; what lies behind the buffer is `unset`.
unfoldable pub copy_path : ℕ → Caller → Bytes → ℕ → Option Bytes
copy_path fuel caller text p = strcpy fuel (clear caller.unset 0 50) 0 text p

-- read_path with a buffer of 12 zeros.
unfoldable pub find_path : ℕ → Caller → Bytes → ℕ → Run → Option FoundPath
find_path fuel caller text p run =
    read_path fuel text p caller.cwd (clear caller.unset 0 12) caller.unset run.next run.fs

-- What the strparse of a read_path leaves of the text, which is the caller's own.
unfoldable pub cut_text : ℕ → Caller → Bytes → ℕ → Option ℕ → Option Bytes
cut_text fuel caller text p next = do
  cut ← strparse fuel text p caller.unset slash next
  some cut.text

-- separate_filename of what read_path has left, with buffers of zeros, in the memory m.
unfoldable pub separate : ℕ → Caller → Bytes → Bytes → Option ℕ → Option (ℕ × Filename)
separate fuel caller m to_find next =
    separate_filename fuel caller.local
      (record { memory = put_view m caller.local to_find; name = zeros; ext = zeros; next = next })

-- The types 0, 1 and -1.
pub data Kind : Type 0 where
  directory : Kind
  file : Kind
  absent : Kind

-- The test for the type -1.
unfoldable pub is_absent : Kind → Bool
is_absent directory = false
is_absent file = false
is_absent absent = true

-- The type, and the file system, with the buffer that the request has and the cluster found.
pub record Probe : Type 0 where
  pub kind : Kind
  pub fs : Fs

-- The answer of system call 0.
unfoldable pub as_file : Result → Probe
as_file (code, fs) = record { kind = if code == 0 then file else absent; fs = fs }

-- System call 1, with a buffer of zeros and a cluster of 0, and where it answers an error, system call
-- 0, with an uninitialised buffer.
unfoldable pub probe : ℕ → Caller → Request → Fs → Option Probe
probe fuel caller rq fs = do
  d ← call_read_directory fuel rq (record fs { buf = zeros })
  let again = read fuel rq (record (d.1) { buf = caller.unset }) >>= λ r. some (as_file r)
  if d.0 == 0 then some (record { kind = directory; fs = d.1 }) else again

-- The file system with the buffer that a request points at.
abbrev pub with_buf : Fs → Bytes → Fs
with_buf fs buf = record fs { buf = buf }

-- What is known behind the probes: the requests, the types, the buffer of the source's request, the
-- destination's cluster.
pub record Endpoints : Type 0 where
  pub src_req : Request
  pub dest_req : Request
  pub src_type : Kind
  pub dest_type : Kind
  pub src_buf : Bytes
  pub dest_cluster_number : ℕ

-- The request for the destination "." keeps its zeroed name.
abbrev pub unnamed_request : ℕ → Request
unnamed_request cluster = record {
  name = zeros;
  ext = zeros;
  parent_cluster_number = cluster;
  buffer_size = 8 * cluster_size;
}

-- The types are known: of the destination, in `d`, and of the source, in `s`.
unfoldable pub ends : Request → Request → Probe → Kind → ℕ → Endpoints
ends src_req dest_req s dest_type cluster = record {
  src_req = src_req;
  dest_req = dest_req;
  src_type = s.kind;
  dest_type = dest_type;
  src_buf = s.fs.buf;
  dest_cluster_number = cluster;
}

-- The destination ".", the directory in hand.
unfoldable pub ends_here : Caller → Request → Request → Probe → Endpoints
ends_here caller src_req dest_req s =
    ends src_req (unnamed_request dest_req.parent_cluster_number) s directory
      (top_cluster caller.cwd)

-- Any other destination: what it is, and its cluster, 0 where none is found.
unfoldable pub ends_there : ℕ → Caller → Request → Request → Probe → Run → Option (Endpoints × Run)
ends_there fuel caller src_req dest_req s run = do
  d ← probe fuel caller dest_req run.fs
  some (ends src_req dest_req s d.kind d.fs.found, record run { fs = d.fs })

-- The test on dest, the string at an address of the text.
unfoldable pub look_up_dest :
    ℕ → Caller → Bytes → ℕ → Request → Request → Probe → Run → Option (Endpoints × Run)
look_up_dest fuel caller text dest src_req dest_req s run = do
  here ← strcmp fuel text dest dot 0
  let found = ends_there fuel caller src_req dest_req s run
  if here then some (ends_here caller src_req dest_req s, run) else found

-- `file_name` for the entry at e of the table: the name and, for a file, a dot and the extension, as
-- strings that begin at these fields.
unfoldable pub entry_name : ℕ → Caller → Bytes → ℕ → Option Bytes
entry_name fuel caller table e = do
  name ← strcpy fuel (clear caller.unset 0 50) 0 table e
  let full = strcat fuel name 0 dot 0 >>= λ name. strcat fuel name 0 table (e + 8)
  if attribute table e == attr_subdirectory then some name else full

-- The path, a slash and the name, in a buffer of 50 zeros.
unfoldable pub path_below : ℕ → Caller → Bytes → Bytes → Option Bytes
path_below fuel caller full name = do
  path ← copy_path fuel caller full 0
  path ← strcat fuel path 0 slash 0
  strcat fuel path 0 name 0
