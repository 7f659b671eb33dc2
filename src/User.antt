-- ===== src/User.antt =====
-- src/syscall.c: the library of the user programs, on top of the kernel's file system and screen.
pub mod Cd
pub mod Cat
pub mod Pwd
pub mod Filename
pub mod Mkdir
pub mod Reach
pub mod Moves
pub mod Name
pub mod Enter
pub mod Target
pub mod Messages
pub mod Plain
mod Sample
pub mod Rm
pub mod Mv
pub mod Cp
pub mod Ls
pub mod Touch
pub mod Whereis
pub mod Commands
pub mod Shell
pub mod Session
pub mod Rounds
mod Tests
use if2230_2023_oshiete.Common.{
  ℕ, zero, suc, ◌+◌, ◌-◌, ◌*◌, ◌%◌, ◌^◌, Bytes, Bool, ◌&&◌, ◌||◌, ◌==◌, ltb, not, if◌then◌else◌,
  List, Option, none, some, ◌>>=◌, [], ◌∷◌, put8, Step, again, leave, return, spin, for_loop,
}
use if2230_2023_oshiete.Mem.{memcpy}
use if2230_2023_oshiete.Str.{strlen, strcmp}
use if2230_2023_oshiete.Str.Token.{strtok}
use if2230_2023_oshiete.Str.Parse.{row_length, strparse}
use if2230_2023_oshiete.Framebuffer.{Screen, puts_buff}
use if2230_2023_oshiete.Fat32.Layout.{cluster_size, root_cluster_number}
use if2230_2023_oshiete.Fat32.Driver.{Fs, Request, Result}
use if2230_2023_oshiete.Fat32.Directory.{read_directory}
use if2230_2023_oshiete.Fat32.Init.{zeros, bytes_of}
use if2230_2023_oshiete.Syscall.{bytes_at}

-- puts: the string at an address goes to the screen, through system call 5.
unfoldable pub puts : ℕ → Screen → Bytes → ℕ → ℕ → Option Screen
puts fuel screen m buf fg = do n ← strlen fuel m buf; some (puts_buff screen (bytes_at m buf n) fg)

-- The stack of directories: clusters_stack has 512 words and dir_names 512 rows of 8 bytes, and top
-- is below 512. A write behind one of the arrays has no result here: it would go to dir_names or top.
pub record CurrentWorkingDirectory : Type 0 where
  pub clusters_stack : ℕ → ℕ
  pub dir_names : Bytes
  pub top : ℕ

abbrev pub top_cluster : CurrentWorkingDirectory → ℕ
top_cluster cwd = cwd.clusters_stack cwd.top

-- `top++`, with the cluster and the name there.
unfoldable pub pushed : CurrentWorkingDirectory → ℕ → Bytes → ℕ → CurrentWorkingDirectory
pushed cwd cluster names p = record {
  clusters_stack = λ i. if i == cwd.top + 1 then cluster else cwd.clusters_stack i;
  dir_names = memcpy cwd.dir_names ((cwd.top + 1) * 8) names p 8;
  top = cwd.top + 1;
}

-- The places 0 to 511 are in the arrays.
unfoldable pub push : CurrentWorkingDirectory → ℕ → Bytes → ℕ → Option CurrentWorkingDirectory
push cwd cluster names p = if ltb cwd.top 511 then some (pushed cwd cluster names p) else none

-- `top--`
unfoldable pub pop : CurrentWorkingDirectory → CurrentWorkingDirectory
pop cwd = record cwd { top = cwd.top - 1 }

-- The request for a directory, whose name is the 8 bytes at p.
unfoldable pub directory_request : Bytes → ℕ → ℕ → Request
directory_request names p cluster = record {
  name = memcpy zeros 0 names p 8;
  ext = zeros;
  parent_cluster_number = cluster;
  buffer_size = cluster_size;
}

-- System call 1, with found_cluster_number, which is 0 before, a local of the program.
unfoldable pub call_read_directory : ℕ → Request → Fs → Option Result
call_read_directory fuel rq fs = read_directory fuel rq (record fs { found = 0 })

abbrev pub slash : Bytes
slash = bytes_of (b'/' ∷ [])

abbrev pub dot_dot : Bytes
dot_dot = bytes_of (b'.' ∷ b'.' ∷ [])

-- The walk along a path: the stack, curr_dir_cluster, and the kernel's file system.
pub record Walk : Type 0 where
  pub cwd : CurrentWorkingDirectory
  pub cluster : ℕ
  pub fs : Fs

-- A value that takes fuel, and the rest of a round.
abbrev pub then_step : {A S R : Type 0} → Option A → (A → Step S R) → Step S R
then_step none f = spin
then_step (some a) f = f a

abbrev pub path_not_found : ℕ
path_not_found = 3

-- The answer of system call 1: the directory found goes on the stack, and an error is passed on.
unfoldable pub descend : Bytes → ℕ → Walk → Result → Step Walk (ℕ × Walk)
descend dirs p w (code, fs) =
    let down =
      then_step (push w.cwd fs.found dirs p)
        λ cwd. again (record { cwd = cwd; cluster = fs.found; fs = fs }) in
    if code == 0 then down else return (code, record w { fs = fs })

-- A part of the path that is a name.
unfoldable pub walk_name : ℕ → Bytes → ℕ → Walk → Step Walk (ℕ × Walk)
walk_name fuel dirs p w =
    let down =
      then_step (call_read_directory fuel (directory_request dirs p (top_cluster w.cwd)) w.fs)
        (descend dirs p w) in
    then_step (strlen fuel dirs p) λ n. if ltb 8 n then return (path_not_found, w) else down

-- One round of the loop, for dirs[i], all but the last; it is the one at p.
unfoldable pub walk_part : ℕ → Bytes → ℕ → Walk → Step Walk (ℕ × Walk)
walk_part fuel dirs i w =
    let p = i * row_length in
    let named = walk_name fuel dirs p w in
    then_step (strcmp fuel dot_dot 0 dirs p) λ up.
      if up
      then (if not (w.cluster == root_cluster_number) && not (w.cwd.top == 0)
          then again (record w { cwd = pop w.cwd })
          else return (path_not_found, w))
      else (if dirs p == 0 then again w else named)

-- What read_path leaves: its code, the stack, the file system, the 12 bytes at to_find, and what
-- strtok keeps.
pub record FoundPath : Type 0 where
  pub code : ℕ
  pub cwd : CurrentWorkingDirectory
  pub fs : Fs
  pub to_find : Bytes
  pub next : Option ℕ

-- Behind the loop: the last part.
unfoldable pub last_part : ℕ → Bytes → ℕ → Bytes → Option ℕ → Walk → Option FoundPath
last_part fuel dirs p to_find next w = do
  up ← strcmp fuel dot_dot 0 dirs p
  some (record {
    code = 0;
    cwd = if up && ltb 0 w.cwd.top then pop w.cwd else w.cwd;
    fs = w.fs;
    to_find = if up then to_find else memcpy to_find 0 dirs p 12;
    next = next;
  })

unfoldable pub after_walk :
    ℕ → Bytes → ℕ → Bytes → Option ℕ → Step Walk (ℕ × Walk) → Option FoundPath
after_walk fuel dirs p to_find next (again w) = last_part fuel dirs p to_find next w
after_walk fuel dirs p to_find next (leave w) = last_part fuel dirs p to_find next w
after_walk fuel dirs p to_find next (return (code, w)) =
    some (record { code = code; cwd = w.cwd; fs = w.fs; to_find = to_find; next = next })
after_walk fuel dirs p to_find next spin = none

-- The walk along the parts of the path; `dir_table` is empty at first.
unfoldable pub walk_parts :
    ℕ → CurrentWorkingDirectory → Bytes → Fs → Bytes → Option ℕ → ℕ → Option FoundPath
walk_parts fuel cwd to_find fs dirs next dir_cnt =
    let start : Walk = record {
      cwd = cwd;
      cluster = top_cluster cwd;
      fs = record fs { buf = zeros };
    } in
    let walked =
      after_walk fuel dirs ((dir_cnt - 1) * row_length) to_find next
        (for_loop (walk_part fuel dirs) (dir_cnt - 1) 0 start) in
    if dir_cnt == 0
    then some (record { code = path_not_found; cwd = cwd; fs = fs; to_find = to_find; next = next })
    else walked

-- `dirs` is an uninitialised local, which strparse clears.
unfoldable pub read_path :
    ℕ → Bytes → ℕ → CurrentWorkingDirectory → Bytes → Bytes → Option ℕ → Fs → Option FoundPath
read_path fuel text relative_path cwd to_find unset next fs = do
  dirs ← strparse fuel text relative_path unset slash next
  walk_parts fuel cwd to_find fs dirs.command dirs.next dirs.count
