-- ===== src/User/Commands.antt =====
-- The chain of commands in main of src/user-shell.c.
use if2230_2023_oshiete.Common.{
  ℕ, suc, ◌*◌, Bytes, Bool, true, false, leb, if◌then◌else◌, [], ◌∷◌, Option, some, ◌>>=◌,
}
use if2230_2023_oshiete.Str.{strcmp}
use if2230_2023_oshiete.Str.Parse.{row_length}
use if2230_2023_oshiete.Framebuffer.{Screen}
use if2230_2023_oshiete.Fat32.Driver.{Fs}
use if2230_2023_oshiete.Fat32.Init.{bytes_of}
use if2230_2023_oshiete.Syscall.{System}
use if2230_2023_oshiete.User.{CurrentWorkingDirectory}
use if2230_2023_oshiete.User.Cat.{cat}
use if2230_2023_oshiete.User.Cd.{Moved, cd}
use if2230_2023_oshiete.User.Ls.{ls}
use if2230_2023_oshiete.User.Mkdir.{mkdir}
use if2230_2023_oshiete.User.Mv.{mv}
use if2230_2023_oshiete.User.Cp.{cp}
use if2230_2023_oshiete.User.Rm.{rm}
use if2230_2023_oshiete.User.Touch.{touch}
use if2230_2023_oshiete.User.Whereis.{whereis}
use if2230_2023_oshiete.User.Target.{Run, Caller, complain}

abbrev pub word_cat : Bytes
word_cat = bytes_of (b'c' ∷ b'a' ∷ b't' ∷ [])

abbrev pub word_cd : Bytes
word_cd = bytes_of (b'c' ∷ b'd' ∷ [])

abbrev pub word_ls : Bytes
word_ls = bytes_of (b'l' ∷ b's' ∷ [])

abbrev pub word_mkdir : Bytes
word_mkdir = bytes_of (b'm' ∷ b'k' ∷ b'd' ∷ b'i' ∷ b'r' ∷ [])

abbrev pub word_mv : Bytes
word_mv = bytes_of (b'm' ∷ b'v' ∷ [])

abbrev pub word_whereis : Bytes
word_whereis = bytes_of (b'w' ∷ b'h' ∷ b'e' ∷ b'r' ∷ b'e' ∷ b'i' ∷ b's' ∷ [])

abbrev pub word_touch : Bytes
word_touch = bytes_of (b't' ∷ b'o' ∷ b'u' ∷ b'c' ∷ b'h' ∷ [])

abbrev pub word_rm : Bytes
word_rm = bytes_of (b'r' ∷ b'm' ∷ [])

abbrev pub word_cp : Bytes
word_cp = bytes_of (b'c' ∷ b'p' ∷ [])

abbrev pub word_r : Bytes
word_r = bytes_of (b'-' ∷ b'r' ∷ [])

abbrev pub unknown_command : Bytes
unknown_command = bytes_of (
    b'U' ∷ b'n' ∷ b'k' ∷ b'n' ∷ b'o' ∷ b'w' ∷ b'n' ∷ b' ' ∷ b'c' ∷ b'o' ∷ b'm' ∷ b'm' ∷ b'a' ∷ b'n'
    ∷ b'd' ∷ b'!' ∷ [])

-- What the shell keeps from line to line: the stack of directories, what strtok keeps, and the
-- kernel's parts, with the memory from `buf` on.
pub record Shell : Type 0 where
  pub cwd : CurrentWorkingDirectory
  pub next : Option ℕ
  pub sys : System

-- The parts that a command changes.
unfoldable pub run_of : Shell → Run
run_of sh = record { screen = sh.sys.screen; fs = sh.sys.fs; next = sh.next }

unfoldable pub with_run : Shell → Run → Shell
with_run sh run = record sh {
  next = run.next;
  sys = record (sh.sys) { screen = run.screen; fs = run.fs };
}

-- A command that leaves a screen and a file system.
unfoldable pub with_shown : Shell → Screen × Fs → Shell
with_shown sh (screen, fs) = record sh { sys = record (sh.sys) { screen = screen; fs = fs } }

unfoldable pub with_moved : Shell → Moved × Screen → Shell
with_moved sh (moved, screen) = record sh {
  cwd = moved.cwd;
  sys = record (sh.sys) { screen = screen; fs = moved.fs };
}

-- A command's frame in memory: what filled it before, and an address in it.
pub record Frame : Type 0 where
  pub unset : Bytes
  pub local : ℕ

unfoldable pub caller_of : Frame → Shell → Caller
caller_of frame sh = record { unset = frame.unset; local = frame.local; cwd = sh.cwd }

-- The address of a word, a row of the table.
abbrev pub word : ℕ → ℕ
word i = i * row_length

-- strcmp of a word, and its two branches.
unfoldable pub on_word : ℕ → Bytes → ℕ → Bytes → Option Shell → Option Shell → Option Shell
on_word fuel command i name taken other = do
  same ← strcmp fuel command (word i) name 0
  if same then taken else other

unfoldable pub run_cat : ℕ → Frame → Bytes → Shell → Option Shell
run_cat fuel frame command sh = do
  r ← cat fuel sh.cwd command (word 1) frame.local frame.unset sh.next sh.sys.fs sh.sys.screen
  some (with_shown sh r)

unfoldable pub run_cd : ℕ → Frame → Bytes → Shell → Option Shell
run_cd fuel frame command sh = do
  r ← cd fuel sh.cwd command (word 1) frame.unset sh.next sh.sys.fs sh.sys.screen
  some (with_moved sh r)

unfoldable pub run_ls : ℕ → Frame → Bytes → Shell → Option Shell
run_ls fuel frame command sh = do
  r ← ls fuel sh.cwd command (word 1) frame.unset sh.next sh.sys.fs sh.sys.screen
  some (with_shown sh r)

unfoldable pub run_mkdir : ℕ → Frame → Bytes → Shell → Option Shell
run_mkdir fuel frame command sh = do
  fs ← mkdir fuel sh.cwd command (word 1) frame.unset sh.next sh.sys.fs
  some (with_shown sh (sh.sys.screen, fs))

unfoldable pub run_mv : ℕ → Frame → Bytes → Shell → Option Shell
run_mv fuel frame command sh = do
  run ← mv fuel (caller_of frame sh) command (word 1) (word 2) (run_of sh)
  some (with_run sh run)

unfoldable pub run_whereis : ℕ → ℕ → Frame → Bytes → Shell → Option Shell
run_whereis depth fuel frame command sh = do
  s ← whereis depth fuel command (word 1) frame.unset sh.next sh.sys.fs sh.sys.screen
  some (with_shown sh (s.screen, s.fs))

unfoldable pub run_touch : ℕ → Frame → Bytes → Shell → Option Shell
run_touch fuel frame command sh = do
  run ← touch fuel (caller_of frame sh) command (run_of sh)
  some (with_run sh run)

unfoldable pub run_rm : ℕ → ℕ → Frame → Bytes → ℕ → Bool → Shell → Option Shell
run_rm depth fuel frame command i is_recursive sh = do
  run ← rm depth fuel (caller_of frame sh) command (word i) is_recursive true (run_of sh)
  some (with_run sh run)

unfoldable pub run_cp : ℕ → ℕ → Frame → Bytes → ℕ → Bool → Shell → Option Shell
run_cp depth fuel frame command i is_recursive sh = do
  run ←
      cp depth fuel (caller_of frame sh) command (word i) command (word (suc i)) is_recursive true
        (run_of sh)
  some (with_run sh run)

unfoldable pub refuse_command : ℕ → Shell → Option Shell
refuse_command fuel sh = do run ← complain fuel unknown_command (run_of sh); some (with_run sh run)

-- The chain of tests on the first word, from the last to the first: what stands behind each `else`.
unfoldable pub execute_cp : ℕ → ℕ → Frame → Bytes → ℕ → Shell → Option Shell
execute_cp depth fuel frame command args sh =
    let copied =
      on_word fuel command 1 word_r (run_cp depth fuel frame command 2 true sh)
        (run_cp depth fuel frame command 1 false sh) in
    let refused = refuse_command fuel sh in
    on_word fuel command 0 word_cp (if leb 3 args then copied else refused) refused

unfoldable pub execute_rm : ℕ → ℕ → Frame → Bytes → ℕ → Shell → Option Shell
execute_rm depth fuel frame command args sh =
    let removed =
      on_word fuel command 1 word_r (run_rm depth fuel frame command 2 true sh)
        (run_rm depth fuel frame command 1 false sh) in
    let rest = execute_cp depth fuel frame command args sh in
    on_word fuel command 0 word_rm (if leb 2 args then removed else rest) rest

unfoldable pub execute_touch : ℕ → ℕ → Frame → Bytes → ℕ → Shell → Option Shell
execute_touch depth fuel frame command args sh =
    let touched = run_touch fuel frame command sh in
    on_word fuel command 0 word_touch (if leb 2 args then touched else some sh)
      (execute_rm depth fuel frame command args sh)

unfoldable pub execute_whereis : ℕ → ℕ → Frame → Bytes → ℕ → Shell → Option Shell
execute_whereis depth fuel frame command args sh =
    let searched = run_whereis depth fuel frame command sh in
    on_word fuel command 0 word_whereis (if leb 2 args then searched else some sh)
      (execute_touch depth fuel frame command args sh)

unfoldable pub execute_mv : ℕ → ℕ → Frame → Bytes → ℕ → Shell → Option Shell
execute_mv depth fuel frame command args sh =
    let moved = run_mv fuel frame command sh in
    let rest = execute_whereis depth fuel frame command args sh in
    on_word fuel command 0 word_mv (if leb 3 args then moved else rest) rest

unfoldable pub execute_mkdir : ℕ → ℕ → Frame → Bytes → ℕ → Shell → Option Shell
execute_mkdir depth fuel frame command args sh =
    let made = run_mkdir fuel frame command sh in
    on_word fuel command 0 word_mkdir (if leb 2 args then made else some sh)
      (execute_mv depth fuel frame command args sh)

unfoldable pub execute : ℕ → ℕ → Frame → Bytes → ℕ → Shell → Option Shell
execute depth fuel frame command args sh =
    on_word fuel command 0 word_cat (run_cat fuel frame command sh) (
      on_word fuel command 0 word_cd (run_cd fuel frame command sh) (
        on_word fuel command 0 word_ls (run_ls fuel frame command sh)
          (execute_mkdir depth fuel frame command args sh)))
