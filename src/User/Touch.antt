-- ===== src/User/Touch.antt =====
-- src/commands/touch.c: new files.
use if2230_2023_oshiete.Common.{
  ℕ, zero, suc, ◌*◌, Bytes, clear, ◌==◌, if◌then◌else◌, [], ◌∷◌, Option, some, ◌>>=◌,
}
use if2230_2023_oshiete.Mem.{memcpy}
use if2230_2023_oshiete.Str.Parse.{row_length}
use if2230_2023_oshiete.Fat32.Driver.{Request}
use if2230_2023_oshiete.Fat32.Write.{write}
use if2230_2023_oshiete.Fat32.Init.{bytes_of}
use if2230_2023_oshiete.User.{CurrentWorkingDirectory, FoundPath, top_cluster, read_path}
use if2230_2023_oshiete.User.Cat.{file_request}
use if2230_2023_oshiete.User.Target.{Run, complain, Caller, cut_text, separate, with_buf}

abbrev pub touch_file : Bytes
touch_file =
    bytes_of
      (b't' ∷ b'o' ∷ b'u' ∷ b'c' ∷ b'h' ∷ b':' ∷ b' ' ∷ b'F' ∷ b'i' ∷ b'l' ∷ b'e' ∷ b' ' ∷ [])

abbrev pub already_exist : Bytes
already_exist = bytes_of (
    b' ' ∷ b'a' ∷ b'l' ∷ b'r' ∷ b'e' ∷ b'a' ∷ b'd' ∷ b'y' ∷ b' ' ∷ b'e' ∷ b'x' ∷ b'i' ∷ b's' ∷ b't'
    ∷ b'!' ∷ [])

abbrev pub touch_no_such : Bytes
touch_no_such = bytes_of (
    b't' ∷ b'o' ∷ b'u' ∷ b'c' ∷ b'h' ∷ b':' ∷ b' ' ∷ b'N' ∷ b'o' ∷ b' ' ∷ b's' ∷ b'u' ∷ b'c' ∷ b'h'
    ∷ b' ' ∷ b'f' ∷ b'i' ∷ b'l' ∷ b'e' ∷ b' ' ∷ b'o' ∷ b'r' ∷ b' ' ∷ b'd' ∷ b'i' ∷ b'r' ∷ b'e'
    ∷ b'c' ∷ b't' ∷ b'o' ∷ b'r' ∷ b'y' ∷ [])

-- Between the operands: what is written, cwd and the table of the words, which read_path cuts.
pub record Touching : Type 0 where
  pub run : Run
  pub cwd : CurrentWorkingDirectory
  pub command : Bytes

-- The messages for code 3, with the first 8 bytes of the operand, and what lies behind them.
unfoldable pub tell_exists : ℕ → Bytes → Run → Option Run
tell_exists fuel file_path run = do
  run ← complain fuel touch_file run
  run ← complain fuel file_path run
  complain fuel already_exist run

-- System call 2 for one byte of `dump`, the string "\0".
unfoldable pub write_byte : ℕ → Caller → Bytes → Request → Run → Option Run
write_byte fuel caller file_path rq run = do
  w ← write fuel (record rq { buffer_size = 1 }) (with_buf run.fs (clear caller.unset 0 2))
  let run = record run { fs = w.1 }
  let told = tell_exists fuel file_path run
  if w.0 == 3 then told else some run

-- Behind separate_filename: a name that it refuses is passed over.
unfoldable pub touch_name : ℕ → Caller → Bytes → FoundPath → Run → Option Run
touch_name fuel caller file_path f run = do
  r ← separate fuel caller caller.unset f.to_find f.next
  let run = record run { next = r.1.next }
  let written = write_byte fuel caller file_path (file_request r.1 (top_cluster f.cwd)) run
  if r.0 == 0 then written else some run

-- Behind read_path.
unfoldable pub touch_path : ℕ → Caller → Bytes → FoundPath → Run → Option Run
touch_path fuel caller file_path f run =
    let missing = complain fuel touch_no_such run in
    let touched = touch_name fuel caller file_path f run in if f.code == 0 then touched else missing

-- One operand, in row i; file_name is a buffer of 8 zeros.
unfoldable pub touch_operand : ℕ → Caller → ℕ → Touching → Option Touching
touch_operand fuel caller i t = do
  let p = i * row_length
  let file_path = memcpy (clear caller.unset 0 8) 0 t.command p 8
  f ← read_path fuel t.command p t.cwd (clear caller.unset 0 8) caller.unset t.run.next t.run.fs
  command ← cut_text fuel caller t.command p t.run.next
  run ← touch_path fuel caller file_path f (record (t.run) { fs = f.fs; next = f.next })
  some (record { run = run; cwd = f.cwd; command = command })

-- The rounds left and i, from 1 on: an empty row ends the loop. The message for i = 0 is never shown.
unfoldable pub touch_operands : ℕ → Caller → ℕ → ℕ → Touching → Option Touching
touch_operands fuel caller zero i t = some t
touch_operands fuel caller (suc k) i t =
    let rest = touch_operand fuel caller i t >>= touch_operands fuel caller k (suc i) in
    if t.command (i * row_length) == 0 then some t else rest

unfoldable pub touch : ℕ → Caller → Bytes → Run → Option Run
touch fuel caller command run = do
  t ← touch_operands fuel caller 11 1 (record { run = run; cwd = caller.cwd; command = command })
  some t.run
