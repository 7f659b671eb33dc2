-- ===== src/User/Shell.antt =====
-- main of src/user-shell.c: the prompt, a line from the keyboard, and the command in it.
mod Tests
use if2230_2023_oshiete.Common.{
  ℕ, suc, ◌*◌, Bytes, put8, get32, clear, Bool, true, false, ◌==◌, leb, ltb, if◌then◌else◌, List,
  [], ◌∷◌, Option, none, some, ◌>>=◌,
}
use if2230_2023_oshiete.Str.{strcmp}
use if2230_2023_oshiete.Str.Parse.{row_length, strparse}
use if2230_2023_oshiete.Framebuffer.{Screen, puts_buff}
use if2230_2023_oshiete.Fat32.Layout.{cluster_size, root_cluster_number}
use if2230_2023_oshiete.Fat32.Driver.{Fs}
use if2230_2023_oshiete.Fat32.Read.{read}
use if2230_2023_oshiete.Fat32.Init.{zeros, bytes_of}
use if2230_2023_oshiete.Syscall.{CpuRegister, System, Keys, syscall}
use if2230_2023_oshiete.User.{CurrentWorkingDirectory, puts}
use if2230_2023_oshiete.User.Cat.{cat, vga_color_white}
use if2230_2023_oshiete.User.Cd.{Moved, cd}
use if2230_2023_oshiete.User.Ls.{ls, line_end}
use if2230_2023_oshiete.User.Mkdir.{mkdir}
use if2230_2023_oshiete.User.Mv.{mv}
use if2230_2023_oshiete.User.Cp.{cp}
use if2230_2023_oshiete.User.Rm.{rm}
use if2230_2023_oshiete.User.Touch.{touch}
use if2230_2023_oshiete.User.Whereis.{root_stack, whereis}
use if2230_2023_oshiete.User.Pwd.{pwd}
use if2230_2023_oshiete.User.Target.{Run, Caller, complain}
use if2230_2023_oshiete.User.Commands.{Shell, Frame, word, execute}

abbrev pub space : Bytes
space = bytes_of (b' ' ∷ [])

abbrev pub prompt : Bytes
prompt = bytes_of (
    b'u' ∷ b's' ∷ b'e' ∷ b'r' ∷ b'@' ∷ b'O' ∷ b'S' ∷ b'h' ∷ b'i' ∷ b'e' ∷ b't' ∷ b'e' ∷ b':' ∷ b' '
    ∷ [])

abbrev pub ikanaide : Bytes
ikanaide = bytes_of (b'i' ∷ b'k' ∷ b'a' ∷ b'n' ∷ b'a' ∷ b'i' ∷ b'd' ∷ b'e' ∷ [])

abbrev pub vga_color_cyan : ℕ
vga_color_cyan = 3

-- System call 4 for the 512 bytes of buf.
abbrev pub line_registers : CpuRegister
line_registers = record { eax = 4; ebx = 0; ecx = 512; edx = 0 }

-- The prompt, behind the clearing of buf.
unfoldable pub show_prompt : ℕ → Shell → Option Shell
show_prompt fuel sh = do
  screen ← puts fuel sh.sys.screen prompt 0 vga_color_cyan
  screen ← pwd fuel sh.cwd screen
  some (record sh { sys = record (sh.sys) { screen = screen; memory = clear sh.sys.memory 0 512 } })

-- The line is cut into words, of which `command` has room for 12, and the command is run, if there is one; then a new line, in black.
unfoldable pub run_line : ℕ → ℕ → Frame → Shell → Option Shell
run_line depth fuel frame sh = do
  words ← strparse fuel sh.sys.memory 0 frame.unset space sh.next
  let sh = record sh { next = words.next; sys = record (sh.sys) { memory = words.text } }
  let executed = execute depth fuel frame words.command words.count sh
  sh ← if ltb 0 words.count then executed else some sh
  screen ← puts fuel sh.sys.screen line_end 0 0
  some (record sh { sys = record (sh.sys) { screen = screen } })

-- One round of the loop, with what the keyboard sends.
unfoldable pub shell_round : ℕ → ℕ → Frame → Keys → Shell → Option Shell
shell_round depth fuel frame keys sh = do
  sh ← show_prompt fuel sh
  sys ← syscall fuel keys line_registers sh.sys
  run_line depth fuel frame (record sh { sys = sys })

-- The rounds for a list of what the keyboard sends; `while (TRUE)` has no end.
unfoldable pub shell_rounds : ℕ → ℕ → Frame → List Keys → Shell → Option Shell
shell_rounds depth fuel frame [] sh = some sh
shell_rounds depth fuel frame (keys ∷ rest) sh =
    shell_round depth fuel frame keys sh >>= shell_rounds depth fuel frame rest

-- `retcode` is an uninitialised word, of which system call 0 writes the first byte.
unfoldable pub retcode_after : Bytes → ℕ → ℕ
retcode_after unset code = get32 (put8 unset 0 code) 0

abbrev pub owo : List ℕ
owo = b'o' ∷ b'w' ∷ b'o' ∷ 10 ∷ []

-- Before the loop: the file "ikanaide" of the root is read into a cluster of zeros, with a null pointer
-- for found_cluster_number, and the screen greets the user if it is there.
unfoldable pub start_shell : ℕ → Bytes → System → Option Shell
start_shell fuel unset sys = do
  r ←
      read fuel
        (record {
          name = ikanaide;
          ext = zeros;
          parent_cluster_number = root_cluster_number;
          buffer_size = cluster_size;
        })
        (record (sys.fs) { buf = zeros; found = 0 })
  let greeted = puts_buff sys.screen owo vga_color_white
  let screen = if retcode_after unset r.0 == 0 then greeted else sys.screen
  some (record { cwd = root_stack; next = none; sys = record sys { fs = r.1; screen = screen } })

unfoldable pub main : ℕ → ℕ → Frame → List Keys → System → Option Shell
main depth fuel frame keys sys =
    start_shell fuel frame.unset sys >>= shell_rounds depth fuel frame keys
