-- ===== src/Syscall/Tests.antt =====
-- The system calls (src/interrupt.c) at a concrete state.
use if2230_2023_oshiete.Common.{ℕ, ◌+◌, ◌<◌, ◌≡◌, refl, arith, List, [], ◌∷◌, some, true, false}
use if2230_2023_oshiete.Keyboard.{scancode_to_ascii}
use if2230_2023_oshiete.Fat32.Tests.{booted}
use if2230_2023_oshiete.Syscall.{System, syscall}
use if2230_2023_oshiete.Syscall.Line.{AreKeys, press, press_char, press_all}
use if2230_2023_oshiete.Syscall.Wait.{GotLine, asking}
use if2230_2023_oshiete.Syscall.Typed.{syscall-GotLine, syscall-lost}

abbrev idle : System
idle = record {
  fs = booted;
  keyboard = record {
    read_extended_mode = false;
    keyboard_input_on = true;
    buffer_index = 0;
    keyboard_buffer = λ i. 0;
    shift_pressed = false;
    capslock_activated = false;
  };
  screen = record { cells = λ q. 0; cursor = 0 };
  memory = λ q. 7;
  behind = λ q. 9;
  log = [];
}

-- Shift down, "l", shift up, "d", backspace, "s": the line "Ls".
abbrev typing : List ℕ
typing = 0x2A ∷ 0x26 ∷ 0xAA ∷ 0x20 ∷ 0x0E ∷ 0x1F ∷ []

line_ls :
    (press_all (record { chars = []; shift = false; caps = false }) typing).chars ≡ b's' ∷ b'L' ∷ []
unfolding press_all press press_char scancode_to_ascii
line_ls = refl

typing-AreKeys : AreKeys typing
typing-AreKeys = (
  (omega arith, λ e. absurd (omega arith)),
  (
    (omega arith, λ e. absurd (omega arith)),
    (
      (omega arith, λ e. absurd (omega arith)),
      (
        (omega arith, λ e. absurd (omega arith)),
        ((omega arith, λ e. absurd (omega arith)), ((omega arith, λ e. absurd (omega arith)), _)),
      ),
    ),
  ),
)

syscall-GotLine_example :
    (sys' : System) × (syscall 3
        (record {
          scancode = 0;
          arriving = 0x2A ∷ 0x26 ∷ 0xAA ∷ 0x20 ∷ 0x0E ∷ 0x1F ∷ 0x1C ∷ [];
          late = [];
        })
        (asking 100 16 0)
        idle
      ≡ some sys')
    × GotLine idle.memory sys'.memory 100 16
        (press_all (record { chars = []; shift = false; caps = false }) typing).chars
syscall-GotLine_example =
    syscall-GotLine 3 0 100 16 0 idle typing [] (λ a. omega arith) typing-AreKeys (omega arith)
      (omega arith)

syscall-lost_example :
    (sys' : System) × (syscall 3
        (record { scancode = 0; arriving = 0x26 ∷ 0x1C ∷ []; late = 0x9C ∷ [] })
        (asking 100 16 0)
        idle
      ≡ some sys')
    × ((i : ℕ) → i < 16 → i < 256 → sys'.memory (100 + i) ≡ 0)
syscall-lost_example =
    syscall-lost 3 0 100 16 0 idle (0x26 ∷ []) [] 0x9C [] (λ a. omega arith)
      ((omega arith, λ e. absurd (omega arith)), _) (omega arith)
