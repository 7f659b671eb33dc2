-- ===== src/Syscall/Typed.antt =====
-- System call 4 (src/interrupt.c) as a whole: from the keys that are pressed to the user's memory.
use if2230_2023_oshiete.Common.{
  length, ℕ, ◌+◌, ◌≤◌, ◌<◌, ◌≡◌, refl, ap, subst, ◌∙◌, arith, IsBytes, List, [], ◌∷◌, ◌++◌, false,
  if◌then◌else◌, some,
}
use if2230_2023_oshiete.Keyboard.{
  keyboard_isr, handle_key, scancode_to_ascii, keyboard_state_activate, reset_buffer,
}
use if2230_2023_oshiete.Syscall.{System, on_key, on_keys, read_line, copy_line, syscall}
use if2230_2023_oshiete.Syscall.Line.{Line, press, press_all, enter, AreKeys, length-press}
use if2230_2023_oshiete.Syscall.Wait.{
  HasLine, wait-HasLine, fresh, ready-Shows, GotLine, copy_line-GotLine, copy_line-at, asking,
}

length-press_all :
    (l : Line) (xs : List ℕ) → length (press_all l xs).chars ≤ length l.chars + length xs
unfolding press_all
length-press_all l [] = omega arith
length-press_all l (x ∷ xs) = omega (arith, length-press_all (press l x) xs, length-press l x)

-- The state in which the call waits, and the end of the wait.
abbrev ready : System → System
ready sys = record sys { keyboard = keyboard_state_activate (reset_buffer sys.keyboard) }

ready-HasLine :
    (sys : System) (xs rest : List ℕ)
    → IsBytes sys.keyboard.keyboard_buffer
    → AreKeys xs
    → length xs < 256
    → HasLine (ready sys) (xs ++ (enter ∷ rest)) (press_all (fresh sys.keyboard) xs)
ready-HasLine sys xs rest bytes keys few =
    wait-HasLine (ready sys) (fresh sys.keyboard) xs rest (ready-Shows sys.keyboard bytes) keys
      (omega arith)

-- Fewer than 256 keys other than enter are pressed, and then enter, and no interrupt comes between
-- the end of the wait and the copy; the program asks for as many bytes as keys, or for more. Then
-- the call returns, whatever is on the screen, and at ebx stands the line that a backspace shortens
-- and every other character extends, with zeros behind it; other memory is as before.
pub syscall-GotLine :
    (fuel x p n edx : ℕ) (sys : System) (xs rest : List ℕ)
    → IsBytes sys.keyboard.keyboard_buffer
    → AreKeys xs
    → length xs < 256
    → length xs ≤ n
    → (sys' : System) × (syscall fuel
          (record { scancode = x; arriving = xs ++ (enter ∷ rest); late = [] })
          (asking p n edx)
          sys
        ≡ some sys')
      × GotLine sys.memory sys'.memory p n (press_all (fresh sys.keyboard) xs).chars
unfolding syscall read_line on_keys
syscall-GotLine fuel x p n edx sys xs rest bytes keys few fits =
    let got = ready-HasLine sys xs rest bytes keys few in
    (
      copy_line got.woken (asking p n edx),
      rw got.answer refl,
      subst
          (λ m.
            GotLine m (copy_line got.woken (asking p n edx)).memory p n
              (press_all (fresh sys.keyboard) xs).chars)
          got.memory
          (copy_line-GotLine got.woken p n edx (press_all (fresh sys.keyboard) xs).chars got.index
            got.bytes got.typed got.few (omega (arith, length-press_all (fresh sys.keyboard) xs))),
    )

-- An interrupt with the input off empties the buffer.
on_key-off :
    (sys : System) (y : ℕ)
    → sys.keyboard.keyboard_input_on ≡ false
    → (on_key sys y).keyboard ≡ reset_buffer sys.keyboard
unfolding on_key keyboard_isr
on_key-off sys y off =
    ap
      (λ b.
        (if b
          then handle_key sys.keyboard sys.screen y (scancode_to_ascii y)
          else (reset_buffer sys.keyboard, sys.screen)).0)
      off

on_keys-lost :
    (sys : System) (y : ℕ) (ys : List ℕ)
    → sys.keyboard.keyboard_input_on ≡ false
    → (on_keys sys (y ∷ ys)).keyboard.buffer_index ≡ 0
unfolding on_keys reset_buffer
on_keys-lost sys y [] off = ap (λ k. k.buffer_index) (on_key-off sys y off)
on_keys-lost sys y (z ∷ ys) off =
    on_keys-lost (on_key sys y) z ys (ap (λ k. k.keyboard_input_on) (on_key-off sys y off) ∙ off)

-- As before, but an interrupt of the keyboard, such as that of the enter key's release, comes
-- between the end of the wait and the copy: the call returns, and the line is lost: the first 256
-- bytes at most are zeros.
pub syscall-lost :
    (fuel x p n edx : ℕ) (sys : System) (xs rest : List ℕ) (y : ℕ) (ys : List ℕ)
    → IsBytes sys.keyboard.keyboard_buffer
    → AreKeys xs
    → length xs < 256
    → (sys' : System) × (syscall fuel
          (record { scancode = x; arriving = xs ++ (enter ∷ rest); late = y ∷ ys })
          (asking p n edx)
          sys
        ≡ some sys')
      × ((i : ℕ) → i < n → i < 256 → sys'.memory (p + i) ≡ 0)
unfolding syscall read_line
syscall-lost fuel x p n edx sys xs rest y ys bytes keys few =
    let got = ready-HasLine sys xs rest bytes keys few in
    let lost = on_keys-lost got.woken y ys got.off in
    (
      copy_line (on_keys got.woken (y ∷ ys)) (asking p n edx),
      rw got.answer refl,
      λ i lt small.
          copy_line-at (on_keys got.woken (y ∷ ys)) (asking p n edx) i lt small ∙ ground arith,
    )
