-- ===== src/Syscall/Wait.antt =====
-- System call 4 (src/interrupt.c): the line that the user's program gets from the keyboard.
use if2230_2023_oshiete.Common.{
  length, ℕ, zero, suc, ◌+◌, ◌-◌, ◌≤◌, ◌<◌, ◌≡◌, refl, sym, ap, subst, ◌∙◌, arith, Bytes, IsBytes,
  put8, ◌%◌, ◌⊎◌, List, [], ◌∷◌, ◌++◌, true, false, ltb, if◌then◌else◌, some, none,
}
use if2230_2023_oshiete.Mem.{memcpy}
use if2230_2023_oshiete.Mem.Laws.{memcpy_lem}
use if2230_2023_oshiete.Keyboard.{
  KeyboardDriverState, handle_key, scancode_to_ascii, keyboard_state_deactivate,
  keyboard_state_activate, reset_buffer, is_keyboard_blocking, get_keyboard_buffer, clear_from,
}
use if2230_2023_oshiete.Syscall.{System, CpuRegister, on_key, wait, copy_line, local_buffer}
use if2230_2023_oshiete.Syscall.Line.{
  Line, press, press_all, enter, AreKeys, AreTyped, AreTyped-agree, Shows, keyboard_isr-on,
  keyboard_isr-Shows, length-press,
}

-- Where a wait ends: the driver waits no more, and its buffer holds the line.
pub record HasLine (sys : System) (xs : List ℕ) (l : Line) : Type 0 where
  pub woken : System
  pub answer : wait sys xs ≡ some woken
  pub off : woken.keyboard.keyboard_input_on ≡ false
  pub index : woken.keyboard.buffer_index ≡ length l.chars
  pub bytes : IsBytes woken.keyboard.keyboard_buffer
  pub typed : AreTyped woken.keyboard.keyboard_buffer 0 l.chars
  pub few : length l.chars < 256
  pub memory : woken.memory ≡ sys.memory
  pub behind : woken.behind ≡ sys.behind

wait-on :
    (sys : System) (x : ℕ) (xs : List ℕ)
    → sys.keyboard.keyboard_input_on ≡ true
    → wait sys (x ∷ xs) ≡ wait (on_key sys x) xs
unfolding wait is_keyboard_blocking
wait-on sys x xs on = ap (λ b. if b then wait (on_key sys x) xs else some sys) on

wait-off :
    (sys : System) (xs : List ℕ) → sys.keyboard.keyboard_input_on ≡ false → wait sys xs ≡ some sys
unfolding wait is_keyboard_blocking
wait-off sys [] off = ap (λ b. if b then none else some sys) off
wait-off sys (x ∷ xs) off = ap (λ b. if b then wait (on_key sys x) xs else some sys) off

-- Enter changes the screen, and ends the wait.
on_key-enter :
    (sys : System)
    → sys.keyboard.keyboard_input_on ≡ true
    → (on_key sys enter).keyboard ≡ keyboard_state_deactivate sys.keyboard
unfolding on_key handle_key scancode_to_ascii
on_key-enter sys on = ap (λ r. r.0) (keyboard_isr-on sys.keyboard sys.screen enter on)

wait-enter :
    (sys : System) (l : Line) (rest : List ℕ)
    → Shows sys.keyboard l
    → length l.chars < 256
    → HasLine sys (enter ∷ rest) l
unfolding on_key keyboard_state_deactivate
wait-enter sys l rest h few =
    let off = on_key-enter sys h.on in
    record {
      woken = on_key sys enter;
      answer =
          wait-on sys enter rest h.on
          ∙ wait-off (on_key sys enter) rest (ap (λ k. k.keyboard_input_on) off);
      off = ap (λ k. k.keyboard_input_on) off;
      index = ap (λ k. k.buffer_index) off ∙ h.index;
      bytes = subst (λ k. IsBytes (k.keyboard_buffer)) (sym off) h.bytes;
      typed = subst (λ k. AreTyped (k.keyboard_buffer) 0 l.chars) (sym off) h.typed;
      few = few;
      memory = refl;
      behind = refl;
    }

pub wait-HasLine :
    (sys : System) (l : Line) (xs rest : List ℕ)
    → Shows sys.keyboard l
    → AreKeys xs
    → length l.chars + length xs < 256
    → HasLine sys (xs ++ (enter ∷ rest)) (press_all l xs)
unfolding press_all on_key
wait-HasLine sys l [] rest h keys room = wait-enter sys l rest h (omega arith)
wait-HasLine sys l (x ∷ xs) rest h keys room =
    let more =
      wait-HasLine (on_key sys x) (press l x) xs rest
        (keyboard_isr-Shows sys.keyboard l sys.screen x h keys.0.0 keys.0.1 (omega arith)) keys.1
        (omega (arith, length-press l x)) in
    record {
      woken = more.woken;
      answer = wait-on sys x (xs ++ (enter ∷ rest)) h.on ∙ more.answer;
      off = more.off;
      index = more.index;
      bytes = more.bytes;
      typed = more.typed;
      few = more.few;
      memory = more.memory;
      behind = more.behind;
    }

clear_from-IsBytes : (m : Bytes) (k i : ℕ) → IsBytes m → IsBytes (clear_from m k i)
unfolding clear_from put8
clear_from-IsBytes m zero i b = b
clear_from-IsBytes m (suc k) i b =
    clear_from-IsBytes (put8 m i 0) k (suc i) (λ a. ground (arith, b a))

-- The line at the start of the call: no character, and the case of the keys that are held.
abbrev pub fresh : KeyboardDriverState → Line
fresh k = record { chars = []; shift = k.shift_pressed; caps = k.capslock_activated }

pub ready-Shows :
    (k : KeyboardDriverState)
    → IsBytes k.keyboard_buffer
    → Shows (keyboard_state_activate (reset_buffer k)) (fresh k)
unfolding keyboard_state_activate reset_buffer
ready-Shows k b = record {
  on = refl;
  index = refl;
  shift = refl;
  caps = refl;
  bytes = clear_from-IsBytes k.keyboard_buffer 256 0 b;
  typed = _;
}

-- What the user's memory w holds behind a call that had m: the line at p, zeros behind it up to the
-- n bytes asked for or the 256 of the kernel's buffer, and m elsewhere.
pub record GotLine (m w : Bytes) (p n : ℕ) (chars : List ℕ) : Type 0 where
  pub line : AreTyped w p chars
  pub zeros : (i : ℕ) → length chars ≤ i → i < n → i < 256 → w (p + i) ≡ 0
  pub same : (q : ℕ) → (q < p) ⊎ (p + n ≤ q) → w q ≡ m q

-- The byte i of the copy.
pub copy_line-at :
    (sys : System) (cpu : CpuRegister) (i : ℕ)
    → i < cpu.ecx
    → i < 256
    → (copy_line sys cpu).memory (cpu.ebx + i)
      ≡ (if ltb i sys.keyboard.buffer_index then sys.keyboard.keyboard_buffer i % 256 else 0)
unfolding copy_line get_keyboard_buffer local_buffer
copy_line-at sys cpu i lt small =
    let buf =
      memcpy (local_buffer sys.behind) 0 sys.keyboard.keyboard_buffer 0 sys.keyboard.buffer_index in
    let e : 0 + (cpu.ebx + i - cpu.ebx) ≡ i = omega arith in
    memcpy_lem sys.memory cpu.ebx buf 0 cpu.ecx (cpu.ebx + i)
    ∙ rw e (
        ground (
          arith,
          memcpy_lem (local_buffer sys.behind) 0 sys.keyboard.keyboard_buffer 0
              sys.keyboard.buffer_index i,
        ))

copy_line-elsewhere :
    (sys : System) (cpu : CpuRegister) (q : ℕ)
    → (q < cpu.ebx) ⊎ (cpu.ebx + cpu.ecx ≤ q)
    → (copy_line sys cpu).memory q ≡ sys.memory q
unfolding copy_line
copy_line-elsewhere sys cpu q h =
    let buf = get_keyboard_buffer sys.keyboard (local_buffer sys.behind) in
    ground (arith, memcpy_lem sys.memory cpu.ebx buf 0 cpu.ecx q)

abbrev pub asking : ℕ → ℕ → ℕ → CpuRegister
asking p n edx = record { eax = 4; ebx = p; ecx = n; edx = edx }

pub copy_line-GotLine :
    (sys : System) (p n edx : ℕ) (cs : List ℕ)
    → sys.keyboard.buffer_index ≡ length cs
    → IsBytes sys.keyboard.keyboard_buffer
    → AreTyped sys.keyboard.keyboard_buffer 0 cs
    → length cs < 256
    → length cs ≤ n
    → GotLine sys.memory (copy_line sys (asking p n edx)).memory p n cs
copy_line-GotLine sys p n edx cs index bytes typed few fits = record {
  line =
      AreTyped-agree sys.keyboard.keyboard_buffer (copy_line sys (asking p n edx)).memory 0 p cs
        (λ i lt.
          copy_line-at sys (asking p n edx) i (omega arith) (omega arith) ∙ ground (arith, bytes i))
        typed;
  zeros = λ i lo lt small. copy_line-at sys (asking p n edx) i lt small ∙ ground arith;
  same = copy_line-elsewhere sys (asking p n edx);
}
