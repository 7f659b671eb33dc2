-- ===== src/Syscall/Line.antt =====
-- The line that is typed at the keyboard, as a list of characters, and that src/keyboard.c keeps it.
use if2230_2023_oshiete.Common.{
  Bool-cases, inl, inr, length, every-at, ℕ, suc, ◌+◌, ◌-◌, ◌≤◌, ◌<◌, ◌≡◌, ◌≢◌, refl, sym, ap,
  subst, ◌∙◌, arith, Bytes, IsBytes, put8, List, [], ◌∷◌, Bool, true, false, not, ltb, leb, ◌&&◌,
  ◌||◌, ◌==◌, if◌then◌else◌, lt→ltb, le→ltb, ne→==,
}
use if2230_2023_oshiete.Framebuffer.{Screen, line_feed, cursor_row}
use if2230_2023_oshiete.Keyboard.{
  KeyboardDriverState, keyboard_state_deactivate, scancode_to_ascii, shift_char, type_char,
  backspace, handle_key, keyboard_isr, reset_buffer,
}

-- The scancode of the enter key.
abbrev pub enter : ℕ
enter = 0x1C

-- The characters, the last one first, and the two keys that change the case.
pub record Line : Type 0 where
  pub chars : List ℕ
  pub shift : Bool
  pub caps : Bool

abbrev pub upper : Bool → ℕ → ℕ
upper true c = if leb b'a' c && leb c b'z' then c - 32 else c
upper false c = c

abbrev pub differ : Bool → Bool → Bool
differ true caps = not caps
differ false caps = caps

abbrev pub drop_last : List ℕ → List ℕ
drop_last [] = []
drop_last (c ∷ cs) = cs

-- A key with a character: a backspace takes the last character away, any other adds its own.
unfoldable pub press_char : Line → ℕ → Line
press_char l c =
    if c == 0
    then l
    else if c == 8
    then record l { chars = drop_last l.chars }
    else record l { chars = upper (differ l.shift l.caps) c ∷ l.chars }

-- Any key but enter.
unfoldable pub press : Line → ℕ → Line
press l x =
    if x == 0x2A || x == 0x36
    then record l { shift = true }
    else if x == 0xAA || x == 0xB6
    then record l { shift = false }
    else if x == 0x3A
    then record l { caps = not l.caps }
    else press_char l (scancode_to_ascii x)

unfoldable pub press_all : Line → List ℕ → Line
press_all l [] = l
press_all l (x ∷ xs) = press_all (press l x) xs

-- The characters lie one behind the other from address p on.
abbrev pub AreTyped : Bytes → ℕ → List ℕ → Type 0
AreTyped m p [] = Unit
AreTyped m p (c ∷ cs) = (m (p + length cs) ≡ c) × AreTyped m p cs

pub AreTyped-agree :
    (m w : Bytes) (p r : ℕ) (cs : List ℕ)
    → ((i : ℕ) → i < length cs → w (r + i) ≡ m (p + i))
    → AreTyped m p cs
    → AreTyped w r cs
AreTyped-agree m w p r [] same t = t
AreTyped-agree m w p r (c ∷ cs) same t = (
  same (length cs) (omega arith) ∙ t.0,
  AreTyped-agree m w p r cs (λ i lt. same i (omega arith)) t.1,
)

-- The driver waits, and its buffer holds the line.
pub record Shows (k : KeyboardDriverState) (l : Line) : Type 0 where
  pub on : k.keyboard_input_on ≡ true
  pub index : k.buffer_index ≡ length l.chars
  pub shift : k.shift_pressed ≡ l.shift
  pub caps : k.capslock_activated ≡ l.caps
  pub bytes : IsBytes k.keyboard_buffer
  pub typed : AreTyped k.keyboard_buffer 0 l.chars

-- Every key has a character below 128, and only enter has the line feed.
key_char : (x : ℕ) → x < 256 → scancode_to_ascii x < 128
unfolding scancode_to_ascii
key_char x lt =
    let e =
      every-at (λ x. ltb (scancode_to_ascii x) 128) 256 0 x refl (omega arith) (omega arith) in
    ground arith

key_feed : (x : ℕ) → x < 256 → x ≢ enter → scancode_to_ascii x ≢ 10
unfolding scancode_to_ascii
key_feed x lt ne =
    let e =
      every-at (λ x. (x == enter) || not (scancode_to_ascii x == 10)) 256 0 x refl (omega arith)
        (omega arith) in
    ground arith

upper-differ :
    (shift caps : Bool) (c : ℕ)
    → (if leb b'a' c && leb c b'z' && (if shift then not caps else caps) then c - 32 else c)
      ≡ upper (differ shift caps) c
upper-differ true true c = ground arith
upper-differ true false c = ground arith
upper-differ false true c = ground arith
upper-differ false false c = ground arith

shift_char-upper :
    (k : KeyboardDriverState) (c : ℕ)
    → shift_char k c ≡ upper (differ k.shift_pressed k.capslock_activated) c
unfolding shift_char
shift_char-upper k c = upper-differ k.shift_pressed k.capslock_activated c

upper-lt : (b : Bool) (c : ℕ) → c < 128 → upper b c < 128
upper-lt true c lt = ground arith
upper-lt false c lt = lt

type_char-Shows :
    (k : KeyboardDriverState) (l : Line) (s : Screen) (c : ℕ)
    → Shows k l
    → c < 128
    → length l.chars < 255
    → Shows (type_char k s c).0 (record l { chars = upper (differ l.shift l.caps) c ∷ l.chars })
unfolding type_char put8 shift_char
type_char-Shows k l s c h lt room = record {
  on = h.on;
  index = ground arith;
  shift = h.shift;
  caps = h.caps;
  bytes = λ a. ground (arith, h.bytes a);
  typed = (
    rw (h.index, shift_char-upper k c, h.shift, h.caps)
        (ground (arith, upper-lt (differ l.shift l.caps) c lt)),
    AreTyped-agree k.keyboard_buffer (put8 k.keyboard_buffer k.buffer_index (shift_char k c)) 0 0
        l.chars (λ i below. ground arith) h.typed,
  );
}

backspace-Shows :
    (k : KeyboardDriverState) (l : Line) (s : Screen)
    → Shows k l
    → length l.chars < 256
    → Shows (backspace k s).0 (record l { chars = drop_last l.chars })
unfolding backspace
backspace-Shows k l s h room = rest l.chars h.index h.typed
  where
    rest :
        (cs : List ℕ)
        → k.buffer_index ≡ length cs
        → AreTyped k.keyboard_buffer 0 cs
        → Shows
            (if ltb 0 k.buffer_index then record k { buffer_index = k.buffer_index - 1 } else k)
            (record l { chars = drop_last cs })
    rest [] e typed = rw (le→ltb 0 k.buffer_index (omega arith)) record {
      on = h.on;
      index = e;
      shift = h.shift;
      caps = h.caps;
      bytes = h.bytes;
      typed = typed;
    }
    rest (c ∷ cs) e typed = rw (lt→ltb 0 k.buffer_index (omega arith)) record {
      on = h.on;
      index = omega arith;
      shift = h.shift;
      caps = h.caps;
      bytes = h.bytes;
      typed = typed.1;
    }

char_key-Shows :
    (k : KeyboardDriverState) (l : Line) (s : Screen) (c : ℕ)
    → Shows k l
    → c < 128
    → c ≢ 10
    → length l.chars < 255
    → Shows
        (if c == 0
          then (k, s)
          else (if c == 8
              then backspace k s
              else (if c == 10
                  then (keyboard_state_deactivate k, line_feed s (cursor_row s))
                  else type_char k s c))).0
        (press_char l c)
unfolding press_char
char_key-Shows k l s c h lt ne room = elim (Bool-cases (c == 0)) [
  | inl e ↦ rw e h
  | inr e ↦ rw e (elim (Bool-cases (c == 8)) [
    | inl e ↦ rw e (backspace-Shows k l s h (omega arith))
    | inr e ↦ rw (e, ne→== c 10 ne) (type_char-Shows k l s c h lt room)
  ])
]

handle_key-Shows :
    (k : KeyboardDriverState) (l : Line) (s : Screen) (x : ℕ)
    → Shows k l
    → x < 256
    → x ≢ enter
    → length l.chars < 255
    → Shows (handle_key k s x (scancode_to_ascii x)).0 (press l x)
unfolding handle_key press
handle_key-Shows k l s x h lt ne room =
    let c = scancode_to_ascii x in
    elim (Bool-cases (x == 0x2A || x == 0x36)) [
      | inl e ↦ rw e record {
        on = h.on;
        index = h.index;
        shift = refl;
        caps = h.caps;
        bytes = h.bytes;
        typed = h.typed;
      }
      | inr e ↦ rw e (elim (Bool-cases (x == 0xAA || x == 0xB6)) [
        | inl e ↦ rw e record {
          on = h.on;
          index = h.index;
          shift = refl;
          caps = h.caps;
          bytes = h.bytes;
          typed = h.typed;
        }
        | inr e ↦ rw e (elim (Bool-cases (x == 0x3A)) [
          | inl e ↦ rw e record {
            on = h.on;
            index = h.index;
            shift = h.shift;
            caps = ap not h.caps;
            bytes = h.bytes;
            typed = h.typed;
          }
          | inr e ↦ rw e (char_key-Shows k l s c h (key_char x lt) (key_feed x lt ne) room)
        ])
      ])
    ]

-- The scancodes of keys other than enter.
abbrev pub AreKeys : List ℕ → Type 0
AreKeys [] = Unit
AreKeys (x ∷ xs) = ((x < 256) × (x ≢ enter)) × AreKeys xs

pub keyboard_isr-on :
    (k : KeyboardDriverState) (s : Screen) (x : ℕ)
    → k.keyboard_input_on ≡ true
    → keyboard_isr k s x ≡ handle_key k s x (scancode_to_ascii x)
unfolding keyboard_isr
keyboard_isr-on k s x on =
    ap (λ b. if b then handle_key k s x (scancode_to_ascii x) else (reset_buffer k, s)) on

pub keyboard_isr-Shows :
    (k : KeyboardDriverState) (l : Line) (s : Screen) (x : ℕ)
    → Shows k l
    → x < 256
    → x ≢ enter
    → length l.chars < 255
    → Shows (keyboard_isr k s x).0 (press l x)
keyboard_isr-Shows k l s x h lt ne room =
    subst (λ r. Shows (r.0) (press l x)) (sym (keyboard_isr-on k s x h.on))
      (handle_key-Shows k l s x h lt ne room)

-- A key adds one character at most.
pub length-press : (l : Line) (x : ℕ) → length (press l x).chars ≤ suc (length l.chars)
unfolding press press_char
length-press l x = ground (arith, length-drop_last l.chars)
  where
    length-drop_last : (cs : List ℕ) → length (drop_last cs) ≤ length cs
    length-drop_last [] = omega arith
    length-drop_last (c ∷ cs) = omega arith
