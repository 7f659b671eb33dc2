-- ===== src/Tests.antt =====
-- The theorems on the other parts of the kernel, and on its libraries, at concrete inputs.
use if2230_2023_oshiete.Common.{
  ◌==◌, ltb, ℕ, ◌+◌, ◌*◌, ◌%◌, ◌<◌, ◌≤◌, ◌≡◌, refl, arith, Bytes, IsBytes, copy, List, [], ◌∷◌, leb,
  ◌&&◌, if◌then◌else◌, some, true, false, ◌↔◌, ◌⊎◌,
}
use if2230_2023_oshiete.Mem.{memmove}
use if2230_2023_oshiete.Mem.Laws.{memmove-copy}
use if2230_2023_oshiete.Cmos.{Time, cmos_read_rtc}
use if2230_2023_oshiete.Cmos.Laws.{showing, cmos_read_rtc-showing}
use if2230_2023_oshiete.Framebuffer.{Screen, framebuffer_scroll_down}
use if2230_2023_oshiete.Framebuffer.Scroll.{IsAscii, framebuffer_scroll_down_lem}
use if2230_2023_oshiete.Keyboard.{KeyboardDriverState, keyboard_isr}
use if2230_2023_oshiete.Keyboard.Bounds.{InRange, keyboard_isr-InRange}
use if2230_2023_oshiete.Paging
use if2230_2023_oshiete.Paging.{page_index}
use if2230_2023_oshiete.Paging.Frames.{allocate_all, AreMapped, Elsewhere, allocate_all-AreMapped}
use if2230_2023_oshiete.Idt.{interrupt_gate, initialize_idt}
use if2230_2023_oshiete.Idt.Gates.{LeadsTo, initialize_idt_lem}
use if2230_2023_oshiete.Pic.{pic_remap, activate_keyboard_interrupt}
use if2230_2023_oshiete.Pic.Lines.{line_mask, mask_bit, keyboard_alone}
use if2230_2023_oshiete.Str.Token.{IsToken}
use if2230_2023_oshiete.Str.{strcmp, strncpy}
use if2230_2023_oshiete.Str.Laws.{IsString, Same, strcmp-Same, strncpy_lem}

-- A memory of bytes in which no two neighbours are equal.
abbrev counting : Bytes
counting q = q % 256

counting-IsBytes : IsBytes counting
counting-IsBytes a = omega arith

memmove-copy_example : memmove counting 12 10 8 ≡ copy counting 12 counting 10 8
memmove-copy_example = memmove-copy counting 12 10 8 counting-IsBytes

abbrev evening : Time
evening = record { second = 59; minute = 30; hour = 21; day = 31; month = 12; year = 23 }

cmos_read_rtc-showing_example : cmos_read_rtc (showing evening 20) ≡ evening
cmos_read_rtc-showing_example = cmos_read_rtc-showing evening 20 record {
  second_bound = omega arith;
  minute_bound = omega arith;
  hour_bound = omega arith;
  day_bound = omega arith;
  month_bound = omega arith;
  year_bound = omega arith;
}

abbrev screen : Screen
screen = record { cells = λ q. q; cursor = 1999 }

framebuffer_scroll_down_lem_example :
    ((q : ℕ) → q < 1920 → IsAscii (q + 80) → (framebuffer_scroll_down screen).cells q ≡ q + 80)
    × ((q : ℕ) → 1920 ≤ q → q < 2000 → (framebuffer_scroll_down screen).cells q ≡ 0x0F00)
    × ((q : ℕ) → 2000 ≤ q → (framebuffer_scroll_down screen).cells q ≡ q)
framebuffer_scroll_down_lem_example = framebuffer_scroll_down_lem screen

-- The last place of the buffer, and the last cell of the screen.
abbrev keyboard : KeyboardDriverState
keyboard = record {
  read_extended_mode = false;
  keyboard_input_on = true;
  buffer_index = 255;
  keyboard_buffer = λ q. 0;
  shift_pressed = true;
  capslock_activated = false;
}

keyboard_isr-InRange_example :
    InRange (keyboard_isr keyboard screen 0x1E).0 (keyboard_isr keyboard screen 0x1E).1
keyboard_isr-InRange_example =
    keyboard_isr-InRange keyboard screen 0x1E
      record { index = omega arith; on_screen = omega arith }

-- The program's pages at 0 and at 3 GiB less 4 MiB.
abbrev user_pages : List ℕ
user_pages = 0 ∷ 0xBFFFFFFC ∷ []

allocate_all-AreMapped_example :
    AreMapped (allocate_all Paging.initial user_pages).table 1 user_pages
    × ((v : ℕ)
        → Elsewhere v user_pages
        → (allocate_all Paging.initial user_pages).table (page_index v)
          ≡ Paging.initial.table (page_index v))
unfolding Paging.initial
allocate_all-AreMapped_example =
    allocate_all-AreMapped Paging.initial 1 user_pages refl (omega arith)

abbrev stub : ℕ → ℕ
stub i = 0xC0100000 + i % 64 * 16

initialize_idt_lem_example :
    (0x30 < 64 → LeadsTo (initialize_idt stub (λ i. interrupt_gate 0 0 0) 0x30) (stub 0x30) 3)
    × (64 ≤ 0x30 → initialize_idt stub (λ i. interrupt_gate 0 0 0) 0x30 ≡ interrupt_gate 0 0 0)
initialize_idt_lem_example =
    initialize_idt_lem stub (λ i. interrupt_gate 0 0 0) (λ i. omega arith) 0x30

-- "aaa" at address 4, and zeros around it.
abbrev text : Bytes
text q = if leb 4 q && ltb q 7 then b'a' else 0

text-IsBytes : IsBytes text
text-IsBytes q = ground arith

text-IsString : IsString text 4 3
text-IsString = record { ends = refl; no_zero = λ i lt. ground arith }

empty-IsString : IsString text 100 0
empty-IsString = record { ends = refl; no_zero = λ i lt. absurd (omega arith) }

strcmp-Same_example :
    ((strcmp 8 text 4 text 5 ≡ some true) ⊎ (strcmp 8 text 4 text 5 ≡ some false))
    × ((strcmp 8 text 4 text 5 ≡ some true) ↔ ((◌≡◌ {A = ℕ} 3 2) × Same text 4 text 5 3))
strcmp-Same_example =
    strcmp-Same 8 text 4 text 5 3 2 text-IsString
      record { ends = refl; no_zero = λ i lt. ground arith } (omega arith) (omega arith)

strncpy_lem_example : strncpy text 100 text 4 8 102 ≡ b'a'
strncpy_lem_example = strncpy_lem text 100 text 4 8 3 102 text-IsBytes text-IsString

keyboard_alone_example :
    (line_mask (pic_remap 0xB8 0x8E []) 1 ≡ mask_bit 0xB8 0x8E 1)
    × (line_mask (activate_keyboard_interrupt (pic_remap 0xB8 0x8E [])) 1 ≡ 0)
keyboard_alone_example = keyboard_alone 0xB8 0x8E [] 1 (omega arith) (omega arith) (omega arith)

-- "aab", cut at 'b'.
abbrev path : Bytes
path q = if ltb q 2 then b'a' else (if q == 2 then b'b' else 0)

abbrev delimiter : Bytes
delimiter q = if q == 0 then b'b' else 0

path-IsToken : IsToken path 0 2 b'b'
path-IsToken i lt = (λ e. ground arith, λ e. ground arith)
