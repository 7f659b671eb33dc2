-- ===== src/Framebuffer/Scroll.antt =====
-- Scrolling (src/framebuffer.c), and where writes leave the cursor.
use native.Mathlib.Decide.{ℕ_discrete}
use if2230_2023_oshiete.Common.{
  ℕ, zero, suc, ◌+◌, ◌*◌, ◌/◌, ◌%◌, ◌≤◌, ◌<◌, bit_or, every, every-at, true, ◌≡◌, refl, ◌∙◌, subst,
  eq→==, ==→eq, ne→==, lt→ltb, arith, ◌==◌, ltb, if◌then◌else◌,
}
use if2230_2023_oshiete.Framebuffer.{
  Screen, vga_width, default_fg, default_bg, framebuffer_set_entry, set_cell, framebuffer_write,
  framebuffer_getchar, framebuffer_get_fg, framebuffer_get_bg, scroll_cell, scroll_row, scroll_rows,
  framebuffer_scroll_down, widen,
}

-- What the screen s holds at row i and column j once it is scrolled.
unfoldable scrolled : Screen → ℕ → ℕ → ℕ
scrolled s i j =
    if i == 24
    then framebuffer_set_entry 0 default_fg default_bg
    else framebuffer_set_entry (framebuffer_getchar s (i + 1) j) (framebuffer_get_fg s (i + 1) j)
        (framebuffer_get_bg s (i + 1) j)

-- The loops have got as far as cell p: what lies before it is scrolled, and the rest is as it was.
abbrev ScrolledTo : Screen → Screen → ℕ → Type 0
ScrolledTo s t p =
    (q : ℕ)
    → t.cells q ≡ (if ltb q p then scrolled s (q / vga_width) (q % vga_width) else s.cells q)

scroll_cell_at :
    (t : Screen) (i j q : ℕ)
    → (scroll_cell t i j).cells q ≡ (if q == i * vga_width + j then scrolled t i j else t.cells q)
unfolding scroll_cell scrolled framebuffer_write set_cell
scroll_cell_at t i j q = ground arith

scrolled_same :
    (s t : Screen) (i j : ℕ)
    → t.cells ((i + 1) * vga_width + j) ≡ s.cells ((i + 1) * vga_width + j)
    → scrolled t i j ≡ scrolled s i j
unfolding scrolled framebuffer_getchar framebuffer_get_fg framebuffer_get_bg
scrolled_same s t i j e = rw e

scroll_cell_step :
    (s t : Screen) (i j : ℕ)
    → j < vga_width
    → ScrolledTo s t (i * vga_width + j)
    → ScrolledTo s (scroll_cell t i j) (i * vga_width + suc j)
scroll_cell_step s t i j lt upto q =
    scroll_cell_at t i j q ∙ cell (ℕ_discrete q (i * vga_width + j))
  where
    below : t.cells ((i + 1) * vga_width + j) ≡ s.cells ((i + 1) * vga_width + j)
    below = ground (arith, upto ((i + 1) * vga_width + j))

    cell :
        Dec (q ≡ i * vga_width + j)
        → (if q == i * vga_width + j then scrolled t i j else t.cells q) ≡ (
            if ltb q (i * vga_width + suc j)
            then scrolled s (q / vga_width) (q % vga_width)
            else s.cells q)
    cell (yes e) =
        let row : q / vga_width ≡ i = omega arith in
        let col : q % vga_width ≡ j = omega arith in
        rw (eq→== q (i * vga_width + j) e, lt→ltb q (i * vga_width + suc j) (omega arith), row, col)
          (scrolled_same s t i j below)
    cell (no ne) = rw (ne→== q (i * vga_width + j) ne) (ground (arith, upto q))

scroll_row_step :
    (s : Screen) (i k j : ℕ) (t : Screen)
    → j + k ≡ vga_width
    → ScrolledTo s t (i * vga_width + j)
    → ScrolledTo s (scroll_row t i k j) (suc i * vga_width)
unfolding scroll_row
scroll_row_step s i zero j t e upto =
    let same : i * vga_width + j ≡ suc i * vga_width = omega arith in
    subst (ScrolledTo s t) same upto
scroll_row_step s i (suc k) j t e upto =
    scroll_row_step s i k (suc j) (scroll_cell t i j) (omega arith)
      (scroll_cell_step s t i j (omega arith) upto)

scroll_rows_step :
    (s : Screen) (k i : ℕ) (t : Screen)
    → i + k ≡ 25
    → ScrolledTo s t (i * vga_width)
    → ScrolledTo s (scroll_rows t k i) 2000
unfolding scroll_rows
scroll_rows_step s zero i t e upto =
    let same : i * vga_width ≡ 2000 = omega arith in subst (ScrolledTo s t) same upto
scroll_rows_step s (suc k) i t e upto =
    let same : i * vga_width ≡ i * vga_width + 0 = omega arith in
    scroll_rows_step s k (suc i) (scroll_row t i vga_width 0) (omega arith)
      (scroll_row_step s i vga_width 0 t refl (subst (ScrolledTo s t) same upto))

scroll_down-scrolled :
    (s : Screen) (q : ℕ)
    → (framebuffer_scroll_down s).cells q
      ≡ (if ltb q 2000 then scrolled s (q / vga_width) (q % vga_width) else s.cells q)
unfolding framebuffer_scroll_down
scroll_down-scrolled s q = scroll_rows_step s 25 0 s refl start q
  where
    start : ScrolledTo s s (0 * vga_width)
    start q = ground arith

blank_cell : framebuffer_set_entry 0 default_fg default_bg ≡ 0x0F00
unfolding framebuffer_set_entry widen
blank_cell = refl

-- A cell of 16 bits whose character is below 0x80, and whose colours are any.
abbrev pub IsAscii : ℕ → Type 0
IsAscii v = (v < 65536) × (v % 256 < 128)

-- The parts of a cell do not overlap, so that `|` is `+`.
colours_apart : every (λ bg. every (λ fg. bit_or fg (bg * 16) == fg + bg * 16) 16 0) 16 0 ≡ true
colours_apart = refl

char_apart : every (λ a. every (λ c. bit_or c (a * 256) == c + a * 256) 128 0) 256 0 ≡ true
char_apart = refl

colours_or : (fg bg : ℕ) → fg < 16 → bg < 16 → bit_or fg (bg * 16) ≡ fg + bg * 16
colours_or fg bg f b =
    let row =
      every-at (λ b. every (λ f. bit_or f (b * 16) == f + b * 16) 16 0) 16 0 bg colours_apart
        (omega arith) (omega arith) in
    ==→eq _ _
      (every-at (λ f. bit_or f (bg * 16) == f + bg * 16) 16 0 fg row (omega arith) (omega arith))

char_or : (c a : ℕ) → c < 128 → a < 256 → bit_or c (a * 256) ≡ c + a * 256
char_or c a k b =
    let row =
      every-at (λ a. every (λ c. bit_or c (a * 256) == c + a * 256) 128 0) 256 0 a char_apart
        (omega arith) (omega arith) in
    ==→eq _ _
      (every-at (λ c. bit_or c (a * 256) == c + a * 256) 128 0 c row (omega arith) (omega arith))

set_entry-same :
    (v : ℕ) → IsAscii v → framebuffer_set_entry (v % 256) (v / 256 % 16) (v / 4096 % 16) ≡ v
unfolding framebuffer_set_entry widen
set_entry-same v h =
    let small : v / 256 < 256 = omega (arith, h.0) in
    let high : (v / 256 % 16 + v / 4096 % 16 * 16) % 65536 ≡ v / 256 = omega (arith, h.0) in
    rw
      (
        lt→ltb (v % 256) 128 h.1,
        colours_or (v / 256 % 16) (v / 4096 % 16) (omega arith) (omega arith),
        high,
        char_or (v % 256) (v / 256) h.1 small,
      )
      (omega (arith, h.0))

-- framebuffer_scroll_down moves every row up by one: on the screen, each cell of rows 0 to 23 is the one
-- that stood below it, character and colours, where that has a character below 0x80; the cells of row
-- 24 are 0x0F00, a zero in white on black; and no cell behind the screen changes.
pub framebuffer_scroll_down_lem :
    (s : Screen)
    → ((q : ℕ)
        → q < 1920
        → IsAscii (s.cells (q + 80))
        → (framebuffer_scroll_down s).cells q ≡ s.cells (q + 80))
      × ((q : ℕ) → 1920 ≤ q → q < 2000 → (framebuffer_scroll_down s).cells q ≡ 0x0F00)
      × ((q : ℕ) → 2000 ≤ q → (framebuffer_scroll_down s).cells q ≡ s.cells q)
unfolding scrolled framebuffer_getchar framebuffer_get_fg framebuffer_get_bg
framebuffer_scroll_down_lem s = (
  λ q lt ascii.
      let row : (q / 80 + 1) * 80 + q % 80 ≡ q + 80 = omega arith in
      scroll_down-scrolled s q
      ∙ rw (lt→ltb q 2000 (omega arith), ne→== (q / 80) 24 (omega arith), row)
          (set_entry-same (s.cells (q + 80)) ascii),
  λ q lo hi.
      scroll_down-scrolled s q ∙ rw (lt→ltb q 2000 hi, eq→== (q / 80) 24 (omega arith)) blank_cell,
  λ q le. scroll_down-scrolled s q ∙ ground arith,
)
