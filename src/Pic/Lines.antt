-- ===== src/Pic/Lines.antt =====
-- Which lines of the controllers src/interrupt.c lets through.
use if2230_2023_oshiete.Common.{
  ℕ, ◌-◌, ◌/◌, ◌%◌, ◌^◌, ◌<◌, ◌≡◌, refl, arith, ltb, if◌then◌else◌, ◌==◌, [], ◌∷◌, every, every-at,
  ==→eq, true,
}
use if2230_2023_oshiete.Pic.{Log, pic1_data, pic2_data, pic_remap, activate_keyboard_interrupt}

-- The value that a port was sent last, and 0 if none.
abbrev pub last_sent : ℕ → Log → ℕ
last_sent port [] = 0
last_sent port ((p, value) ∷ log) =
    let before = last_sent port log in if p == port then value else before

-- The bit of interrupt line irq in the masks of the two controllers: 1 if it is disabled.
abbrev pub mask_bit : ℕ → ℕ → ℕ → ℕ
mask_bit m1 m2 irq = if ltb irq 8 then m1 / 2 ^ irq % 2 else m2 / 2 ^ (irq - 8) % 2

abbrev pub line_mask : Log → ℕ → ℕ
line_mask log irq = mask_bit (last_sent pic1_data log) (last_sent pic2_data log) irq

every_line :
    (log : Log)
    → every
        (λ irq. line_mask (activate_keyboard_interrupt log) irq == (if irq == 1 then 0 else 1))
        16
        0
      ≡ true
unfolding activate_keyboard_interrupt
every_line log = refl

-- pic_remap leaves the mask of every line as the controllers had it, for masks of a byte; and once
-- activate_keyboard_interrupt has run, whatever was sent before, of the 16 lines exactly the
-- keyboard's is enabled.
pub keyboard_alone :
    (a1 a2 : ℕ) (log : Log) (irq : ℕ)
    → a1 < 256
    → a2 < 256
    → irq < 16
    → (line_mask (pic_remap a1 a2 log) irq ≡ mask_bit a1 a2 irq)
      × (line_mask (activate_keyboard_interrupt (pic_remap a1 a2 log)) irq
          ≡ (if irq == 1 then 0 else 1))
unfolding pic_remap
keyboard_alone a1 a2 log irq h1 h2 lt = (
  let e1 : a1 % 256 ≡ a1 = omega arith in let e2 : a2 % 256 ≡ a2 = omega arith in rw (e1, e2),
  ==→eq _ _ (
      every-at
        (λ irq.
          line_mask (activate_keyboard_interrupt (pic_remap a1 a2 log)) irq
          == (if irq == 1 then 0 else 1))
        16 0 irq (every_line (pic_remap a1 a2 log)) (omega arith) lt),
)
