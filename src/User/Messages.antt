-- ===== src/User/Messages.antt =====
-- What the messages of the commands (src/commands/) put on the screen.
use if2230_2023_oshiete.Common.{
  ℕ, ◌+◌, ◌<◌, ◌≡◌, refl, ap, ◌∙◌, arith, Bytes, Bool, true, not, ◌&&◌, ◌==◌, every, every-at, some,
}
use if2230_2023_oshiete.Str.Laws.{IsString, strlen-IsString}
use if2230_2023_oshiete.Framebuffer.{puts_buff}
use if2230_2023_oshiete.Syscall.{bytes_at}
use if2230_2023_oshiete.User.{puts}
use if2230_2023_oshiete.User.Cat.{color_red}
use if2230_2023_oshiete.User.Target.{Run, complain}

-- A message of n bytes that are not zero, with a zero behind them.
abbrev pub is_message : Bytes → ℕ → Bool
is_message m n = every (λ i. not (m i == 0)) n 0 && m n == 0

is_message-IsString : (m : Bytes) (n : ℕ) → is_message m n ≡ true → IsString m 0 n
is_message-IsString m n e =
    let none : every (λ i. not (m i == 0)) n 0 ≡ true = ground arith in
    record {
      ends = ap m (omega arith) ∙ (let z : m n ≡ 0 = ground arith in z);
      no_zero = λ i lt z.
          let here = every-at (λ i. not (m i == 0)) n 0 (0 + i) none (omega arith) (omega arith) in
          ground arith;
    }

-- A message in red.
abbrev pub shown : Bytes → ℕ → Run → Run
shown message n run = record run { screen = puts_buff run.screen (bytes_at message 0 n) color_red }

pub complain-is_message :
    (fuel : ℕ) (message : Bytes) (n : ℕ) (run : Run)
    → is_message message n ≡ true
    → n < fuel
    → complain fuel message run ≡ some (shown message n run)
unfolding complain puts
complain-is_message fuel message n run e enough =
    rw (strlen-IsString fuel message 0 n (is_message-IsString message n e) enough) refl
