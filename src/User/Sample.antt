-- ===== src/User/Sample.antt =====
-- A medium with a file "a", a directory "d" and a file "b", for the tests of the commands.
use if2230_2023_oshiete.Common.{
  ℕ, zero, suc, ◌+◌, ◌<◌, ◌≢◌, ◌≡◌, refl, sym, ◌∙◌, arith, Bytes, IsBytes, [], ◌∷◌, put8, put32,
  Option, none, some, ◌==◌, if◌then◌else◌,
}
use if2230_2023_oshiete.Fat32.Layout.{end_of_file}
use if2230_2023_oshiete.Fat32.Driver.{Fs, Result}
use if2230_2023_oshiete.Fat32.Init.{zeros, bytes_of}
use if2230_2023_oshiete.Fat32.Tests.{machine, medium}
use if2230_2023_oshiete.Str.Token.{IsToken}
use if2230_2023_oshiete.User.{CurrentWorkingDirectory}
use if2230_2023_oshiete.User.Plain.{IsPlain}
use if2230_2023_oshiete.User.Target.{Run, Caller, Probe}

-- The root holds the file "a" of 100 bytes in cluster 5, the directory "d" in cluster 6, in use, and the
-- file "b" of 100 bytes in cluster 7.
abbrev pub disk : Bytes
disk =
    let a = put32 (put8 (put32 medium 2068 end_of_file) 4154 5) 4156 100 in
    let d = put8 (put8 (put8 (put8 (put32 a 2072 end_of_file) 4160 b'd') 4171 16) 4173 1) 4186 6 in
    let in_use = put8 (put8 (put8 d 12288 b'd') 12299 16) 12300 170 in
    put32 (put8 (put8 (put8 (put32 in_use 2076 end_of_file) 4192 b'b') 4205 1) 4218 7) 4220 100

abbrev pub at_root : CurrentWorkingDirectory
at_root = record { clusters_stack = λ i. if i == 0 then 2 else 0; dir_names = zeros; top = 0 }

abbrev pub caller : Caller
caller = record { unset = zeros; local = 100; cwd = at_root }

abbrev pub start : Run
start = record {
  screen = record { cells = λ q. 0; cursor = 0 };
  fs = machine disk (put32 zeros 8 end_of_file) zeros;
  next = none;
}

abbrev pub fs_of : Option Result → Fs
fs_of none = machine zeros zeros zeros
fs_of (some r) = r.1

abbrev pub probed : Option Probe → Fs
probed none = machine zeros zeros zeros
probed (some p) = p.fs

-- "a", "d", "b" and "c", at 0, 2, 4 and 6.
abbrev pub words : Bytes
words = bytes_of (b'a' ∷ 0 ∷ b'd' ∷ 0 ∷ b'b' ∷ 0 ∷ b'c' ∷ [])

pub words-IsBytes : IsBytes words
words-IsBytes zero = omega arith
words-IsBytes (suc zero) = omega arith
words-IsBytes (suc (suc zero)) = omega arith
words-IsBytes (suc (suc (suc zero))) = omega arith
words-IsBytes (suc (suc (suc (suc zero)))) = omega arith
words-IsBytes (suc (suc (suc (suc (suc zero))))) = omega arith
words-IsBytes (suc (suc (suc (suc (suc (suc zero)))))) = omega arith
words-IsBytes (suc (suc (suc (suc (suc (suc (suc a))))))) = omega arith

-- A word of one letter.
pub letter-IsPlain :
    (p c : ℕ)
    → words (p + 0) ≡ c
    → words (p + 1) ≡ 0
    → c ≢ 0
    → c ≢ b'/'
    → c ≢ b'.'
    → IsPlain words p 1
letter-IsPlain p c e ends not_zero not_slash not_dot = record {
  name = record {
    low = omega arith;
    high = omega arith;
    token = token;
    ends = ends;
    not_up = λ two. absurd (omega (arith, two));
  };
  no_dot = no_dot;
}
  where
    token : IsToken words p 1 b'/'
    token zero lt = (λ z. not_zero (sym e ∙ z), λ z. not_slash (sym e ∙ z))
    token (suc i) lt = absurd (omega arith)

    no_dot : (i : ℕ) → i < 1 → words (p + i) ≢ b'.'
    no_dot zero lt z = not_dot (sym e ∙ z)
    no_dot (suc i) lt z = absurd (omega arith)

pub a-IsPlain : IsPlain words 0 1
a-IsPlain =
    letter-IsPlain 0 b'a' refl refl (λ e. absurd (omega (arith, e)))
      (λ e. absurd (omega (arith, e))) (λ e. absurd (omega (arith, e)))

pub d-IsPlain : IsPlain words 2 1
d-IsPlain =
    letter-IsPlain 2 b'd' refl refl (λ e. absurd (omega (arith, e)))
      (λ e. absurd (omega (arith, e))) (λ e. absurd (omega (arith, e)))

pub b-IsPlain : IsPlain words 4 1
b-IsPlain =
    letter-IsPlain 4 b'b' refl refl (λ e. absurd (omega (arith, e)))
      (λ e. absurd (omega (arith, e))) (λ e. absurd (omega (arith, e)))

pub c-IsPlain : IsPlain words 6 1
c-IsPlain =
    letter-IsPlain 6 b'c' refl refl (λ e. absurd (omega (arith, e)))
      (λ e. absurd (omega (arith, e))) (λ e. absurd (omega (arith, e)))
