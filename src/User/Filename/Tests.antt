-- ===== src/User/Filename/Tests.antt =====
-- separate_filename (src/syscall.c) on concrete names.
use if2230_2023_oshiete.Common.{ℕ, zero, suc, ◌<◌, ◌≡◌, refl, arith, IsBytes, [], ◌∷◌, none}
use if2230_2023_oshiete.Fat32.Init.{bytes_of}
use if2230_2023_oshiete.Str.Token.{IsToken}
use if2230_2023_oshiete.Str.Parse.Rows.{final, split}
use if2230_2023_oshiete.User.Filename.{Filename}
use if2230_2023_oshiete.User.Filename.Pieces.{
  Separated, separate_filename-Separated, separate_filename-null,
}

-- "a.b" and "a", at address 4 of a memory that begins with sevens.
abbrev dotted : Filename
dotted = record {
  memory = bytes_of (7 ∷ 7 ∷ 7 ∷ 7 ∷ b'a' ∷ b'.' ∷ b'b' ∷ []);
  name = λ q. 9;
  ext = λ q. 9;
  next = none;
}

abbrev plain : Filename
plain = record dotted { memory = bytes_of (7 ∷ 7 ∷ 7 ∷ 7 ∷ b'a' ∷ []) }

dotted-IsBytes : IsBytes dotted.memory
dotted-IsBytes zero = omega arith
dotted-IsBytes (suc zero) = omega arith
dotted-IsBytes (suc (suc zero)) = omega arith
dotted-IsBytes (suc (suc (suc zero))) = omega arith
dotted-IsBytes (suc (suc (suc (suc zero)))) = omega arith
dotted-IsBytes (suc (suc (suc (suc (suc zero))))) = omega arith
dotted-IsBytes (suc (suc (suc (suc (suc (suc zero)))))) = omega arith
dotted-IsBytes (suc (suc (suc (suc (suc (suc (suc a))))))) = omega arith

plain-IsBytes : IsBytes plain.memory
plain-IsBytes zero = omega arith
plain-IsBytes (suc zero) = omega arith
plain-IsBytes (suc (suc zero)) = omega arith
plain-IsBytes (suc (suc (suc zero))) = omega arith
plain-IsBytes (suc (suc (suc (suc zero)))) = omega arith
plain-IsBytes (suc (suc (suc (suc (suc a))))) = omega arith

separate_filename-Separated_example : Separated 130 4 1 6 1 dotted
separate_filename-Separated_example =
    separate_filename-Separated 130 4 1 1 dotted dotted-IsBytes
      (split (omega arith) first_letter refl (final (omega arith) last_letter refl)) (omega arith)
  where
    first_letter : IsToken dotted.memory 4 1 b'.'
    first_letter zero lt = (λ e. absurd (omega arith), λ e. absurd (omega arith))
    first_letter (suc i) lt = absurd (omega arith)

    last_letter : IsToken dotted.memory 6 1 b'.'
    last_letter zero lt = (λ e. absurd (omega arith), λ e. absurd (omega arith))
    last_letter (suc i) lt = absurd (omega arith)

separate_filename-null_example :
    (s : Separated 130 4 1 0 0 plain) × ((q : ℕ) → q < 3 → s.result.memory q ≡ 0)
separate_filename-null_example =
    separate_filename-null 130 4 1 plain plain-IsBytes (final (omega arith) letter refl)
      (omega arith) (omega arith)
  where
    letter : IsToken plain.memory 4 1 b'.'
    letter zero lt = (λ e. absurd (omega arith), λ e. absurd (omega arith))
    letter (suc i) lt = absurd (omega arith)
