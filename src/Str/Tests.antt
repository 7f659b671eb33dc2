-- ===== src/Str/Tests.antt =====
-- strparse (src/string.c) on a concrete text.
use if2230_2023_oshiete.Common.{zero, suc, ◌≡◌, refl, arith, Bytes, [], ◌∷◌, none, some, IsBytes}
use if2230_2023_oshiete.Fat32.Init.{bytes_of}
use if2230_2023_oshiete.Str.Token.{IsToken}
use if2230_2023_oshiete.Str.Parse.{Parse, strparse}
use if2230_2023_oshiete.Str.Parse.Rows.{IsPath, final, split, AreRows, strparse-AreRows}

-- "a/bc" and "/".
abbrev words : Bytes
words = bytes_of (b'a' ∷ b'/' ∷ b'b' ∷ b'c' ∷ [])

abbrev slash : Bytes
slash = bytes_of (b'/' ∷ [])

words-IsBytes : IsBytes words
words-IsBytes zero = omega arith
words-IsBytes (suc zero) = omega arith
words-IsBytes (suc (suc zero)) = omega arith
words-IsBytes (suc (suc (suc zero))) = omega arith
words-IsBytes (suc (suc (suc (suc a)))) = omega arith

a_piece : IsToken words 0 1 b'/'
a_piece zero lt = (λ e. absurd (omega arith), λ e. absurd (omega arith))
a_piece (suc i) lt = absurd (omega arith)

bc_piece : IsToken words 2 2 b'/'
bc_piece zero lt = (λ e. absurd (omega arith), λ e. absurd (omega arith))
bc_piece (suc zero) lt = (λ e. absurd (omega arith), λ e. absurd (omega arith))
bc_piece (suc (suc i)) lt = absurd (omega arith)

words-IsPath : IsPath words b'/' 0 (1 ∷ 2 ∷ [])
words-IsPath = split (omega arith) a_piece refl (final (omega arith) bc_piece refl)

strparse-AreRows_example :
    (s : Parse) × ((strparse 130 words 0 (λ q. 7) slash none ≡ some s)
      × ((s.count ≡ 2) × AreRows s.command 0 words 0 (1 ∷ 2 ∷ [])))
strparse-AreRows_example =
    strparse-AreRows 130 words 0 (λ q. 7) slash none b'/' 1 (2 ∷ [])
      record { first = refl; second = refl; no_zero = omega arith } (omega arith) words-IsBytes
      words-IsPath (omega arith)
