-- ===== src/User/Filename/Pieces.antt =====
-- What separate_filename (src/syscall.c) makes of a file's name.
use if2230_2023_oshiete.Common.{
  ℕ, ◌+◌, ◌-◌, ◌≤◌, ◌<◌, ◌≡◌, refl, sym, ap, ◌∙◌, arith, Bytes, IsBytes, [], ◌∷◌, ◌||◌, ltb,
  if◌then◌else◌, Bool-cases, ◌⊎◌, inl, inr, Option, none, some,
}
use if2230_2023_oshiete.Mem.{memcpy}
use if2230_2023_oshiete.Mem.Laws.{memcpy_lem}
use if2230_2023_oshiete.Str.Laws.{IsString, strlen-IsString}
use if2230_2023_oshiete.Str.Token.{strtok, IsSingle}
use if2230_2023_oshiete.Str.Parse.Rows.{IsPath, cut_first}
use if2230_2023_oshiete.Fat32.Init.{zeros}
use if2230_2023_oshiete.User.Filename.{
  Filename, dot, address, without_ext, fill_names, check_names, separate_filename,
}

dot-IsSingle : IsSingle dot b'.'
dot-IsSingle = record { first = refl; second = refl; no_zero = omega arith }

-- The buffer holds k bytes from address p of m on, and zeros behind them, up to n bytes.
abbrev pub Holds : ℕ → Bytes → Bytes → ℕ → ℕ → Type 0
Holds n buf m p k = (q : ℕ) → q < n → buf q ≡ (if ltb q k then m (p + q) else 0)

-- A buffer of n bytes that is zeroed and then filled with k bytes.
filled :
    (n : ℕ) (buf m w : Bytes) (p k : ℕ)
    → IsBytes m
    → ((q : ℕ) → q < k → w (p + q) ≡ m (p + q))
    → Holds n (memcpy (memcpy buf 0 zeros 0 n) 0 w p k) m p k
filled n buf m w p k bytes same q lt =
    memcpy_lem (memcpy buf 0 zeros 0 n) 0 w p k q
    ∙ (let e : q - 0 ≡ q = omega arith in
        rw e (ground (arith, bytes (p + q), same q, memcpy_lem buf 0 zeros 0 n q)))

check_names-lengths :
    (fuel : ℕ) (f : Filename) (p n e x : ℕ)
    → IsString f.memory p n
    → IsString f.memory e x
    → n < fuel
    → x < fuel
    → check_names fuel f p e
      ≡ some (if ltb 8 n || ltb 3 x then (3, f) else (0, fill_names f p n e x))
unfolding check_names
check_names-lengths fuel f p n e x name ext low high =
    rw (strlen-IsString fuel f.memory p n name low, strlen-IsString fuel f.memory e x ext high) refl

-- What the call makes of a name of n bytes and an extension of x bytes at e, 0 where there is none:
-- it refuses what is too long, and else fills the two buffers.
pub record Separated (fuel p n e x : ℕ) (f : Filename) : Type 0 where
  pub result : Filename
  pub answer : separate_filename fuel p f ≡ some ((if ltb 8 n || ltb 3 x then 3 else 0), result)
  pub name : n ≤ 8 → x ≤ 3 → Holds 8 result.name f.memory p n
  pub ext : n ≤ 8 → x ≤ 3 → Holds 3 result.ext f.memory e x
  pub refused : (8 < n) ⊎ (3 < x) → (result.name ≡ f.name) × (result.ext ≡ f.ext)

-- The two outcomes, in the memory m that the cuts have left.
outcome :
    (fuel p n e x : ℕ) (f : Filename) (m : Bytes) (next : Option ℕ)
    → IsBytes f.memory
    → ((q : ℕ) → q < n → m (p + q) ≡ f.memory (p + q))
    → ((q : ℕ) → q < x → m (e + q) ≡ f.memory (e + q))
    → separate_filename fuel p f
      ≡ some (
          if ltb 8 n || ltb 3 x
          then (3, record f { memory = m; next = next })
          else (0, fill_names (record f { memory = m; next = next }) p n e x))
    → (s : Separated fuel p n e x f) × (s.result.memory ≡ m)
unfolding fill_names
outcome fuel p n e x f m next bytes same_name same_ext answer =
    elim (Bool-cases (ltb 8 n || ltb 3 x)) [
      | inl long ↦ (
        record {
          result = record f { memory = m; next = next };
          answer = answer ∙ rw long refl;
          name = λ a b. absurd (ground arith);
          ext = λ a b. absurd (ground arith);
          refused = λ h. (refl, refl);
        },
        refl,
      )
      | inr fits ↦ (
        record {
          result = fill_names (record f { memory = m; next = next }) p n e x;
          answer = answer ∙ rw fits refl;
          name = λ a b. filled 8 f.name f.memory m p n bytes same_name;
          ext = λ a b. filled 3 f.ext f.memory m e x bytes same_ext;
          refused = λ h. absurd (ground arith);
        },
        refl,
      )
    ]

-- A piece of the text, in a memory that is the same there.
piece_in :
    (m w : Bytes) (p n : ℕ)
    → ((q : ℕ) → q < n → w (p + q) ≡ m (p + q))
    → w (p + n) ≡ m (p + n)
    → IsString m p n
    → IsString w p n
piece_in m w p n same at_end s = record {
  ends = at_end ∙ s.ends;
  no_zero = λ i lt e. s.no_zero i lt (sym (same i lt) ∙ e);
}

-- A file's name of n bytes and an extension of x bytes, each below 128, none of them a dot, with a
-- dot between them and a zero behind: with fuel for 128 bytes and more separate_filename answers,
-- and exactly where n is above 8 or x above 3 it answers 3 and leaves the two buffers. Else it
-- answers 0, and they hold the name and the extension, with zeros behind them.
pub separate_filename-Separated :
    (fuel p n x : ℕ) (f : Filename)
    → IsBytes f.memory
    → IsPath f.memory b'.' p (n ∷ x ∷ [])
    → 129 < fuel
    → Separated fuel p n (p + n + 1) x f
unfolding separate_filename strtok without_ext address
separate_filename-Separated fuel p n x f bytes path enough =
    let first = cut_first fuel dot b'.' dot-IsSingle enough f.next path in
    let second = cut_first fuel dot b'.' dot-IsSingle enough none first.rest.1 in
    let m = second.text in
    let e = p + n + 1 in
    let kept : (q : ℕ) → q < n → m (p + q) ≡ first.text (p + q) =
      λ q lt. second.same (p + q) (λ same. absurd (omega arith)) in
    let name =
      piece_in first.text m p n kept (second.same (p + n) (λ same. absurd (omega arith)))
        first.piece in
    (outcome fuel p n e x f m second.next bytes
      (λ q lt. kept q lt ∙ first.same (p + q) (λ same. absurd (omega arith)))
      (λ q lt.
        second.same (e + q) (λ same. absurd (omega arith))
        ∙ first.same (e + q) (λ same. absurd (omega arith)))
      (rw (first.answer, first.rest.0, second.answer)
        (check_names-lengths fuel (record f { memory = m; next = second.next }) p n e x name
          second.piece (omega (arith, first.short)) (omega (arith, second.short))))).0

-- A file's name of n bytes below 128, none of them a dot, with a zero behind: with fuel as above
-- separate_filename answers as for an empty extension, but what it finds at the null pointer serves
-- as that extension: the bytes 0, 1 and 2 of the program's memory, which are not those of the name,
-- are zeros behind the call.
pub separate_filename-null :
    (fuel p n : ℕ) (f : Filename)
    → IsBytes f.memory
    → IsPath f.memory b'.' p (n ∷ [])
    → 129 < fuel
    → 3 ≤ p
    → (s : Separated fuel p n 0 0 f) × ((q : ℕ) → q < 3 → s.result.memory q ≡ 0)
unfolding separate_filename strtok without_ext address
separate_filename-null fuel p n f bytes path enough apart =
    let first = cut_first fuel dot b'.' dot-IsSingle enough f.next path in
    let m = memcpy first.text 0 zeros 0 3 in
    let low : (q : ℕ) → q < 3 → m q ≡ 0 =
      λ q lt. memcpy_lem first.text 0 zeros 0 3 q ∙ ground arith in
    let high : (q : ℕ) → 3 ≤ q → m q ≡ first.text q =
      λ q le. memcpy_lem first.text 0 zeros 0 3 q ∙ ground arith in
    let name =
      piece_in first.text m p n (λ q lt. high (p + q) (omega arith)) (high (p + n) (omega arith))
        first.piece in
    let empty : IsString m 0 0 = record {
      ends = low (0 + 0) (omega arith);
      no_zero = λ i lt. absurd (omega arith);
    } in
    let (s, memory) =
      outcome fuel p n 0 0 f m none bytes
        (λ q lt. high (p + q) (omega arith) ∙ first.same (p + q) (λ same. absurd (omega arith)))
        (λ q lt. absurd (omega arith))
        (rw (first.answer, first.rest)
          (check_names-lengths fuel (record f { memory = m; next = none }) p n 0 0 name empty
            (omega (arith, first.short)) (omega arith))) in
    (s, λ q lt. ap (λ w. w q) memory ∙ low q lt)
