-- ===== src/User/Name.antt =====
-- read_path (src/syscall.c) with a path that is one name.
use if2230_2023_oshiete.Common.{
  ℕ, zero, suc, ◌+◌, ◌-◌, ◌%◌, ◌≤◌, ◌<◌, ◌≡◌, ◌≢◌, refl, sym, ap, subst, ◌∙◌, arith, fun_ext, Bytes,
  IsBytes, clear, [], ◌∷◌, false, ◌&&◌, ltb, leb, if◌then◌else◌, Bool-cases, inl, inr, Option, some,
  ◌>>=◌, for_loop, lt→ltb,
}
use native.Mathlib.Decide.{dec_lt}
use if2230_2023_oshiete.Mem.{memcpy}
use if2230_2023_oshiete.Mem.Laws.{memcpy_lem}
use if2230_2023_oshiete.Str.{strcmp}
use if2230_2023_oshiete.Str.Laws.{IsString, Same, strcmp-Same}
use if2230_2023_oshiete.Str.Token.{IsToken, IsSingle}
use if2230_2023_oshiete.Str.Parse.{row_length}
use if2230_2023_oshiete.Str.Parse.Rows.{IsPath, final, strparse-AreRows}
use if2230_2023_oshiete.Fat32.Layout.{cluster_size}
use if2230_2023_oshiete.Fat32.Driver.{Fs, Request}
use if2230_2023_oshiete.Fat32.Init.{zeros}
use if2230_2023_oshiete.User.{
  CurrentWorkingDirectory, dot_dot, slash, last_part, after_walk, walk_parts, read_path,
  directory_request,
}

-- At the address lies a name of 1 to 8 bytes, none of them a slash, and it is not "..".
pub record IsName (text : Bytes) (p k : ℕ) : Type 0 where
  pub low : 1 ≤ k
  pub high : k ≤ 8
  pub token : IsToken text p k b'/'
  pub ends : text (p + k) ≡ 0
  pub not_up : k ≡ 2 → Same dot_dot 0 text p 2 → ⊥

-- The name, with zeros behind it.
abbrev pub name_of : Bytes → ℕ → ℕ → Bytes
name_of text p k q = if ltb q k then text (p + q) else 0

abbrev pub name_request : Bytes → ℕ → ℕ → ℕ → Request
name_request text p k cluster = record {
  name = name_of text p k;
  ext = zeros;
  parent_cluster_number = cluster;
  buffer_size = cluster_size;
}

-- A memory whose first bytes are the name, with zeros behind it.
abbrev pub IsRow : ℕ → Bytes → Bytes → ℕ → ℕ → Type 0
IsRow n m text p k = (q : ℕ) → q < n → m q ≡ name_of text p k q

pub IsRow-IsString :
    (n : ℕ) (m text : Bytes) (p k : ℕ)
    → IsRow n m text p k
    → 8 < n
    → IsName text p k
    → IsString m 0 k
IsRow-IsString n m text p k row wide name = record {
  ends = row (0 + k) (omega (arith, name.high)) ∙ ground arith;
  no_zero = λ i lt e.
      (name.token i lt).0 (sym (row (0 + i) (omega (arith, name.high)) ∙ ground arith) ∙ e);
}

dot_dot-IsString : IsString dot_dot 0 2
dot_dot-IsString = record { ends = refl; no_zero = no_zero }
  where
    no_zero : (i : ℕ) → i < 2 → dot_dot (0 + i) ≢ 0
    no_zero zero lt e = absurd (omega arith)
    no_zero (suc zero) lt e = absurd (omega arith)
    no_zero (suc (suc i)) lt e = absurd (omega arith)

-- The row is not "..".
strcmp-name :
    (fuel n : ℕ) (m text : Bytes) (p k : ℕ)
    → IsRow n m text p k
    → 8 < n
    → IsName text p k
    → 129 < fuel
    → strcmp fuel dot_dot 0 m 0 ≡ some false
strcmp-name fuel n m text p k row wide name enough =
    let both =
      strcmp-Same fuel dot_dot 0 m 0 2 k dot_dot-IsString
        (IsRow-IsString n m text p k row wide name) (omega arith) (omega (arith, name.high)) in
    elim both.0 [
      | inl e ↦
          let (two, same) = both.1.0 e in
          let at : (i : ℕ) → i < 2 → m (0 + i) ≡ text (p + i) =
            λ i lt. row (0 + i) (omega arith) ∙ ground arith in
          absurd (name.not_up (sym two) λ i lt. same i lt ∙ at i lt)
      | inr e ↦ e
    ]

-- The first 12 bytes of the row go to new_dir.
abbrev taken : Bytes → Bytes → Bytes
taken unset dirs = memcpy (clear unset 0 12) 0 dirs 0 12

taken-IsRow :
    (unset dirs text : Bytes) (p k : ℕ)
    → IsBytes text
    → IsRow row_length dirs text p k
    → IsRow 12 (taken unset dirs) text p k
unfolding clear
taken-IsRow unset dirs text p k bytes row q lt =
    memcpy_lem (clear unset 0 12) 0 dirs 0 12 q
    ∙ (let e : 0 + (q - 0) ≡ q = omega arith in
        rw (lt→ltb q 12 lt, e, row q (omega arith)) (ground (arith, bytes (p + q))))

taken-IsBytes : (unset dirs : Bytes) → IsBytes unset → IsBytes (taken unset dirs)
unfolding clear
taken-IsBytes unset dirs other q =
    rw (memcpy_lem (clear unset 0 12) 0 dirs 0 12 q) (ground (arith, other q))

-- Copies of 8 bytes of the row are copies of the name.
pub memcpy-IsRow :
    (m : Bytes) (d : ℕ) (row text : Bytes) (p k : ℕ)
    → IsRow 12 row text p k
    → memcpy m d row 0 8 ≡ memcpy m d (name_of text p k) 0 8
memcpy-IsRow m d row text p k same =
    fun_ext λ q. memcpy_lem m d row 0 8 q ∙ inside q ∙ sym (memcpy_lem m d (name_of text p k) 0 8 q)
  where
    inside :
        (q : ℕ)
        → (if leb d q && ltb q (d + 8) then row (0 + (q - d)) % 256 else m q)
          ≡ (if leb d q && ltb q (d + 8) then name_of text p k (0 + (q - d)) % 256 else m q)
    inside q = elim (Bool-cases (leb d q && ltb q (d + 8))) [
      | inl e ↦
          ap (λ v. if leb d q && ltb q (d + 8) then v % 256 else m q)
            (same (0 + (q - d)) (ground arith))
      | inr e ↦ rw e refl
    ]

pub request-IsRow :
    (row text : Bytes) (p k c : ℕ)
    → IsBytes text
    → k ≤ 8
    → IsRow 12 row text p k
    → directory_request row 0 c ≡ name_request text p k c
unfolding directory_request
request-IsRow row text p k c bytes high same =
    ap
      (λ n. record { name = n; ext = zeros; parent_cluster_number = c; buffer_size = cluster_size })
      (fun_ext λ q. memcpy_lem zeros 0 row 0 8 q ∙ inside q)
  where
    inside :
        (q : ℕ)
        → (if leb 0 q && ltb q (0 + 8) then row (0 + (q - 0)) % 256 else 0) ≡ name_of text p k q
    inside q = elim (dec_lt q 8) [
      | yes lt ↦
          let e : 0 + (q - 0) ≡ q = omega arith in
          rw (lt→ltb q 8 lt, e, same q (omega arith)) (ground (arith, bytes (p + q)))
      | no ge ↦ ground arith
    ]

-- What the path leaves: the stack as it was, and the name to look for.
name-IsPath : {text : Bytes} {p k : ℕ} → IsName text p k → IsPath text b'/' p (k ∷ [])
name-IsPath name = final (omega (arith, name.high)) name.token name.ends

slash-IsSingle : IsSingle slash b'/'
slash-IsSingle = record { first = refl; second = refl; no_zero = omega arith }

walk_parts-name :
    (fuel : ℕ) (cwd : CurrentWorkingDirectory) (to_find : Bytes) (fs : Fs) (dirs : Bytes)
    (next : Option ℕ)
    → strcmp fuel dot_dot 0 dirs 0 ≡ some false
    → walk_parts fuel cwd to_find fs dirs next 1
      ≡ some (record {
        code = 0;
        cwd = cwd;
        fs = record fs { buf = zeros };
        to_find = memcpy to_find 0 dirs 0 12;
        next = next;
      })
unfolding walk_parts for_loop after_walk last_part
walk_parts-name fuel cwd to_find fs dirs next e = rw e refl

pub read_path-name :
    (fuel : ℕ) (text : Bytes) (p : ℕ) (cwd : CurrentWorkingDirectory) (unset : Bytes)
    (next : Option ℕ) (fs : Fs) (k : ℕ)
    → IsBytes text
    → IsName text p k
    → 129 < fuel
    → (new_dir : Bytes) × (next' : Option ℕ) × (read_path fuel text p cwd
          (clear unset 0 12)
          unset
          next
          fs
        ≡ some (record {
          code = 0;
          cwd = cwd;
          fs = record fs { buf = zeros };
          to_find = new_dir;
          next = next';
        }))
      × IsRow 12 new_dir text p k
      × (IsBytes unset → IsBytes new_dir)
unfolding read_path
read_path-name fuel text p cwd unset next fs k bytes name enough =
    let (s, (answer, (count, rows))) =
      strparse-AreRows fuel text p unset slash next b'/' k [] slash-IsSingle enough bytes
        (name-IsPath name) (omega arith) in
    let row : IsRow row_length s.command text p k =
      λ q lt. subst (λ a. s.command a ≡ name_of text p k q) (omega arith) (rows.0 q lt) in
    let to_find = clear unset 0 12 in
    (
      taken unset s.command,
      s.next,
      ap (λ o. o >>= λ dirs. walk_parts fuel cwd to_find fs dirs.command dirs.next dirs.count)
            answer
          ∙ ap (walk_parts fuel cwd to_find fs s.command s.next) count
          ∙ walk_parts-name fuel cwd to_find fs s.command s.next
              (strcmp-name fuel row_length s.command text p k row (omega arith) name enough),
      taken-IsRow unset s.command text p k bytes row,
      taken-IsBytes unset s.command,
    )
