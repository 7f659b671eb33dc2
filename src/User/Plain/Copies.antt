-- ===== src/User/Plain/Copies.antt =====
-- A path that is one name without an extension: its copies, and what read_path leaves of its text.
use if2230_2023_oshiete.Common.{
  ℕ, zero, suc, ◌+◌, ◌-◌, ◌*◌, ◌≤◌, ◌<◌, ◌≡◌, ◌≢◌, refl, sym, ap, ◌∙◌, arith, fun_ext, Bytes,
  IsBytes, clear, copy, false, inl, inr, Option, none, some, le→ltb, eq→==, lt→ltb,
}
use native.Mathlib.Decide.{dec_lt}
use if2230_2023_oshiete.Str.{strcmp}
use if2230_2023_oshiete.Str.Laws.{IsString, strcpy-copy, strcmp-Same, strlen-IsString}
use if2230_2023_oshiete.Str.Token.{IsSingle, strtok, strtok_lem}
use if2230_2023_oshiete.Str.Parse.{
  row_length, table_size, strparse, parse_loop, parse_round, parse_token,
}
use if2230_2023_oshiete.Fat32.Layout.{cluster_size}
use if2230_2023_oshiete.Fat32.Init.{zeros}
use if2230_2023_oshiete.User.{slash}
use if2230_2023_oshiete.User.Name.{name_of}
use if2230_2023_oshiete.User.Filename.{dot}
use if2230_2023_oshiete.User.Cat.Shown.{plain_request}
use if2230_2023_oshiete.User.Target.{Caller, copy_path, cut_text}
use if2230_2023_oshiete.User.Plain.{IsPlain}

-- The copy of the path in a buffer is the same name.
pub record CopiesPlain (fuel : ℕ) (caller : Caller) (text : Bytes) (p k : ℕ) : Type 0 where
  pub full : Bytes
  pub answer : copy_path fuel caller text p ≡ some full
  pub plain : IsPlain full 0 k
  pub bytes : IsBytes full
  pub request : (c : ℕ) → plain_request full 0 k c ≡ plain_request text p k c

copy-at :
    (unset text : Bytes) (p k i : ℕ)
    → i ≤ k
    → copy (clear unset 0 50) 0 text p (suc k) (0 + i) ≡ text (p + i)
unfolding copy
copy-at unset text p k i le = ground arith

copy-IsBytes :
    (unset text : Bytes) (p n : ℕ)
    → IsBytes unset
    → IsBytes text
    → IsBytes (copy (clear unset 0 50) 0 text p n)
unfolding copy clear
copy-IsBytes unset text p n other bytes q = ground (arith, other q, bytes (p + (q - 0)))

copy-IsPlain :
    (unset text : Bytes) (p k : ℕ)
    → IsPlain text p k
    → IsPlain (copy (clear unset 0 50) 0 text p (suc k)) 0 k
copy-IsPlain unset text p k plain =
    let at = λ (i : ℕ) (le : i ≤ k). copy-at unset text p k i le in
    record {
      name = record {
        low = plain.name.low;
        high = plain.name.high;
        token = λ i lt. (
          λ z. (plain.name.token i lt).0 (sym (at i (omega arith)) ∙ z),
          λ z. (plain.name.token i lt).1 (sym (at i (omega arith)) ∙ z),
        );
        ends = at k (omega arith) ∙ plain.name.ends;
        not_up = λ two same. plain.name.not_up two λ i lt. same i lt ∙ at i (omega (arith, two));
      };
      no_dot = λ i lt z. plain.no_dot i lt (sym (at i (omega arith)) ∙ z);
    }

name_of-copy :
    (unset text : Bytes) (p k : ℕ)
    → name_of (copy (clear unset 0 50) 0 text p (suc k)) 0 k ≡ name_of text p k
name_of-copy unset text p k = fun_ext λ q. elim (dec_lt q k) [
  | yes lt ↦ rw (lt→ltb q k lt) (copy-at unset text p k q (omega arith))
  | no ge ↦ rw (le→ltb q k (omega arith)) refl
]

empty-IsString : (unset : Bytes) → IsString (clear unset 0 50) 0 0
unfolding clear
empty-IsString unset = record { ends = refl; no_zero = λ i lt. absurd (omega arith) }

pub copy_path-plain :
    (fuel : ℕ) (caller : Caller) (text : Bytes) (p k : ℕ)
    → IsBytes text
    → IsBytes caller.unset
    → IsPlain text p k
    → 129 < fuel
    → CopiesPlain fuel caller text p k
unfolding copy_path
copy_path-plain fuel caller text p k bytes other plain enough = record {
  full = copy (clear caller.unset 0 50) 0 text p (suc k);
  answer =
      strcpy-copy fuel (clear caller.unset 0 50) 0 text p 0 k bytes (empty-IsString caller.unset)
        (record { ends = plain.name.ends; no_zero = λ i lt. (plain.name.token i lt).0 })
        (omega arith) (omega (arith, plain.name.high));
  plain = copy-IsPlain caller.unset text p k plain;
  bytes = copy-IsBytes caller.unset text p (suc k) other bytes;
  request = λ c.
      ap
        (λ n. record {
          name = n;
          ext = zeros;
          parent_cluster_number = c;
          buffer_size = 8 * cluster_size;
        })
        (name_of-copy caller.unset text p k);
}

dot-IsString : IsString dot 0 1
dot-IsString = record { ends = refl; no_zero = no_zero }
  where
    no_zero : (i : ℕ) → i < 1 → dot (0 + i) ≢ 0
    no_zero zero lt e = absurd (omega arith)
    no_zero (suc i) lt e = absurd (omega arith)

-- The name is not ".".
pub strcmp-plain :
    (fuel : ℕ) (text : Bytes) (p k : ℕ)
    → IsPlain text p k
    → 129 < fuel
    → strcmp fuel text p dot 0 ≡ some false
strcmp-plain fuel text p k plain enough =
    let string : IsString text p k = record {
      ends = plain.name.ends;
      no_zero = λ i lt. (plain.name.token i lt).0;
    } in
    let both =
      strcmp-Same fuel text p dot 0 k 1 string dot-IsString (omega (arith, plain.name.high))
        (omega arith) in
    elim both.0 [
      | inl e ↦
          let (one, same) = both.1.0 e in
          absurd (plain.no_dot 0 (omega (arith, one)) (same 0 (omega (arith, one))))
      | inr e ↦ e
    ]

slash-IsSingle : IsSingle slash b'/'
slash-IsSingle = record { first = refl; second = refl; no_zero = omega arith }

strtok-null : (fuel : ℕ) (m delim : Bytes) → strtok fuel m none delim none ≡ some (none, (m, none))
unfolding strtok
strtok-null fuel m delim = refl

-- There is nothing to cut.
pub cut_text-plain :
    (fuel : ℕ) (caller : Caller) (text : Bytes) (p k : ℕ) (next : Option ℕ)
    → IsPlain text p k
    → 129 < fuel
    → cut_text fuel caller text p next ≡ some text
unfolding cut_text strparse parse_loop parse_round parse_token
cut_text-plain fuel caller text p k next plain enough =
    let short : k < 128 = omega (arith, plain.name.high) in
    let first : strtok fuel text (some p) slash next ≡ some (some p, (text, none)) =
      (strtok_lem fuel text slash p k b'/' next slash-IsSingle plain.name.token (omega arith)
        (inl plain.name.ends)).0
      ∙ rw (eq→== (text (p + k)) 0 plain.name.ends) refl in
    rw
      (
        first,
        strlen-IsString fuel text p k
            (record { ends = plain.name.ends; no_zero = λ i lt. (plain.name.token i lt).0 })
            (omega arith),
        strtok-null fuel text slash,
        le→ltb table_size (0 * row_length + k) (omega (arith, plain.name.high)),
      )
      refl
