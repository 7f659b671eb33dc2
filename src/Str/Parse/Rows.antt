-- ===== src/Str/Parse/Rows.antt =====
-- What strparse (src/string.c) makes of a text: the rows are the pieces between the delimiters.
use if2230_2023_oshiete.Common.{
  length, ℕ, zero, suc, ◌+◌, ◌-◌, ◌*◌, ◌≤◌, ◌<◌, ◌≡◌, ◌≢◌, refl, sym, subst, ◌∙◌, arith, Bytes,
  IsBytes, put8, clear, List, [], ◌∷◌, Option, none, some, ltb, if◌then◌else◌, inl, inr, eq→==,
  ne→==, le→ltb,
}
use native.Mathlib.Decide.{dec_lt}
use if2230_2023_oshiete.Str.{strncpy}
use if2230_2023_oshiete.Str.Laws.{IsString, strlen-IsString, strncpy_lem}
use if2230_2023_oshiete.Str.Token.{strtok, strtok_lem, IsToken, IsSingle}
use if2230_2023_oshiete.Str.Parse.{
  Parse, row_length, table_size, parse_token, parse_loop, parse_round, strparse,
}

-- From t on lie pieces of the given lengths, each below 128, with a delimiter c between two, and a
-- zero behind the last.
pub data IsPath (m : Bytes) (c : ℕ) : ℕ → List ℕ → Type 0 where
  final : {t k : ℕ} → k < 128 → IsToken m t k c → m (t + k) ≡ 0 → IsPath m c t (k ∷ [])
  split :
      {t k : ℕ} {ks : List ℕ}
      → k < 128
      → IsToken m t k c
      → m (t + k) ≡ c
      → IsPath m c (t + k + 1) ks
      → IsPath m c t (k ∷ ks)

put8-above : (m : Bytes) (p v q : ℕ) → p < q → put8 m p v q ≡ m q
unfolding put8
put8-above m p v q lt = ground arith

IsToken-put8 : (m : Bytes) (t k c p : ℕ) → p < t → IsToken m t k c → IsToken (put8 m p 0) t k c
IsToken-put8 m t k c p lt tok i h = rw (put8-above m p 0 (t + i) (omega arith)) (tok i h)

-- A cut before the rest of a text leaves that rest as it is.
IsPath-put8 :
    {m : Bytes} {c t : ℕ} {ks : List ℕ} (p : ℕ)
    → p < t
    → IsPath m c t ks
    → IsPath (put8 m p 0) c t ks
IsPath-put8 {m} p lt (final {t} {k} short tok e) =
    final short (IsToken-put8 m t k _ p lt tok) (put8-above m p 0 (t + k) (omega arith) ∙ e)
IsPath-put8 {m} p lt (split {t} {k} short tok e rest) =
    split short (IsToken-put8 m t k _ p lt tok) (put8-above m p 0 (t + k) (omega arith) ∙ e)
      (IsPath-put8 p (omega arith) rest)

-- What strtok keeps: nothing behind the last piece, and the next piece otherwise.
abbrev pub After : Bytes → ℕ → Option ℕ → ℕ → List ℕ → Type 0
After m c next e [] = next ≡ none
After m c next e (k ∷ ks) = (next ≡ some e) × IsPath m c e (k ∷ ks)

IsPath-After : {m : Bytes} {c e : ℕ} {ks : List ℕ} → IsPath m c e ks → After m c (some e) e ks
IsPath-After (final short tok end) = (refl, final short tok end)
IsPath-After (split short tok end rest) = (refl, split short tok end rest)

-- A call of strtok on a text cuts off its first piece.
pub record HasCut (fuel : ℕ) (m delim : Bytes) (kept : Option ℕ) (c t k : ℕ) (ks : List ℕ)
    : Type 0 where
  pub text : Bytes
  pub next : Option ℕ
  pub answer : strtok fuel m (some t) delim kept ≡ some (some t, (text, next))
  pub piece : IsString text t k
  pub rest : After text c next (t + k + 1) ks
  pub same : (q : ℕ) → q ≢ t + k → text q ≡ m q
  pub short : k < 128
  pub bytes : IsBytes m → IsBytes text

-- Row i of the table and those behind it hold the pieces from t on, with zeros behind each.
abbrev pub AreRows : Bytes → ℕ → Bytes → ℕ → List ℕ → Type 0
AreRows command i m t [] = Unit
AreRows command i m t (k ∷ ks) =
    ((q : ℕ) → q < row_length → command (i * row_length + q) ≡ (if ltb q k then m (t + q) else 0))
    × AreRows command (i + 1) m (t + k + 1) ks

module _ (fuel : ℕ) (delim : Bytes) (c : ℕ) (single : IsSingle delim c) (enough : 129 < fuel) where
  piece_of : (m : Bytes) (t k : ℕ) → IsToken m t k c → m (t + k) ≡ 0 → IsString m t k
  piece_of m t k tok e = record { ends = e; no_zero = λ i lt. (tok i lt).0 }

  pub cut_first :
      {m : Bytes} {t k : ℕ} {ks : List ℕ} (kept : Option ℕ)
      → IsPath m c t (k ∷ ks)
      → HasCut fuel m delim kept c t k ks
  unfolding put8
  cut_first {m} kept (final {t} {k} short tok e) = record {
    text = m;
    next = none;
    answer =
        (strtok_lem fuel m delim t k c kept single tok (omega arith) (inl e)).0
        ∙ rw (eq→== (m (t + k)) 0 e);
    piece = piece_of m t k tok e;
    rest = refl;
    same = λ q ne. refl;
    short = short;
    bytes = λ b. b;
  }
  cut_first {m} kept (split {t} {k} short tok e rest) = record {
    text = put8 m (t + k) 0;
    next = some (t + k + 1);
    answer =
        (strtok_lem fuel m delim t k c kept single tok (omega arith) (inr e)).0
        ∙ rw (ne→== (m (t + k)) 0 (λ z. single.no_zero (sym e ∙ z)));
    piece = record {
      ends = ground arith;
      no_zero = λ i lt. rw (ne→== (t + i) (t + k) (omega arith)) ((tok i lt).0);
    };
    rest = IsPath-After (IsPath-put8 (t + k) (omega arith) rest);
    same = λ q ne. rw (ne→== q (t + k) ne);
    short = short;
    bytes = λ b q. ground (arith, b q);
  }

-- The rows do not depend on the delimiters, nor on what lies before t.
AreRows-agree :
    (command : Bytes) (i : ℕ) (m w : Bytes) (t : ℕ) (ks : List ℕ)
    → ((q : ℕ) → t ≤ q → w q ≡ m q)
    → AreRows command i w t ks
    → AreRows command i m t ks
AreRows-agree command i m w t [] same rows = rows
AreRows-agree command i m w t (k ∷ ks) same rows = (
  λ q lt. rw (sym (same (t + q) (omega arith))) (rows.0 q lt),
  AreRows-agree command (i + 1) m w (t + k + 1) ks (λ q le. same q (omega arith)) rows.1,
)

first-agree :
    (command : Bytes) (i : ℕ) (m w : Bytes) (t k : ℕ) (ks : List ℕ)
    → ((q : ℕ) → q ≢ t + k → w q ≡ m q)
    → AreRows command i w t (k ∷ ks)
    → AreRows command i m t (k ∷ ks)
first-agree command i m w t k ks same rows = (
  λ q lt. elim (dec_lt q k) [
    | yes below ↦ rw (sym (same (t + q) (λ e. absurd (omega arith)))) (rows.0 q lt)
    | no above ↦ rows.0 q lt ∙ rw (le→ltb q k (omega arith))
  ],
  AreRows-agree command (i + 1) m w (t + k + 1) ks (λ q le. same q (λ e. absurd (omega arith)))
      rows.1,
)

-- Zeros from row i on, to the end of the table of 12 rows.
abbrev IsBlank : Bytes → ℕ → Type 0
IsBlank command i = (q : ℕ) → i * row_length ≤ q → q < 1536 → command q ≡ 0

-- A piece copied into row i: the rows before and behind are as they were.
record HasRow (command w : Bytes) (i : ℕ) (text : Bytes) (t k : ℕ) : Type 0 where
  row : (q : ℕ) → q < row_length → w (i * row_length + q) ≡ (if ltb q k then text (t + q) else 0)
  before : (q : ℕ) → q < i * row_length → w q ≡ command q
  blank : IsBlank w (i + 1)

put_row :
    (command : Bytes) (i : ℕ) (text : Bytes) (t k : ℕ)
    → IsBytes text
    → IsString text t k
    → k < 128
    → i < 12
    → IsBlank command i
    → HasRow command (strncpy command (i * row_length) text t k) i text t k
put_row command i text t k bytes piece short room blank = record {
  row = λ q lt.
      strncpy_lem command (i * row_length) text t k k (i * row_length + q) bytes piece
      ∙ (let e : i * row_length + q - i * row_length ≡ q = omega arith in
          ground (arith, blank (i * row_length + q) (omega arith) (omega arith)));
  before = λ q lt. strncpy_lem command (i * row_length) text t k k q bytes piece ∙ ground arith;
  blank = λ q lo hi.
      strncpy_lem command (i * row_length) text t k k q bytes piece
      ∙ ground (arith, blank q (omega arith) hi);
}

module _ (fuel : ℕ) (delim : Bytes) (c : ℕ) (single : IsSingle delim c) (enough : 129 < fuel) where
  -- What the loop makes of the piece in hand, at t, and those behind it.
  record HasParsed (n : ℕ) (s : Parse) (t k : ℕ) (ks : List ℕ) : Type 0 where
    done : Parse
    answer : parse_loop n fuel delim s ≡ some done
    count : done.count ≡ s.count + suc (length ks)
    rows : AreRows done.command s.count s.text t (k ∷ ks)
    before : (q : ℕ) → q < s.count * row_length → done.command q ≡ s.command q

  abbrev state : Option ℕ → Bytes → Option ℕ → Bytes → ℕ → Parse
  state token text next command count = record {
    token = token;
    text = text;
    next = next;
    command = command;
    count = count;
  }

  parse_loop-end :
      (n : ℕ) (text : Bytes) (next : Option ℕ) (command : Bytes) (count : ℕ)
      → parse_loop n fuel delim (state none text next command count)
        ≡ some (state none text next command count)
  unfolding parse_loop parse_round
  parse_loop-end zero text next command count = refl
  parse_loop-end (suc n) text next command count = refl

  -- The last piece.
  parsed_last :
      (n t k : ℕ) (text command : Bytes) (count : ℕ)
      → count < 12
      → IsBytes text
      → IsString text t k
      → k < 128
      → IsBlank command count
      → HasParsed (suc n) (state (some t) text none command count) t k []
  unfolding parse_loop parse_round parse_token strtok
  parsed_last n t k text command count room bytes piece short blank =
      let put = put_row command count text t k bytes piece short room blank in
      record {
        done = state none text none (strncpy command (count * row_length) text t k) (count + 1);
        answer =
            rw
              (
                strlen-IsString fuel text t k piece (omega arith),
                le→ltb 11 count (omega arith),
                le→ltb table_size (count * row_length + k) (omega arith),
              )
              (parse_loop-end n text none (strncpy command (count * row_length) text t k)
                (count + 1));
        count = refl;
        rows = (put.row, _);
        before = put.before;
      }

  parsed :
      (n t k : ℕ) (ks : List ℕ) (text : Bytes) (next : Option ℕ) (command : Bytes) (count : ℕ)
      → length ks < n
      → count + length ks < 12
      → IsBytes text
      → IsString text t k
      → k < 128
      → After text c next (t + k + 1) ks
      → IsBlank command count
      → HasParsed n (state (some t) text next command count) t k ks
  unfolding parse_loop parse_round parse_token strtok
  parsed zero t k ks text next command count rounds room bytes piece short rest blank =
      absurd (omega arith)
  parsed (suc n) t k [] text next command count rounds room bytes piece short rest blank =
      subst (λ x. HasParsed (suc n) (state (some t) text x command count) t k []) (sym rest)
        (parsed_last n t k text command count (omega arith) bytes piece short blank)
  parsed (suc n) t k (j ∷ ks) text next command count rounds room bytes piece short rest blank =
      let put = put_row command count text t k bytes piece short (omega arith) blank in
      let cut = cut_first fuel delim c single enough none rest.1 in
      let w = strncpy command (count * row_length) text t k in
      let more =
        parsed n (t + k + 1) j ks cut.text cut.next w (count + 1) (omega arith) (omega arith)
          (cut.bytes bytes) cut.piece cut.short cut.rest
          (λ q lo hi. put.blank q (omega arith) hi) in
      subst (λ x. HasParsed (suc n) (state (some t) text x command count) t k (j ∷ ks)) (sym rest.0)
        (record {
          done = more.done;
          answer =
              rw
                (
                  strlen-IsString fuel text t k piece (omega arith),
                  cut.answer,
                  le→ltb 11 count (omega arith),
                  le→ltb table_size (count * row_length + k) (omega arith),
                )
                more.answer;
          count = more.count ∙ omega arith;
          rows = (
            λ q lt. more.before (count * row_length + q) (omega arith) ∙ put.row q lt,
            first-agree more.done.command (count + 1) text cut.text (t + k + 1) j ks cut.same
                more.rows,
          );
          before = λ q lt. more.before q (omega arith) ∙ put.before q lt;
        })

-- The text from str on consists of at most 12 pieces, each of fewer than 128 bytes that are neither
-- zero nor the delimiter c, with one c between two and a zero behind the last. With fuel for 128
-- bytes and more, strparse answers their number, and row i of the table holds piece i, with zeros
-- up to the end of the row.
pub strparse-AreRows :
    (fuel : ℕ) (text : Bytes) (str : ℕ) (command delim : Bytes) (next : Option ℕ) (c k : ℕ)
    (ks : List ℕ)
    → IsSingle delim c
    → 129 < fuel
    → IsBytes text
    → IsPath text c str (k ∷ ks)
    → length ks < 12
    → (s : Parse) × ((strparse fuel text str command delim next ≡ some s)
        × ((s.count ≡ length (k ∷ ks)) × AreRows s.command 0 text str (k ∷ ks)))
unfolding strparse clear
strparse-AreRows fuel text str command delim next c k ks single enough bytes path few =
    let cut = cut_first fuel delim c single enough next path in
    let got =
      parsed fuel delim c single enough 128 str k ks cut.text cut.next (clear command 0 1536) 0
        (omega arith) (omega arith) (cut.bytes bytes) cut.piece cut.short cut.rest
        (λ q lo hi. ground arith) in
    (
      got.done,
      (
        rw cut.answer got.answer,
        (
          got.count ∙ omega arith,
          first-agree got.done.command 0 text cut.text str k ks cut.same got.rows,
        ),
      ),
    )
