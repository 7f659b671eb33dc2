-- ===== src/Str/Parse.antt =====
-- strparse of src/string.c: a text is cut into the rows of a table of 12 rows of 128 bytes.
pub mod Rows
use if2230_2023_oshiete.Common.{
  ℕ, zero, suc, ◌+◌, ◌*◌, Bytes, clear, ltb, ◌||◌, if◌then◌else◌, Option, none, some, ◌>>=◌,
}
use if2230_2023_oshiete.Str.{strlen, strncpy}
use if2230_2023_oshiete.Str.Token.{strtok}

abbrev pub row_length : ℕ
row_length = 128

-- The variables of the loop: the token in hand, the text, which strtok changes, the next_token that
-- strtok keeps, the table as `command[0][0]` on, and i.
pub record Parse : Type 0 where
  pub token : Option ℕ
  pub text : Bytes
  pub next : Option ℕ
  pub command : Bytes
  pub count : ℕ

-- The table of 12 rows ends before byte 1536.
abbrev pub table_size : ℕ
table_size = 12 * row_length

-- One round for the token at t. A row behind the table, or a copy that goes over its end, is memory
-- that is not known here: there is no result.
unfoldable pub parse_token : ℕ → Bytes → Parse → ℕ → Option Parse
parse_token fuel delim s t = do
  n ← strlen fuel s.text t
  cut ← strtok fuel s.text none delim s.next
  let copied : Parse = record {
    token = cut.0;
    text = cut.1.0;
    next = cut.1.1;
    command = strncpy s.command (s.count * row_length) s.text t n;
    count = s.count + 1;
  }
  if ltb 11 s.count || ltb table_size (s.count * row_length + n) then none else some copied

-- One round: without a token the loop ends.
unfoldable pub parse_round : ℕ → Bytes → (Parse → Option Parse) → Parse → Option ℕ → Option Parse
parse_round fuel delim rest s none = some s
parse_round fuel delim rest s (some t) = parse_token fuel delim s t >>= rest

-- `i < 128`: the rounds left.
unfoldable pub parse_loop : ℕ → ℕ → Bytes → Parse → Option Parse
parse_loop zero fuel delim s = some s
parse_loop (suc k) fuel delim s = parse_round fuel delim (parse_loop k fuel delim) s s.token

-- The table is cleared first; the answer is the count, with the table, the text and next_token.
unfoldable pub strparse : ℕ → Bytes → ℕ → Bytes → Bytes → Option ℕ → Option Parse
strparse fuel text str command delim next = do
  cut ← strtok fuel text (some str) delim next
  parse_loop 128 fuel delim (record {
    token = cut.0;
    text = cut.1.0;
    next = cut.1.1;
    command = clear command 0 (12 * row_length);
    count = 0;
  })
