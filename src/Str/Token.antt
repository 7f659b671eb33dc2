-- ===== src/Str/Token.antt =====
-- strtok of src/string.c, and what it cuts off.
use if2230_2023_oshiete.Common.{
  ℕ, zero, suc, ◌+◌, ◌<◌, ◌≡◌, ◌≢◌, refl, sym, ◌∙◌, subst, arith, Bytes, put8, Bool, true, false,
  ◌==◌, if◌then◌else◌, Option, none, some, ◌⊎◌, inl, inr, ◌>>=◌, eq→==, ne→==,
}

-- The inner loop: whether the byte is one of the delimiters from `d` on.
unfoldable pub is_delimiter : ℕ → Bytes → ℕ → ℕ → Option Bool
is_delimiter zero delim d c = none
is_delimiter (suc fuel) delim d c =
    let rest = is_delimiter fuel delim (suc d) c in
    if delim d == 0 then some false else (if c == delim d then some true else rest)

-- The outer loop: the address of the first delimiter from `p` on, or none at the end of the string.
unfoldable pub find_delimiter : ℕ → Bytes → Bytes → ℕ → Option (Option ℕ)
find_delimiter zero m delim p = none
find_delimiter (suc fuel) m delim p =
    let rest = find_delimiter fuel m delim (suc p) in
    let here = is_delimiter (suc fuel) delim 0 (m p) in
    if m p == 0 then some none else here >>= λ found. if found then some (some p) else rest

-- The answer, the memory, and `next_token`; a null pointer is none.
abbrev pub Token : Type 0
Token = Option ℕ × (Bytes × Option ℕ)

-- Where a delimiter is found, next_token is p + 1. As p is not before current_token, the two are
-- never equal, and the branch for that is never taken; at the end of the string current_token is
-- not null either.
unfoldable pub cut : Bytes → ℕ → Option ℕ → Token
cut m current none = (some current, (m, none))
cut m current (some p) = (some current, (put8 m p 0, some (p + 1)))

-- `str` goes before the `next_token` that is kept from the last call.
unfoldable pub strtok : ℕ → Bytes → Option ℕ → Bytes → Option ℕ → Option Token
strtok fuel m (some str) delim next = find_delimiter fuel m delim str >>= λ p. some (cut m str p)
strtok fuel m none delim none = some (none, (m, none))
strtok fuel m none delim (some t) = find_delimiter fuel m delim t >>= λ p. some (cut m t p)

-- From `t` on lie k bytes that are neither zero nor the delimiter c.
abbrev pub IsToken : Bytes → ℕ → ℕ → ℕ → Type 0
IsToken m t k c = (i : ℕ) → i < k → (m (t + i) ≢ 0) × (m (t + i) ≢ c)

-- The delimiter string of one byte.
pub record IsSingle (delim : Bytes) (c : ℕ) : Type 0 where
  pub first : delim 0 ≡ c
  pub second : delim 1 ≡ 0
  pub no_zero : c ≢ 0

is_delimiter-IsSingle :
    (fuel : ℕ) (delim : Bytes) (c x : ℕ)
    → IsSingle delim c
    → is_delimiter (suc (suc fuel)) delim 0 x ≡ some (x == c)
unfolding is_delimiter
is_delimiter-IsSingle fuel delim c x s =
    rw (s.first, s.second, ne→== c 0 s.no_zero) (answer (x == c))
  where
    answer : (b : Bool) → (if b then some true else some false) ≡ some b
    answer true = refl
    answer false = refl

find_delimiter-IsToken :
    (fuel : ℕ) (m delim : Bytes) (t k c : ℕ)
    → IsSingle delim c
    → IsToken m t k c
    → k + 1 < fuel
    → (m (t + k) ≡ 0) ⊎ (m (t + k) ≡ c)
    → find_delimiter fuel m delim t ≡ some (if m (t + k) == 0 then none else some (t + k))
unfolding find_delimiter
find_delimiter-IsToken zero m delim t k c s tok enough stop = absurd (omega arith)
find_delimiter-IsToken (suc zero) m delim t k c s tok enough stop = absurd (omega arith)
find_delimiter-IsToken (suc (suc fuel)) m delim t zero c s tok enough stop =
    let same : t + 0 ≡ t = omega arith in
    rw same (ends (subst (λ a. (m a ≡ 0) ⊎ (m a ≡ c)) same stop))
  where
    ends :
        (m t ≡ 0) ⊎ (m t ≡ c)
        → find_delimiter (suc (suc fuel)) m delim t ≡ some (if m t == 0 then none else some t)
    ends (inl z) = rw (eq→== (m t) 0 z)
    ends (inr h) = rw (
      ne→== (m t) 0 (λ z. s.no_zero (sym h ∙ z)),
      is_delimiter-IsSingle fuel delim c (m t) s,
      eq→== (m t) c h,
    )
find_delimiter-IsToken (suc (suc fuel)) m delim t (suc k) c s tok enough stop =
    let first : t + 0 ≡ t = omega arith in
    let (no_zero, no_c) = subst (λ a. (m a ≢ 0) × (m a ≢ c)) first (tok 0 (omega arith)) in
    let next : t + suc k ≡ suc t + k = omega arith in
    rw (ne→== (m t) 0 no_zero, is_delimiter-IsSingle fuel delim c (m t) s, ne→== (m t) c no_c, next)
      (find_delimiter-IsToken (suc fuel) m delim (suc t) k c s
        (λ i lt. subst (λ a. (m a ≢ 0) × (m a ≢ c)) (omega arith) (tok (suc i) (omega arith)))
        (omega arith) (subst (λ a. (m a ≡ 0) ⊎ (m a ≡ c)) next stop))

-- With one delimiter c, and fuel for k + 2 rounds: where k bytes other than zero and c are followed
-- by a zero or by c, strtok answers their address; a c that ends them becomes zero and the next call
-- goes on behind it, and behind a zero there is no next. A call with a null pointer does on the
-- address kept what a call with that address does.
pub strtok_lem :
    (fuel : ℕ) (m delim : Bytes) (t k c : ℕ) (kept : Option ℕ)
    → IsSingle delim c
    → IsToken m t k c
    → k + 1 < fuel
    → (m (t + k) ≡ 0) ⊎ (m (t + k) ≡ c)
    → (strtok fuel m (some t) delim kept
        ≡ some (
            if m (t + k) == 0
            then (some t, (m, none))
            else (some t, (put8 m (t + k) 0, some (t + k + 1)))))
      × (strtok fuel m none delim (some t) ≡ strtok fuel m (some t) delim kept)
unfolding strtok cut
strtok_lem fuel m delim t k c kept s tok enough stop =
    (rw (find_delimiter-IsToken fuel m delim t k c s tok enough stop) (both (m (t + k) == 0)), refl)
  where
    both :
        (b : Bool)
        → some (cut m t (if b then none else some (t + k)))
          ≡ some (if b then (some t, (m, none)) else (some t, (put8 m (t + k) 0, some (t + k + 1))))
    both true = refl
    both false = refl
