-- ===== src/Str/Laws.antt =====
-- The routines of src/string.c against strings as sequences of bytes other than zero.
use if2230_2023_oshiete.Common.{
  ℕ, zero, suc, ◌+◌, ◌-◌, leb, ◌&&◌, ◌<◌, ◌≤◌, ◌≡◌, ◌≢◌, refl, ◌∙◌, ap, subst, arith, Bytes, put8,
  copy, IsBytes, fun_ext, Bool-cases, true, false, ltb, if◌then◌else◌, some, eq→==, ne→==, ◌↔◌, ◌⊎◌,
  inl, inr,
}
use native.Mathlib.Decide.{ℕ_discrete}
use if2230_2023_oshiete.Str.{
  strlen, strcmp, strcpy, strncpy, strcat, strlen_loop, strcmp_loop, strcpy_loop, strcpy_empty,
  strncpy_loop, strncpy_fill,
}

-- At the address lies a string of n bytes other than zero, and a zero.
pub record IsString (m : Bytes) (str n : ℕ) : Type 0 where
  pub ends : m (str + n) ≡ 0
  pub no_zero : (i : ℕ) → i < n → m (str + i) ≢ 0

strlen_loop_lem :
    (fuel : ℕ) (m : Bytes) (str n cnt : ℕ)
    → IsString m str n
    → cnt ≤ n
    → n < fuel + cnt
    → strlen_loop fuel m str cnt ≡ some n
unfolding strlen_loop
strlen_loop_lem zero m str n cnt s lo hi = ground arith
strlen_loop_lem (suc fuel) m str n cnt s lo hi = elim (ℕ_discrete cnt n) [
  | yes e ↦ rw (e, s.ends)
  | no ne ↦
      rw (ne→== (m (str + cnt)) 0 (s.no_zero cnt (omega arith)))
        (strlen_loop_lem fuel m str n (suc cnt) s (omega arith) (omega arith))
]

pub strlen-IsString :
    (fuel : ℕ) (m : Bytes) (str n : ℕ) → IsString m str n → n < fuel → strlen fuel m str ≡ some n
unfolding strlen
strlen-IsString fuel m str n s h = strlen_loop_lem fuel m str n 0 s (omega arith) (omega arith)

-- The n bytes at the two addresses are the same.
abbrev pub Same : Bytes → ℕ → Bytes → ℕ → ℕ → Type 0
Same m str1 m' str2 n = (i : ℕ) → i < n → m (str1 + i) ≡ m' (str2 + i)

strcmp_loop-true :
    (m : Bytes) (str1 : ℕ) (m' : Bytes) (str2 k i : ℕ)
    → strcmp_loop m str1 m' str2 k i ≡ true
    → (j : ℕ) → i ≤ j
    → j < i + k
    → m (str1 + j) ≡ m' (str2 + j)
unfolding strcmp_loop
strcmp_loop-true m str1 m' str2 zero i e j lo hi = ground arith
strcmp_loop-true m str1 m' str2 (suc k) i e j lo hi =
    elim (ℕ_discrete (m (str1 + i)) (m' (str2 + i))) [
      | yes eq ↦ elim (ℕ_discrete i j) [
        | yes here ↦ subst (λ x. m (str1 + x) ≡ m' (str2 + x)) here eq
        | no ne ↦
            strcmp_loop-true m str1 m' str2 k (suc i)
              (rw (eq→== (m (str1 + i)) (m' (str2 + i)) eq) at e) j (omega arith) (omega arith)
      ]
      | no differ ↦ ground arith
    ]

strcmp_loop-Same :
    (m : Bytes) (str1 : ℕ) (m' : Bytes) (str2 k i : ℕ)
    → ((j : ℕ) → i ≤ j → j < i + k → m (str1 + j) ≡ m' (str2 + j))
    → strcmp_loop m str1 m' str2 k i ≡ true
unfolding strcmp_loop
strcmp_loop-Same m str1 m' str2 zero i h = refl
strcmp_loop-Same m str1 m' str2 (suc k) i h =
    rw (eq→== (m (str1 + i)) (m' (str2 + i)) (h i (omega arith) (omega arith)))
      (strcmp_loop-Same m str1 m' str2 k (suc i) (λ j lo hi. h j (omega arith) (omega arith)))

-- On two strings, with fuel above their lengths, strcmp answers, and it answers TRUE exactly when
-- they have the same length and the same bytes.
pub strcmp-Same :
    (fuel : ℕ) (m : Bytes) (str1 : ℕ) (m' : Bytes) (str2 n1 n2 : ℕ)
    → IsString m str1 n1
    → IsString m' str2 n2
    → n1 < fuel
    → n2 < fuel
    → ((strcmp fuel m str1 m' str2 ≡ some true) ⊎ (strcmp fuel m str1 m' str2 ≡ some false))
      × ((strcmp fuel m str1 m' str2 ≡ some true) ↔ ((n1 ≡ n2) × Same m str1 m' str2 n1))
unfolding strcmp
strcmp-Same fuel m str1 m' str2 n1 n2 s1 s2 h1 h2 =
    rw (strlen-IsString fuel m str1 n1 s1 h1, strlen-IsString fuel m' str2 n2 s2 h2)
      (elim (ℕ_discrete n1 n2) [
        | yes e ↦ rw (eq→== n1 n2 e) (same e)
        | no ne ↦ rw (ne→== n1 n2 ne) (inr refl, (λ e. ground arith, λ h. absurd (ne h.0)))
      ])
  where
    same :
        n1 ≡ n2
        → ((some (strcmp_loop m str1 m' str2 n1 0) ≡ some true)
            ⊎ (some (strcmp_loop m str1 m' str2 n1 0) ≡ some false))
          × ((some (strcmp_loop m str1 m' str2 n1 0) ≡ some true)
              ↔ ((n1 ≡ n2) × Same m str1 m' str2 n1))
    same e = (
      elim (Bool-cases (strcmp_loop m str1 m' str2 n1 0)) [
        | inl e ↦ inl (ap some e)
        | inr e ↦ inr (ap some e)
      ],
      (
        λ h. (
          e,
          λ i lt. strcmp_loop-true m str1 m' str2 n1 0 (ground arith) i (omega arith) (omega arith),
        ),
        λ h. ap some (strcmp_loop-Same m str1 m' str2 n1 0 (λ j lo hi. h.1 j (omega arith))),
      ),
    )

IsString-suc : (m : Bytes) (str n : ℕ) → IsString m str (suc n) → IsString m (suc str) n
IsString-suc m str n s = record {
  ends = subst (λ a. m a ≡ 0) (omega arith) s.ends;
  no_zero = λ i lt. subst (λ a. m a ≢ 0) (omega arith) (s.no_zero (suc i) (omega arith));
}

strcpy_loop-copy :
    (fuel : ℕ) (m : Bytes) (dst : ℕ) (m' : Bytes) (src n : ℕ)
    → IsBytes m'
    → IsString m' src n
    → n < fuel
    → strcpy_loop fuel m dst m' src ≡ some (copy m dst m' src (suc n))
unfolding strcpy_loop copy put8
strcpy_loop-copy zero m dst m' src n bytes s h = absurd (omega arith)
strcpy_loop-copy (suc fuel) m dst m' src zero bytes s h =
    rw (eq→== (m' src) 0 (subst (λ a. m' a ≡ 0) (omega arith) s.ends))
      (ap some (fun_ext λ q. ground (arith, bytes src)))
strcpy_loop-copy (suc fuel) m dst m' src (suc n) bytes s h =
    rw (ne→== (m' src) 0 (subst (λ a. m' a ≢ 0) (omega arith) (s.no_zero 0 (omega arith)))) (
      strcpy_loop-copy fuel (put8 m dst (m' src)) (suc dst) m' (suc src) n bytes
        (IsString-suc m' src n s) (omega arith)
      ∙ ap some (fun_ext λ q. ground (arith, bytes src)))

-- Over a string, with fuel above the two lengths, strcpy answers: the source's bytes up to its zero
-- stand at the destination, and no other byte is changed.
pub strcpy-copy :
    (fuel : ℕ) (m : Bytes) (dst : ℕ) (m' : Bytes) (src k n : ℕ)
    → IsBytes m'
    → IsString m dst k
    → IsString m' src n
    → k < fuel
    → n < fuel
    → strcpy fuel m dst m' src ≡ some (copy m dst m' src (suc n))
unfolding strcpy strcpy_empty copy put8
strcpy-copy fuel m dst m' src k n bytes sd ss hk hn = rw (strlen-IsString fuel m dst k sd hk) (
    strcpy_loop-copy fuel (strcpy_empty m dst k) dst m' src n bytes ss hn
    ∙ ap some (fun_ext λ q. ground arith))

-- With fuel above the two lengths, strcat answers: the destination's bytes are followed by the
-- source's up to its zero, and no other byte is changed.
pub strcat-copy :
    (fuel : ℕ) (m : Bytes) (dest : ℕ) (m' : Bytes) (src k n : ℕ)
    → IsBytes m'
    → IsString m dest k
    → IsString m' src n
    → k < fuel
    → n < fuel
    → strcat fuel m dest m' src ≡ some (copy m (dest + k) m' src (suc n))
unfolding strcat
strcat-copy fuel m dest m' src k n bytes sd ss hk hn =
    rw (strlen-IsString fuel m dest k sd hk)
      (strcpy_loop-copy fuel m (dest + k) m' src n bytes ss hn)

strncpy_fill_lem :
    (m : Bytes) (dest n q : ℕ)
    → strncpy_fill m dest n q ≡ (if leb dest q && ltb q (dest + n) then 0 else m q)
unfolding strncpy_fill put8
strncpy_fill_lem m dest zero q = ground arith
strncpy_fill_lem m dest (suc n) q = ground (arith, strncpy_fill_lem (put8 m dest 0) (suc dest) n q)

strncpy_loop_lem :
    (m : Bytes) (dest : ℕ) (m' : Bytes) (src n k q : ℕ)
    → IsBytes m'
    → IsString m' src k
    → strncpy_loop m dest m' src n q ≡ (
        if leb dest q && ltb q (dest + n)
        then (if ltb (q - dest) k then m' (src + (q - dest)) else 0)
        else m q)
unfolding strncpy_loop put8
strncpy_loop_lem m dest m' src zero k q bytes s = ground arith
strncpy_loop_lem m dest m' src (suc n) zero q bytes s =
    rw (eq→== (m' src) 0 (subst (λ a. m' a ≡ 0) (omega arith) s.ends))
      (strncpy_fill_lem m dest (suc n) q ∙ ground arith)
strncpy_loop_lem m dest m' src (suc n) (suc k) q bytes s =
    rw (ne→== (m' src) 0 (subst (λ a. m' a ≢ 0) (omega arith) (s.no_zero 0 (omega arith)))) (
      strncpy_loop_lem (put8 m dest (m' src)) (suc dest) m' (suc src) n k q bytes
        (IsString-suc m' src k s)
      ∙ ground (arith, bytes src))

-- Of a string of k bytes, strncpy writes exactly n bytes at the destination: the first bytes of the
-- string, then zeros; where k is n or more, no zero ends them.
pub strncpy_lem :
    (m : Bytes) (dest : ℕ) (m' : Bytes) (src n k q : ℕ)
    → IsBytes m'
    → IsString m' src k
    → strncpy m dest m' src n q ≡ (
        if leb dest q && ltb q (dest + n)
        then (if ltb (q - dest) k then m' (src + (q - dest)) else 0)
        else m q)
unfolding strncpy
strncpy_lem m dest m' src n k q bytes s = strncpy_loop_lem m dest m' src n k q bytes s
