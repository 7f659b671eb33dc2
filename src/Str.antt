-- ===== src/Str.antt =====
-- src/string.c: the routines on strings that end in a zero byte. A pointer is a memory and an
-- address in it; a loop that looks for the zero has fuel, and `none` says that the fuel ran out.
pub mod Below
pub mod Laws
pub mod Token
pub mod Parse
mod Tests
use if2230_2023_oshiete.Common.{
  ℕ, zero, suc, ◌+◌, ◌^◌, ◌%◌, Bytes, put8, Bool, true, false, not, ◌==◌, ltb, if◌then◌else◌,
  Option, none, some, ◌>>=◌,
}

-- `cnt` is an int, and the result a size_t: below 2 ^ 31 they are the same number.
strlen_loop : ℕ → Bytes → ℕ → ℕ → Option ℕ
strlen_loop zero m str cnt = none
strlen_loop (suc fuel) m str cnt =
    let rest = strlen_loop fuel m str (suc cnt) in if m (str + cnt) == 0 then some cnt else rest

unfoldable pub strlen : ℕ → Bytes → ℕ → Option ℕ
unfolding strlen_loop
strlen fuel m str = strlen_loop fuel m str 0

-- TRUE where the first k bytes from i on agree.
strcmp_loop : Bytes → ℕ → Bytes → ℕ → ℕ → ℕ → Bool
strcmp_loop m str1 m' str2 zero i = true
strcmp_loop m str1 m' str2 (suc k) i =
    let rest = strcmp_loop m str1 m' str2 k (suc i) in
    if m (str1 + i) == m' (str2 + i) then rest else false

-- The condition of the for loop measures str1 again in every round; the loop does not write.
unfoldable pub strcmp : ℕ → Bytes → ℕ → Bytes → ℕ → Option Bool
unfolding strcmp_loop
strcmp fuel m str1 m' str2 = do
  n1 ← strlen fuel m str1
  n2 ← strlen fuel m' str2
  some (if n1 == n2 then strcmp_loop m str1 m' str2 n1 0 else false)

-- Emptying: as the first byte becomes 0, strlen(dst) is 0 from the second round on.
strcpy_empty : Bytes → ℕ → ℕ → Bytes
strcpy_empty m dst n = if ltb 0 n then put8 m dst 0 else m

strcpy_loop : ℕ → Bytes → ℕ → Bytes → ℕ → Option Bytes
strcpy_loop zero m dst m' src = none
strcpy_loop (suc fuel) m dst m' src =
    let rest = strcpy_loop fuel (put8 m dst (m' src)) (suc dst) m' (suc src) in
    if m' src == 0 then some (put8 m dst 0) else rest

-- The source stands in a memory of its own: the strings do not overlap.
unfoldable pub strcpy : ℕ → Bytes → ℕ → Bytes → ℕ → Option Bytes
unfolding strcpy_empty strcpy_loop put8
strcpy fuel m dst m' src = do
  n ← strlen fuel m dst
  strcpy_loop fuel (strcpy_empty m dst n) dst m' src

-- The first loop copies until the zero, the second fills with zeros; the rounds left are common.
strncpy_fill : Bytes → ℕ → ℕ → Bytes
strncpy_fill m dest zero = m
strncpy_fill m dest (suc n) = strncpy_fill (put8 m dest 0) (suc dest) n

strncpy_loop : Bytes → ℕ → Bytes → ℕ → ℕ → Bytes
strncpy_loop m dest m' src zero = m
strncpy_loop m dest m' src (suc n) =
    let rest = strncpy_loop (put8 m dest (m' src)) (suc dest) m' (suc src) n in
    let filled = strncpy_fill m dest (suc n) in if m' src == 0 then filled else rest

unfoldable pub strncpy : Bytes → ℕ → Bytes → ℕ → ℕ → Bytes
unfolding strncpy_loop strncpy_fill put8
strncpy m dest m' src n = strncpy_loop m dest m' src n

-- dest[dest_len + i] = src[i], up to the zero, which is written too.
unfoldable pub strcat : ℕ → Bytes → ℕ → Bytes → ℕ → Option Bytes
unfolding strcpy_loop put8
strcat fuel m dest m' src = do n ← strlen fuel m dest; strcpy_loop fuel m (dest + n) m' src
