-- ===== src/Str/Below.antt =====
-- strcpy (src/string.c) writes from its destination on.
use if2230_2023_oshiete.Common.{
  ℕ, zero, suc, ◌<◌, ◌≡◌, ◌∙◌, arith, Bytes, put8, ◌==◌, AllOf, AllOf-if, AllOf-then, Option, none,
  some,
}
use if2230_2023_oshiete.Str.{strlen, strcpy, strcpy_loop, strcpy_empty}

-- The second memory is the first below an address.
abbrev pub IsSameBelow : ℕ → Bytes → Bytes → Type 0
IsSameBelow dst m r = (q : ℕ) → q < dst → r q ≡ m q

put8-below : (m : Bytes) (dst v : ℕ) → IsSameBelow dst m (put8 m dst v)
unfolding put8
put8-below m dst v q lt = ground arith

strcpy_loop-below :
    (fuel : ℕ) (m : Bytes) (dst : ℕ) (m' : Bytes) (src : ℕ)
    → AllOf (IsSameBelow dst m) (strcpy_loop fuel m dst m' src)
unfolding strcpy_loop
strcpy_loop-below zero m dst m' src = tt
strcpy_loop-below (suc fuel) m dst m' src =
    AllOf-if (IsSameBelow dst m) (m' src == 0) _ _ (put8-below m dst 0) (
      wider (strcpy_loop fuel (put8 m dst (m' src)) (suc dst) m' (suc src))
        (strcpy_loop-below fuel (put8 m dst (m' src)) (suc dst) m' (suc src)))
  where
    wider :
        (o : Option Bytes)
        → AllOf (IsSameBelow (suc dst) (put8 m dst (m' src))) o
        → AllOf (IsSameBelow dst m) o
    wider none h = tt
    wider (some r) h = λ q lt. h q (omega arith) ∙ put8-below m dst (m' src) q lt

strcpy_empty-below : (m : Bytes) (dst n : ℕ) → IsSameBelow dst m (strcpy_empty m dst n)
unfolding strcpy_empty put8
strcpy_empty-below m dst n q lt = ground arith

pub strcpy-below :
    (fuel : ℕ) (m : Bytes) (dst : ℕ) (m' : Bytes) (src : ℕ)
    → AllOf (IsSameBelow dst m) (strcpy fuel m dst m' src)
unfolding strcpy
strcpy-below fuel m dst m' src = AllOf-then (IsSameBelow dst m) (strlen fuel m dst) _ λ n.
    after n (strcpy_loop fuel (strcpy_empty m dst n) dst m' src)
      (strcpy_loop-below fuel (strcpy_empty m dst n) dst m' src)
  where
    after :
        (n : ℕ) (o : Option Bytes)
        → AllOf (IsSameBelow dst (strcpy_empty m dst n)) o
        → AllOf (IsSameBelow dst m) o
    after n none h = tt
    after n (some r) h = λ q lt. h q lt ∙ strcpy_empty-below m dst n q lt
