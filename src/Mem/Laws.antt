-- ===== src/Mem/Laws.antt =====
-- What the loops of src/stdmem.c compute.
use native.Mathlib.Decide.{dec_lt}
use if2230_2023_oshiete.Common.{
  ℕ, zero, suc, ◌+◌, ◌-◌, ◌%◌, ◌≤◌, ◌<◌, ◌≡◌, refl, ◌↔◌, ◌&&◌, fun_ext, arith, Bytes, IsBytes, put8,
  copy, ltb, leb, if◌then◌else◌,
}
use if2230_2023_oshiete.Mem.{
  memset_loop, memset, memcpy_loop, memcpy, memcmp_loop, memcmp, move_up, move_down, memmove,
}

memset_loop_lem :
    (m : Bytes) (s c k i q : ℕ)
    → memset_loop m s c k i q ≡ (if leb (s + i) q && ltb q (s + i + k) then c % 256 else m q)
unfolding memset_loop put8
memset_loop_lem m s c zero i q = ground arith
memset_loop_lem m s c (suc k) i q =
    ground (arith, memset_loop_lem (put8 m (s + i) c) s c k (suc i) q)

memcpy_loop_lem :
    (m : Bytes) (d : ℕ) (src : Bytes) (s k i q : ℕ)
    → memcpy_loop m d src s k i q
      ≡ (if leb (d + i) q && ltb q (d + i + k) then src (s + (q - d)) % 256 else m q)
unfolding memcpy_loop put8
memcpy_loop_lem m d src s zero i q = ground arith
memcpy_loop_lem m d src s (suc k) i q =
    ground (arith, memcpy_loop_lem (put8 m (d + i) (src (s + i))) d src s k (suc i) q)

-- memcpy lays the low bytes of the source on the range, and writes nowhere else.
pub memcpy_lem :
    (m : Bytes) (d : ℕ) (src : Bytes) (s n q : ℕ)
    → memcpy m d src s n q ≡ (if leb d q && ltb q (d + n) then src (s + (q - d)) % 256 else m q)
unfolding memcpy
memcpy_lem m d src s n q = ground (arith, memcpy_loop_lem m d src s n 0 q)

-- memcpy of bytes is the copy of the range.
pub memcpy-copy :
    (m : Bytes) (d : ℕ) (src : Bytes) (s n : ℕ)
    → IsBytes src
    → memcpy m d src s n ≡ copy m d src s n
unfolding memcpy copy
memcpy-copy m d src s n h =
    fun_ext λ q. ground (arith, memcpy_loop_lem m d src s n 0 q, h (s + (q - d)))

-- Below the destination memcpy writes nothing, whatever it copies.
pub memcpy-below :
    (m : Bytes) (d : ℕ) (src : Bytes) (s n q : ℕ) → q < d → memcpy m d src s n q ≡ m q
unfolding memcpy
memcpy-below m d src s n q h = ground (arith, memcpy_loop_lem m d src s n 0 q)

move_up_lem :
    (m : Bytes) (d s k i q : ℕ)
    → d < s
    → move_up m d s k i q
      ≡ (if leb (d + i) q && ltb q (d + i + k) then m (s + (q - d)) % 256 else m q)
unfolding move_up put8
move_up_lem m d s zero i q h = ground arith
move_up_lem m d s (suc k) i q h =
    ground (arith, move_up_lem (put8 m (d + i) (m (s + i))) d s k (suc i) q h)

move_down_lem :
    (m : Bytes) (d s k q : ℕ)
    → s ≤ d
    → move_down m d s k q ≡ (if leb d q && ltb q (d + k) then m (s + (q - d)) % 256 else m q)
unfolding move_down put8
move_down_lem m d s zero q h = ground arith
move_down_lem m d s (suc k) q h =
    ground (arith, move_down_lem (put8 m (d + k) (m (s + k))) d s k q h)

-- memmove copies the range as it was before the call, also where the two ranges overlap, and
-- writes nowhere else.
pub memmove-copy : (m : Bytes) (d s n : ℕ) → IsBytes m → memmove m d s n ≡ copy m d m s n
unfolding memmove copy
memmove-copy m d s n h = fun_ext λ q. elim (dec_lt d s) [
  | yes p ↦ ground (arith, move_up_lem m d s n 0 q p, h (s + (q - d)))
  | no p ↦ ground (arith, move_down_lem m d s n q (omega arith), h (s + (q - d)))
]

-- memset writes the low byte of `c` on its range, and nowhere else.
memset_lem :
    (m : Bytes) (s c n q : ℕ)
    → memset m s c n q ≡ (if leb s q && ltb q (s + n) then c % 256 else m q)
unfolding memset
memset_lem m s c n q = ground (arith, memset_loop_lem m s c n 0 q)

memcmp_loop-zero :
    (m : Bytes) (p : ℕ) (m' : Bytes) (p' k i j : ℕ)
    → i ≤ j
    → j < i + k
    → memcmp_loop m p m' p' k i ≡ 0
    → m (p + j) ≡ m' (p' + j)
unfolding memcmp_loop
memcmp_loop-zero m p m' p' zero i j lo hi e = absurd (omega arith)
memcmp_loop-zero m p m' p' (suc k) i j lo hi e = elim (dec_lt i j) [
  | yes q ↦ ground (arith, memcmp_loop-zero m p m' p' k (suc i) j)
  | no q ↦ let same : j ≡ i = omega arith in rw same (ground arith)
]

memcmp_loop-same :
    (m : Bytes) (p : ℕ) (m' : Bytes) (p' k i : ℕ)
    → ((j : ℕ) → i ≤ j → j < i + k → m (p + j) ≡ m' (p' + j))
    → memcmp_loop m p m' p' k i ≡ 0
unfolding memcmp_loop
memcmp_loop-same m p m' p' zero i h = refl
memcmp_loop-same m p m' p' (suc k) i h = ground (
  arith,
  h i (omega arith) (omega arith),
  memcmp_loop-same m p m' p' k (suc i) (λ j lo hi. h j (omega arith) (omega arith)),
)

memcmp_loop-agree :
    (m w : Bytes) (p : ℕ) (m' : Bytes) (p' k i : ℕ)
    → ((j : ℕ) → i ≤ j → j < i + k → w (p + j) ≡ m (p + j))
    → memcmp_loop w p m' p' k i ≡ memcmp_loop m p m' p' k i
unfolding memcmp_loop
memcmp_loop-agree m w p m' p' zero i h = refl
memcmp_loop-agree m w p m' p' (suc k) i h = rw (
  h i (omega arith) (omega arith),
  memcmp_loop-agree m w p m' p' k (suc i) (λ j lo hi. h j (omega arith) (omega arith)),
)

-- memcmp is 0 exactly when the two ranges hold the same bytes.
pub memcmp-zero_iff :
    (m : Bytes) (p : ℕ) (m' : Bytes) (p' n : ℕ)
    → (memcmp m p m' p' n ≡ 0) ↔ ((j : ℕ) → j < n → m (p + j) ≡ m' (p' + j))
unfolding memcmp
memcmp-zero_iff m p m' p' n = (
  λ e j lt. memcmp_loop-zero m p m' p' n 0 j (omega arith) (omega arith) e,
  λ h. memcmp_loop-same m p m' p' n 0 (λ j lo hi. h j (omega arith)),
)

-- memcmp reads its two ranges, and nothing else.
pub memcmp-agree :
    (m w : Bytes) (p : ℕ) (m' : Bytes) (p' n : ℕ)
    → ((j : ℕ) → j < n → w (p + j) ≡ m (p + j))
    → memcmp w p m' p' n ≡ memcmp m p m' p' n
unfolding memcmp
memcmp-agree m w p m' p' n h = memcmp_loop-agree m w p m' p' n 0 (λ j lo hi. h j (omega arith))
