-- ===== src/Mem.antt =====
-- src/stdmem.c: memset, memcpy, memcmp and memmove, as their loops. A pointer is a memory and an
-- address in it. The `int` of memcmp is a 32-bit pattern: -1 is `minus_one`.
pub mod Laws
use if2230_2023_oshiete.Common.{ℕ, zero, suc, ◌+◌, ◌-◌, ◌^◌, Bytes, put8, ltb, if◌then◌else◌}

abbrev pub minus_one : ℕ
minus_one = 2 ^ 32 - 1

-- The rounds left and `i`.
memset_loop : Bytes → ℕ → ℕ → ℕ → ℕ → Bytes
memset_loop m s c zero i = m
memset_loop m s c (suc k) i = memset_loop (put8 m (s + i) c) s c k (suc i)

unfoldable pub memset : Bytes → ℕ → ℕ → ℕ → Bytes
unfolding memset_loop put8
memset m s c n = memset_loop m s c n 0

memcpy_loop : Bytes → ℕ → Bytes → ℕ → ℕ → ℕ → Bytes
memcpy_loop m dest src s zero i = m
memcpy_loop m dest src s (suc k) i =
    memcpy_loop (put8 m (dest + i) (src (s + i))) dest src s k (suc i)

-- `restrict`: the source is not written, so it may stand in a memory of its own.
unfoldable pub memcpy : Bytes → ℕ → Bytes → ℕ → ℕ → Bytes
unfolding memcpy_loop put8
memcpy m dest src s n = memcpy_loop m dest src s n 0

memcmp_loop : Bytes → ℕ → Bytes → ℕ → ℕ → ℕ → ℕ
memcmp_loop m s1 m' s2 zero i = 0
memcmp_loop m s1 m' s2 (suc k) i =
    let rest = memcmp_loop m s1 m' s2 k (suc i) in
    if ltb (m (s1 + i)) (m' (s2 + i))
    then minus_one
    else if ltb (m' (s2 + i)) (m (s1 + i))
    then 1
    else rest

unfoldable pub memcmp : Bytes → ℕ → Bytes → ℕ → ℕ → ℕ
unfolding memcmp_loop
memcmp m s1 m' s2 n = memcmp_loop m s1 m' s2 n 0

-- The two loops of memmove: upwards from 0, downwards from n.
move_up : Bytes → ℕ → ℕ → ℕ → ℕ → Bytes
move_up m dest src zero i = m
move_up m dest src (suc k) i = move_up (put8 m (dest + i) (m (src + i))) dest src k (suc i)

move_down : Bytes → ℕ → ℕ → ℕ → Bytes
move_down m dest src zero = m
move_down m dest src (suc i) = move_down (put8 m (dest + i) (m (src + i))) dest src i

-- One memory: the two ranges may overlap.
unfoldable pub memmove : Bytes → ℕ → ℕ → ℕ → Bytes
unfolding move_up move_down put8
memmove m dest src n = if ltb dest src then move_up m dest src n 0 else move_down m dest src n
