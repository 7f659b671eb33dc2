-- ===== src/Common/Memory.antt =====
-- Memory: a byte at every address. Words are little-endian, as on the i386.
use Prim.Native.Nat.{ℕ, ◌+◌, ◌-◌, ◌*◌, ◌/◌, ◌%◌, ◌^◌, ◌≤◌, ◌<◌}
use mathlib.Core.Path.{◌≡◌}
use mathlib.Core.Bool.{◌&&◌}
use native.Mathlib.Omega.{arith}
use if2230_2023_oshiete.Common.Tests.{ltb, leb, ◌==◌, if◌then◌else◌}

abbrev pub Bytes : Type 0
Bytes = ℕ → ℕ

-- Every cell holds a byte.
abbrev pub IsBytes : Bytes → Type 0
IsBytes m = (a : ℕ) → m a < 256

unfoldable pub put8 : Bytes → ℕ → ℕ → Bytes
put8 m a v q = if q == a then v % 256 else m q

unfoldable pub get16 : Bytes → ℕ → ℕ
get16 m a = m a + 256 * m (a + 1)

unfoldable pub put16 : Bytes → ℕ → ℕ → Bytes
put16 m a v q = if q == a then v % 256 else if q == a + 1 then v / 256 % 256 else m q

unfoldable pub get32 : Bytes → ℕ → ℕ
get32 m a = m a + 256 * m (a + 1) + 65536 * m (a + 2) + 16777216 * m (a + 3)

unfoldable pub put32 : Bytes → ℕ → ℕ → Bytes
put32 m a v q =
    if q == a
    then v % 256
    else if q == a + 1
    then v / 256 % 256
    else if q == a + 2
    then v / 65536 % 256
    else if q == a + 3
    then v / 16777216 % 256
    else m q

-- `n` bytes of `src` from address `s` on, laid at address `d` of `m`.
unfoldable pub copy : Bytes → ℕ → Bytes → ℕ → ℕ → Bytes
copy m d src s n q = if leb d q && ltb q (d + n) then src (s + (q - d)) else m q

-- `n` zero bytes at `d`.
unfoldable pub clear : Bytes → ℕ → ℕ → Bytes
clear m d n q = if leb d q && ltb q (d + n) then 0 else m q

pub get32-put32 : (m : Bytes) (a v : ℕ) → v < 2 ^ 32 → get32 (put32 m a v) a ≡ v
unfolding get32 put32
get32-put32 m a v h = ground arith

pub get32-put32_ne : (m : Bytes) (a b v : ℕ) → (a + 4 ≤ b) → get32 (put32 m a v) b ≡ get32 m b
unfolding get32 put32
get32-put32_ne m a b v h = ground arith

pub get32-put32_ne' : (m : Bytes) (a b v : ℕ) → (b + 4 ≤ a) → get32 (put32 m a v) b ≡ get32 m b
unfolding get32 put32
get32-put32_ne' m a b v h = ground arith

pub get16-put16 : (m : Bytes) (a v : ℕ) → v < 2 ^ 16 → get16 (put16 m a v) a ≡ v
unfolding get16 put16
get16-put16 m a v h = ground arith

pub copy_in :
    (m : Bytes) (d : ℕ) (src : Bytes) (s n i : ℕ) → i < n → copy m d src s n (d + i) ≡ src (s + i)
unfolding copy
copy_in m d src s n i h = let e : d + i - d ≡ i = omega arith in ground arith

pub copy_below : (m : Bytes) (d : ℕ) (src : Bytes) (s n q : ℕ) → q < d → copy m d src s n q ≡ m q
unfolding copy
copy_below m d src s n q h = ground arith

pub copy_above :
    (m : Bytes) (d : ℕ) (src : Bytes) (s n q : ℕ) → d + n ≤ q → copy m d src s n q ≡ m q
unfolding copy
copy_above m d src s n q h = ground arith
