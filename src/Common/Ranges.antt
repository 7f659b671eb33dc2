-- ===== src/Common/Ranges.antt =====
-- A test on every number of a range, by evaluation.
use Prim.Native.Nat.{ℕ, zero, suc, ◌+◌, ◌≤◌, ◌<◌}
use mathlib.Core.Path.{◌≡◌, subst}
use mathlib.Core.Bool.{Bool, true, ◌&&◌}
use native.Mathlib.Decide.{ℕ_discrete}
use native.Mathlib.Omega.{arith}

abbrev pub every : (ℕ → Bool) → ℕ → ℕ → Bool
every f zero i = true
every f (suc k) i = f i && every f k (suc i)

pub every-at : (f : ℕ → Bool) (k i j : ℕ) → every f k i ≡ true → i ≤ j → j < i + k → f j ≡ true
every-at f zero i j h lo hi = absurd (omega arith)
every-at f (suc k) i j h lo hi = elim (ℕ_discrete i j) [
  | yes e ↦ subst (λ x. f x ≡ true) e (ground arith)
  | no ne ↦ every-at f k (suc i) j (ground arith) (omega arith) (omega arith)
]
