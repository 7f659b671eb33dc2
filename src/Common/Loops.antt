-- ===== src/Common/Loops.antt =====
-- C loops as functions: the body says how each round ends. A `for` loop has a number of rounds,
-- a `while` loop has fuel, and running out of fuel is an outcome of its own.
use Prim.Native.Nat.{ℕ, zero, suc, ◌+◌, ◌<◌}
use mathlib.Core.Path.{◌≡◌, refl, ◌∙◌}
use native.Mathlib.Omega.{arith}

-- How a round ends: `again` runs on, `leave` is `break` (or the loop's own test), `return` leaves
-- the function, `spin` says that the fuel ran out.
pub data Step (S R : Type 0) : Type 0 where
  again : S → Step S R
  leave : S → Step S R
  return : R → Step S R
  spin : Step S R

-- The rest of the rounds runs after a round that says `again`.
abbrev pub run_on : {S R : Type 0} → (S → Step S R) → Step S R → Step S R
run_on rest (again t) = rest t
run_on rest (leave t) = leave t
run_on rest (return r) = return r
run_on rest spin = spin

-- for (i = first; i < first + rounds; i++). The test that ends it is a `leave`.
unfoldable pub for_loop : {S R : Type 0} → (ℕ → S → Step S R) → ℕ → ℕ → S → Step S R
for_loop body zero i s = leave s
for_loop body (suc k) i s = run_on (for_loop body k (suc i)) (body i s)

-- while (1), the body leaving by `leave`.
unfoldable pub while_loop : {S R : Type 0} → (S → Step S R) → ℕ → S → Step S R
while_loop body zero s = spin
while_loop body (suc k) s = run_on (while_loop body k) (body s)

-- What stands behind a loop runs if the loop was left, and not if it returned.
abbrev pub and_then : {S T R : Type 0} → Step S R → (S → Step T R) → Step T R
and_then (again s) f = f s
and_then (leave s) f = f s
and_then (return r) f = return r
and_then spin f = spin

module _ {S R : Type 0} (body : ℕ → S → Step S R) where
  pub for_loop-again :
      (k i : ℕ) (s t : S)
      → body i s ≡ again t
      → for_loop body (suc k) i s ≡ for_loop body k (suc i) t
  unfolding for_loop
  for_loop-again k i s t e = rw e

  pub for_loop-leave :
      (k i : ℕ) (s t : S) → body i s ≡ leave t → for_loop body (suc k) i s ≡ leave t
  unfolding for_loop
  for_loop-leave k i s t e = rw e

  pub for_loop-return :
      (k i : ℕ) (s : S) (r : R) → body i s ≡ return r → for_loop body (suc k) i s ≡ return r
  unfolding for_loop
  for_loop-return k i s r e = rw e

  first_round :
      {n i : ℕ} {s : S} → ((j : ℕ) → j < suc n → body (i + j) s ≡ again s) → body i s ≡ again s
  first_round {i} h = let e : i + 0 ≡ i = omega arith in rw e at (h 0 (omega arith))

  later_rounds :
      {n : ℕ} (i : ℕ) {s : S}
      → ((j : ℕ) → j < suc n → body (i + j) s ≡ again s)
      → (j : ℕ) → j < n
      → body (suc i + j) s ≡ again s
  later_rounds i h j lt =
      let e : i + suc j ≡ suc i + j = omega arith in rw e at (h (suc j) (omega arith))

  -- Rounds that change nothing.
  pub for_loop_idle :
      (k i : ℕ) (s : S)
      → ((j : ℕ) → j < k → body (i + j) s ≡ again s)
      → for_loop body k i s ≡ leave s
  unfolding for_loop
  for_loop_idle zero i s h = refl
  for_loop_idle (suc k) i s h =
      for_loop-again k i s s (first_round h) ∙ for_loop_idle k (suc i) s (later_rounds i h)

  -- Rounds that change nothing, up to the one that decides.
  pub for_loop_skip :
      (n k i : ℕ) (s : S)
      → ((j : ℕ) → j < n → body (i + j) s ≡ again s)
      → for_loop body (n + k) i s ≡ for_loop body k (i + n) s
  for_loop_skip zero k i s h =
      let e : i + 0 ≡ i = omega arith in let e' : 0 + k ≡ k = omega arith in rw (e, e')
  for_loop_skip (suc n) k i s h =
      let e : suc n + k ≡ suc (n + k) = omega arith in
      let e' : i + suc n ≡ suc i + n = omega arith in
      rw (e, e')
        (for_loop-again (n + k) i s s (first_round h)
          ∙ for_loop_skip n k (suc i) s (later_rounds i h))

-- How a loop may end: in a state with `P`, or with a result with `Q`; never for want of fuel.
abbrev pub Ends : {S R : Type 0} → (S → Type 0) → (R → Type 0) → Step S R → Type 0
Ends P Q (again s) = P s
Ends P Q (leave s) = P s
Ends P Q (return r) = Q r
Ends P Q spin = ⊥

module _ {S R : Type 0} (P : S → Type 0) (Q : R → Type 0) where
  pub run_on-Ends :
      (rest : S → Step S R) (r : Step S R)
      → ((t : S) → P t → Ends P Q (rest t))
      → Ends P Q r
      → Ends P Q (run_on rest r)
  run_on-Ends rest (again t) later h = later t h
  run_on-Ends rest (leave t) later h = h
  run_on-Ends rest (return r) later h = h
  run_on-Ends rest spin later h = h

  -- An invariant that every round keeps holds where the loop ends.
  pub for_loop_inv :
      (body : ℕ → S → Step S R)
      → ((i : ℕ) (s : S) → P s → Ends P Q (body i s))
      → (k i : ℕ) (s : S) → P s
      → Ends P Q (for_loop body k i s)
  unfolding for_loop
  for_loop_inv body keep zero i s p = p
  for_loop_inv body keep (suc k) i s p =
      run_on-Ends _ (body i s) (for_loop_inv body keep k (suc i)) (keep i s p)
