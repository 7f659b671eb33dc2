-- ===== src/User/Reach.antt =====
-- Where the steps of read_path (src/syscall.c) can take the stack of directories.
use if2230_2023_oshiete.Common.{
  ℕ, zero, suc, ◌+◌, ◌*◌, ◌≤◌, ◌≡◌, arith, Bytes, ◌&&◌, ◌==◌, ltb, not, AllOf, ltb→lt, ◌<◌,
  AllOf-then, Bool-cases, inl, inr, Option, none, some, Step, again, leave, return, spin, for_loop,
  run_on,
}
use if2230_2023_oshiete.Str.{strlen, strcmp}
use if2230_2023_oshiete.Str.Parse.{row_length}
use if2230_2023_oshiete.Fat32.Layout.{root_cluster_number}
use if2230_2023_oshiete.Fat32.Driver.{Result}
use if2230_2023_oshiete.User.{
  CurrentWorkingDirectory, Walk, FoundPath, top_cluster, pushed, push, pop, dot_dot, then_step,
  descend, walk_name, walk_part, last_part, after_walk, call_read_directory, directory_request,
}

-- The bottom of the stack is the same, and the top at most n higher and in the arrays.
pub record Reaches (n : ℕ) (cwd cwd' : CurrentWorkingDirectory) : Type 0 where
  pub bottom : cwd'.clusters_stack 0 ≡ cwd.clusters_stack 0
  pub height : cwd'.top ≤ cwd.top + n
  pub inside : cwd.top ≤ 511 → cwd'.top ≤ 511

module _ (cwd0 : CurrentWorkingDirectory) where
  pub stay : (n : ℕ) (cwd : CurrentWorkingDirectory) → Reaches n cwd0 cwd → Reaches (suc n) cwd0 cwd
  stay n cwd h = record { bottom = h.bottom; height = omega (arith, h.height); inside = h.inside }

  pushed-Reaches :
      (n : ℕ) (cwd : CurrentWorkingDirectory) (c : ℕ) (names : Bytes) (p : ℕ)
      → cwd.top < 511
      → Reaches n cwd0 cwd
      → Reaches (suc n) cwd0 (pushed cwd c names p)
  unfolding pushed
  pushed-Reaches n cwd c names p room h = record {
    bottom = ground (arith, h.bottom);
    height = omega (arith, h.height);
    inside = λ le. omega (arith, room);
  }

  pub push-Reaches :
      (n : ℕ) (cwd : CurrentWorkingDirectory) (c : ℕ) (names : Bytes) (p : ℕ)
      → Reaches n cwd0 cwd
      → AllOf (Reaches (suc n) cwd0) (push cwd c names p)
  unfolding push
  push-Reaches n cwd c names p h = elim (Bool-cases (ltb cwd.top 511)) [
    | inl e ↦ rw e (pushed-Reaches n cwd c names p (ltb→lt cwd.top 511 e) h)
    | inr e ↦ rw e tt
  ]

  pop-Reaches :
      (n : ℕ) (cwd : CurrentWorkingDirectory) → Reaches n cwd0 cwd → Reaches n cwd0 (pop cwd)
  unfolding pop
  pop-Reaches n cwd h = record {
    bottom = h.bottom;
    height = omega (arith, h.height);
    inside = λ le. omega (arith, h.inside le);
  }

  -- Every outcome of a step is within reach.
  abbrev pub StepReaches : ℕ → Step Walk (ℕ × Walk) → Type 0
  StepReaches n (again w) = Reaches n cwd0 w.cwd
  StepReaches n (leave w) = Reaches n cwd0 w.cwd
  StepReaches n (return r) = Reaches n cwd0 r.1.cwd
  StepReaches n spin = Unit

  then_step-Reaches :
      {A : Type 0} (n : ℕ) (o : Option A) (f : A → Step Walk (ℕ × Walk))
      → ((a : A) → StepReaches n (f a))
      → StepReaches n (then_step o f)
  then_step-Reaches n none f h = tt
  then_step-Reaches n (some a) f h = h a

  descend-Reaches :
      (n : ℕ) (dirs : Bytes) (p : ℕ) (w : Walk) (r : Result)
      → Reaches n cwd0 w.cwd
      → StepReaches (suc n) (descend dirs p w r)
  unfolding descend
  descend-Reaches n dirs p w (code, fs) h = elim (Bool-cases (code == 0)) [
    | inl e ↦ rw e (entered (push w.cwd fs.found dirs p) (push-Reaches n w.cwd fs.found dirs p h))
    | inr e ↦ rw e (stay n w.cwd h)
  ]
    where
      entered :
          (o : Option CurrentWorkingDirectory)
          → AllOf (Reaches (suc n) cwd0) o
          → StepReaches
              (suc n)
              (then_step o λ cwd. again (record { cwd = cwd; cluster = fs.found; fs = fs }))
      entered none h = tt
      entered (some cwd) h = h

  walk_name-Reaches :
      (n fuel : ℕ) (dirs : Bytes) (p : ℕ) (w : Walk)
      → Reaches n cwd0 w.cwd
      → StepReaches (suc n) (walk_name fuel dirs p w)
  unfolding walk_name
  walk_name-Reaches n fuel dirs p w h =
      let down =
        then_step-Reaches (suc n)
          (call_read_directory fuel (directory_request dirs p (top_cluster w.cwd)) w.fs)
          (descend dirs p w) λ r. descend-Reaches n dirs p w r h in
      then_step-Reaches (suc n) (strlen fuel dirs p) _
        λ k. elim (Bool-cases (ltb 8 k)) [ inl e ↦ rw e (stay n w.cwd h) | inr e ↦ rw e down ]

  walk_part-Reaches :
      (n fuel : ℕ) (dirs : Bytes) (i : ℕ) (w : Walk)
      → Reaches n cwd0 w.cwd
      → StepReaches (suc n) (walk_part fuel dirs i w)
  unfolding walk_part
  walk_part-Reaches n fuel dirs i w h =
      let named = walk_name-Reaches n fuel dirs (i * row_length) w h in
      then_step-Reaches (suc n) (strcmp fuel dot_dot 0 dirs (i * row_length)) _ λ up.
        elim (Bool-cases up) [
          | inl e ↦
              rw e
                (elim (Bool-cases
                  (not (w.cluster == root_cluster_number) && not (w.cwd.top == 0))) [
                    | inl e ↦ rw e (stay n (pop w.cwd) (pop-Reaches n w.cwd h))
                    | inr e ↦ rw e (stay n w.cwd h)
                  ])
          | inr e ↦ rw e (elim (Bool-cases (dirs (i * row_length) == 0)) [
            | inl e ↦ rw e (stay n w.cwd h)
            | inr e ↦ rw e named
          ])
        ]

  weaken : (n k : ℕ) (st : Step Walk (ℕ × Walk)) → n ≤ k → StepReaches n st → StepReaches k st
  weaken n k (again w) le h = record {
    bottom = h.bottom;
    height = omega (arith, h.height);
    inside = h.inside;
  }
  weaken n k (leave w) le h = record {
    bottom = h.bottom;
    height = omega (arith, h.height);
    inside = h.inside;
  }
  weaken n k (return r) le h = record {
    bottom = h.bottom;
    height = omega (arith, h.height);
    inside = h.inside;
  }
  weaken n k spin le h = tt

  run_on-Reaches :
      (n k : ℕ) (rest : Walk → Step Walk (ℕ × Walk)) (st : Step Walk (ℕ × Walk))
      → n ≤ k
      → StepReaches n st
      → ((w : Walk) → Reaches n cwd0 w.cwd → StepReaches k (rest w))
      → StepReaches k (run_on rest st)
  run_on-Reaches n k rest (again w) le h more = more w h
  run_on-Reaches n k rest (leave w) le h more = weaken n k (leave w) le h
  run_on-Reaches n k rest (return r) le h more = weaken n k (return r) le h
  run_on-Reaches n k rest spin le h more = tt

  pub for_loop-Reaches :
      (fuel : ℕ) (dirs : Bytes) (k i n : ℕ) (w : Walk)
      → Reaches n cwd0 w.cwd
      → StepReaches (n + k) (for_loop (walk_part fuel dirs) k i w)
  unfolding for_loop
  for_loop-Reaches fuel dirs zero i n w h = weaken n (n + 0) (leave w) (omega arith) h
  for_loop-Reaches fuel dirs (suc k) i n w h =
      run_on-Reaches (suc n) (n + suc k) (for_loop (walk_part fuel dirs) k (suc i))
        (walk_part fuel dirs i w) (omega arith) (walk_part-Reaches n fuel dirs i w h)
        λ w' h'.
          weaken (suc n + k) (n + suc k) (for_loop (walk_part fuel dirs) k (suc i) w') (omega arith)
            (for_loop-Reaches fuel dirs k (suc i) (suc n) w' h')

  -- What stands behind the loop.
  abbrev pub PathReaches : ℕ → Option FoundPath → Type 0
  PathReaches n = AllOf (λ f. Reaches n cwd0 f.cwd)

  last_part-Reaches :
      (n fuel : ℕ) (dirs : Bytes) (p : ℕ) (to_find : Bytes) (next : Option ℕ) (w : Walk)
      → Reaches n cwd0 w.cwd
      → PathReaches n (last_part fuel dirs p to_find next w)
  unfolding last_part
  last_part-Reaches n fuel dirs p to_find next w h =
      AllOf-then (λ f. Reaches n cwd0 f.cwd) (strcmp fuel dot_dot 0 dirs p) _
        λ up. elim (Bool-cases (up && ltb 0 w.cwd.top)) [
          | inl e ↦ rw e (pop-Reaches n w.cwd h)
          | inr e ↦ rw e h
        ]

  pub after_walk-Reaches :
      (n fuel : ℕ) (dirs : Bytes) (p : ℕ) (to_find : Bytes) (next : Option ℕ)
      (st : Step Walk (ℕ × Walk))
      → StepReaches n st
      → PathReaches n (after_walk fuel dirs p to_find next st)
  unfolding after_walk
  after_walk-Reaches n fuel dirs p to_find next (again w) h =
      last_part-Reaches n fuel dirs p to_find next w h
  after_walk-Reaches n fuel dirs p to_find next (leave w) h =
      last_part-Reaches n fuel dirs p to_find next w h
  after_walk-Reaches n fuel dirs p to_find next (return (code, w)) h = h
  after_walk-Reaches n fuel dirs p to_find next spin h = tt

  pub path-weaken : (n k : ℕ) (o : Option FoundPath) → n ≤ k → PathReaches n o → PathReaches k o
  path-weaken n k none le h = tt
  path-weaken n k (some f) le h = record {
    bottom = h.bottom;
    height = omega (arith, h.height);
    inside = h.inside;
  }
