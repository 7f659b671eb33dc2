-- ===== src/Fat32/Store.antt =====
-- The loop of `write` (src/fat32.c) that stores the bytes of a file in free clusters.
pub mod Round
use if2230_2023_oshiete.Common.{
  length, ℕ, zero, suc, ◌+◌, ◌-◌, ◌*◌, ◌%◌, ◌≤◌, ◌<◌, ◌≡◌, ◌≢◌, refl, sym, ap, ◌∙◌, subst, ◌⊎◌, inl,
  inr, Bool-cases, ==→eq, true, false, arith, Bytes, List, [], ◌∷◌, Option, none, some, Step, again,
  leave, while_loop, ◌==◌, ne→==, eq→==, if◌then◌else◌, ◌||◌,
}
use native.Mathlib.Decide.{ℕ_discrete}
use if2230_2023_oshiete.Fat32.Layout.{cluster_size, end_of_file, cluster_map}
use if2230_2023_oshiete.Fat32.Driver.{Fs, Result, save_fat}
use if2230_2023_oshiete.Fat32.Write.{Chain, write_fragment, write_round, find_empty_cluster}
use if2230_2023_oshiete.Fat32.Free.{has, IsChain, last, link}
use if2230_2023_oshiete.Fat32.Chain.{Holds}
use if2230_2023_oshiete.Fat32.Space.{
  IsFree, Takes, free_count, find_empty_cluster-IsFree, free_count-Takes,
}
use Round.{
  linked, IsTaken, map_after, driver-write_fragment, rest-write_fragment, cluster_map-map_after,
  map_after_above, Takes-map_after, disk-write_fragment,
}

-- How the loop ends that starts in state c: with a chain from the cluster in hand through clusters
-- that were free, linked behind the previous one, which hold the buffer from the fragment in hand
-- on. The rest of the table, the rest of the medium and the rest of the state are as they were,
-- and the table is on the medium.
pub record Stored (c c' : Chain) (cs : List ℕ) : Type 0 where
  pub chain : IsChain c'.fs.driver c.cluster_index cs
  pub holds : Holds c'.fs.disk c.fs.buf (c.fragment_ctr * cluster_size) cs
  pub fresh : (i : ℕ) → has i cs ≡ true → IsFree c.fs.driver i
  pub table :
      (i : ℕ)
      → has i cs ≡ false
      → cluster_map c'.fs.driver i ≡ linked c.fs.driver c.previous c.cluster_index i
  pub medium :
      (d i : ℕ)
      → has d cs ≡ false
      → d ≢ 1
      → i < cluster_size
      → c'.fs.disk (d * cluster_size + i) ≡ c.fs.disk (d * cluster_size + i)
  pub saved : (i : ℕ) → i < cluster_size → c'.fs.disk (1 * cluster_size + i) ≡ c'.fs.driver i
  pub above : (q : ℕ) → 2048 ≤ q → c'.fs.driver q ≡ c.fs.driver q
  pub rest : c'.fs ≡ record (c.fs) { driver = c'.fs.driver; disk = c'.fs.disk }

-- The state behind a round with more to come.
abbrev next_round : Chain → Chain
next_round c = record {
  fs = write_fragment c;
  total_size = c.total_size - cluster_size;
  fragment_ctr = (c.fragment_ctr + 1) % 256;
  cluster_index = find_empty_cluster (map_after c);
  previous = some c.cluster_index;
}

abbrev last_round : Chain → Chain
last_round c = record c {
  fs = write_fragment c;
  total_size = 0;
  fragment_ctr = (c.fragment_ctr + 1) % 256;
  previous = none;
}

write_round-again : (c : Chain) → cluster_size < c.total_size → write_round c ≡ again (next_round c)
unfolding write_round write_fragment save_fat
write_round-again c h =
    rw (ne→== c.total_size 0 (omega arith), ne→== (c.total_size - cluster_size) 0 (omega arith))

write_round-last :
    (c : Chain)
    → 0 < c.total_size
    → c.total_size ≤ cluster_size
    → write_round c ≡ again (last_round c)
unfolding write_round
write_round-last c h le =
    let e : c.total_size - cluster_size ≡ 0 = omega arith in
    rw (ne→== c.total_size 0 (omega arith), e)

write_round-leave : (c : Chain) → c.total_size ≡ 0 → write_round c ≡ leave c
unfolding write_round
write_round-leave c e = rw (eq→== c.total_size 0 e)

module _ (c : Chain) (k : ℕ) where
  round_more :
      cluster_size < c.total_size
      → while_loop write_round (suc k) c ≡ while_loop write_round k (next_round c)
  unfolding while_loop
  round_more h = rw (write_round-again c h)

  round_last :
      0 < c.total_size
      → c.total_size ≤ cluster_size
      → while_loop write_round (suc (suc k)) c ≡ leave (last_round c)
  unfolding while_loop
  round_last h le = rw (write_round-last c h le, write_round-leave (last_round c) refl)

has-cons_false : {i c : ℕ} (cs : List ℕ) → has i (c ∷ cs) ≡ false → (i ≢ c) × (has i cs ≡ false)
has-cons_false cs h = ground arith

has-cons_true : {i c : ℕ} (cs : List ℕ) → has i (c ∷ cs) ≡ true → (i ≡ c) ⊎ (has i cs ≡ true)
has-cons_true {i} {c} cs h = elim (ℕ_discrete i c) [
  | yes e ↦ inl e
  | no ne ↦ inr (rw (ne→== i c ne) at h)
]

module _ (c : Chain) (free : IsFree c.fs.driver c.cluster_index)
    (taken : IsTaken c.fs.driver c.previous) where
  -- What is free behind the round was free before it, and is another cluster.
  fresh_back : (i : ℕ) → IsFree (map_after c) i → (i ≢ c.cluster_index) × IsFree c.fs.driver i
  fresh_back i f = (
    other,
    record {
      low = f.low;
      high = f.high;
      empty =
          ==→eq (cluster_map c.fs.driver i) 0
            (sym (takes.others i other) ∙ eq→== (cluster_map (map_after c) i) 0 f.empty);
    },
  )
    where
      takes : Takes c.fs.driver c.cluster_index (map_after c)
      takes = Takes-map_after c free taken

      other : i ≢ c.cluster_index
      other e = takes.after (subst (λ x. cluster_map (map_after c) x ≡ 0) e f.empty)

  entry_here : cluster_map (map_after c) c.cluster_index ≡ end_of_file
  entry_here =
      cluster_map-map_after c free c.cluster_index ∙ rw (eq→== c.cluster_index c.cluster_index refl)

  entry_there :
      (i : ℕ)
      → i ≢ c.cluster_index
      → cluster_map (map_after c) i ≡ linked c.fs.driver c.previous c.cluster_index i
  entry_there i ne = cluster_map-map_after c free i ∙ rw (ne→== i c.cluster_index ne)

  disk_here :
      (j : ℕ)
      → j < cluster_size
      → c.fs.buf (c.fragment_ctr * cluster_size + j)
        ≡ (write_fragment c).disk (c.cluster_index * cluster_size + j)
  disk_here j lt = sym (
      disk-write_fragment c free c.cluster_index j lt
      ∙ rw (eq→== c.cluster_index c.cluster_index refl))

  disk_there :
      (d j : ℕ)
      → d ≢ c.cluster_index
      → d ≢ 1
      → j < cluster_size
      → (write_fragment c).disk (d * cluster_size + j) ≡ c.fs.disk (d * cluster_size + j)
  disk_there d j ne ne1 lt =
      disk-write_fragment c free d j lt ∙ rw (ne→== d c.cluster_index ne, ne→== d 1 ne1)

  disk_table :
      (j : ℕ) → j < cluster_size → (write_fragment c).disk (1 * cluster_size + j) ≡ map_after c j
  disk_table j lt =
      disk-write_fragment c free 1 j lt ∙ rw (ne→== 1 c.cluster_index (omega (arith, free.low)))

  -- The last cluster.
  Stored-last : Stored c (last_round c) (c.cluster_index ∷ [])
  unfolding write_fragment save_fat
  Stored-last = record {
    chain = last entry_here;
    holds = (disk_here, tt);
    fresh = λ i h. elim (has-cons_true [] h) [
      | inl e ↦ subst (IsFree c.fs.driver) (sym e) free
      | inr no_more ↦ cc
    ];
    table = λ i h. entry_there i (has-cons_false [] h).0;
    medium = λ d i h ne lt. disk_there d i (has-cons_false [] h).0 ne lt;
    saved = disk_table;
    above = λ q le. map_after_above c free q taken le;
    rest = refl;
  }

  module _ (c' : Chain) (cs : List ℕ) (s : Stored (next_round c) c' cs)
      (next_free : IsFree (map_after c) (find_empty_cluster (map_after c)))
      (small : c.fragment_ctr < 255) where
    not_again : has c.cluster_index cs ≡ false
    unfolding write_fragment save_fat
    not_again = elim (Bool-cases (has c.cluster_index cs)) [
      | inl h ↦ absurd ((fresh_back c.cluster_index (s.fresh c.cluster_index h)).0 refl)
      | inr h ↦ h
    ]

    -- A cluster with more to come.
    Stored-cons : Stored c c' (c.cluster_index ∷ cs)
    unfolding write_fragment save_fat
    Stored-cons = record {
      chain =
          link (s.table c.cluster_index not_again ∙ rw (eq→== c.cluster_index c.cluster_index refl))
            (omega (arith, next_free.high)) not_again s.chain;
      holds = (
        λ j lt.
            disk_here j lt
            ∙ sym (s.medium c.cluster_index j not_again (omega (arith, free.low)) lt),
        subst (λ p. Holds c'.fs.disk c.fs.buf p cs) place s.holds,
      );
      fresh = λ i h. elim (has-cons_true cs h) [
        | inl e ↦ subst (IsFree c.fs.driver) (sym e) free
        | inr more ↦ (fresh_back i (s.fresh i more)).1
      ];
      table = λ i h.
          let (ne, out) = has-cons_false cs h in
          s.table i out ∙ rw (ne→== i c.cluster_index ne) (entry_there i ne);
      medium = λ d i h ne lt.
          let (other, out) = has-cons_false cs h in
          s.medium d i out ne lt ∙ disk_there d i other ne lt;
      saved = s.saved;
      above = λ q le. s.above q le ∙ map_after_above c free q taken le;
      rest = s.rest;
    }
      where
        place :
            (c.fragment_ctr + 1) % 256 * cluster_size ≡ c.fragment_ctr * cluster_size + cluster_size
        place = omega arith

-- With a free cluster for every 2048 bytes that are left, and fuel for a round more than that, the
-- loop ends and has stored them in that many clusters.
pub while_loop-Stored :
    (n fuel : ℕ) (c : Chain)
    → n * cluster_size < c.total_size + cluster_size
    → c.total_size ≤ n * cluster_size
    → 0 < n
    → n < fuel
    → c.fragment_ctr + n ≤ 256
    → n ≤ free_count c.fs.driver
    → IsFree c.fs.driver c.cluster_index
    → IsTaken c.fs.driver c.previous
    → (c' : Chain) × (cs : List ℕ) × (while_loop write_round fuel c ≡ leave c')
      × (length cs ≡ n)
      × Stored c c' cs
while_loop-Stored zero fuel c lo hi pos enough small room free taken = absurd (omega arith)
while_loop-Stored (suc n) zero c lo hi pos enough small room free taken = absurd (omega arith)
while_loop-Stored (suc zero) (suc zero) c lo hi pos enough small room free taken =
    absurd (omega arith)
while_loop-Stored (suc zero) (suc (suc k)) c lo hi pos enough small room free taken =
    (last_round c, _, round_last c k (omega arith) (omega arith), refl, Stored-last c free taken)
while_loop-Stored (suc (suc n)) (suc k) c lo hi pos enough small room free taken =
    let counted = free_count-Takes (Takes-map_after c free taken) free in
    let next_free = find_empty_cluster-IsFree (map_after c) (omega (arith, counted)) in
    let (c', cs, ends, count, stored) =
      while_loop-Stored (suc n) k (next_round c) (omega arith) (omega arith) (omega arith)
        (omega arith) (omega arith) (rw (driver-write_fragment c) (omega (arith, counted)))
        (rw (driver-write_fragment c) next_free)
        (free.high, rw (driver-write_fragment c, entry_here c free taken) (omega arith)) in
    (
      c',
      _,
      round_more c k (omega arith) ∙ ends,
      ap suc count,
      Stored-cons c free taken c' cs stored next_free (omega arith),
    )
