-- ===== src/Fat32/Chain.antt =====
-- The loop that copies the clusters of a chain into the buffer of a request: `read`, and the
-- loop of read_root_directory (src/fat32.c).
use if2230_2023_oshiete.Common.{
  length, ℕ, zero, suc, ◌+◌, ◌-◌, ◌*◌, ◌%◌, ◌^◌, ◌≤◌, ◌<◌, ◌≡◌, ◌≢◌, refl, sym, subst, ◌∙◌, arith,
  Bytes, List, [], ◌∷◌, copy_below, ne→==, Step, leave, while_loop,
}
use native.Mathlib.Decide.{dec_lt}
use if2230_2023_oshiete.Fat32.Layout.{cluster_size, end_of_file, cluster_map}
use if2230_2023_oshiete.Fat32.Driver.{Result, read_clusters}
use if2230_2023_oshiete.Fat32.Directory.{Copy, copy_cluster}
use if2230_2023_oshiete.Fat32.Transfer.{IsCluster, read_clusters-copy, read_clusters_at}
use if2230_2023_oshiete.Fat32.Free.{IsChain, last, link}

-- The clusters of the list hold, one behind the other, what the buffer holds from `p` on.
abbrev pub Holds : Bytes → Bytes → ℕ → List ℕ → Type 0
Holds disk buf p [] = Unit
Holds disk buf p (c ∷ cs) =
    ((j : ℕ) → j < cluster_size → buf (p + j) ≡ disk (c * cluster_size + j))
    × Holds disk buf (p + cluster_size) cs

abbrev pub AreClusters : List ℕ → Type 0
AreClusters [] = Unit
AreClusters (c ∷ cs) = IsCluster c × AreClusters cs

-- How a copying loop that starts at `c` ends: only the buffer has changed, from the place of the
-- first fragment on, and there it holds the clusters.
abbrev pub Copied : Copy → List ℕ → Step Copy Result → Type 0
Copied c cs r =
    (c' : Copy) × (r ≡ leave c')
    × (c'.fs ≡ record (c.fs) { buf = c'.fs.buf })
    × ((q : ℕ) → q < c.fragment_ctr * cluster_size → c'.fs.buf q ≡ c.fs.buf q)
    × Holds c.fs.disk c'.fs.buf (c.fragment_ctr * cluster_size) cs

-- The state behind a round.
abbrev next_copy : Copy → Copy
next_copy c = record {
  fs = record (c.fs) {
    buf = read_clusters c.fs.disk c.fs.buf (c.fragment_ctr * cluster_size) c.cluster 1;
  };
  cluster = cluster_map c.fs.driver c.cluster;
  size = (c.size + 2 ^ 32 - cluster_size) % 2 ^ 32;
  fragment_ctr = c.fragment_ctr + 1;
}

module _ (c : Copy) (ok : IsCluster c.cluster) where
  next_copy_in :
      (j : ℕ)
      → j < cluster_size
      → (next_copy c).fs.buf (c.fragment_ctr * cluster_size + j)
        ≡ c.fs.disk (c.cluster * cluster_size + j)
  next_copy_in j lt =
      read_clusters_at c.fs.disk c.fs.buf (c.fragment_ctr * cluster_size) c.cluster j ok lt

  next_copy_below :
      (q : ℕ) → q < c.fragment_ctr * cluster_size → (next_copy c).fs.buf q ≡ c.fs.buf q
  next_copy_below q lt =
      rw (read_clusters-copy c.fs.disk c.fs.buf (c.fragment_ctr * cluster_size) c.cluster ok) (
        copy_below c.fs.buf (c.fragment_ctr * cluster_size) c.fs.disk (c.cluster * cluster_size)
          cluster_size q lt)

  copy_last :
      (k : ℕ)
      → cluster_map c.fs.driver c.cluster ≡ end_of_file
      → Copied c (c.cluster ∷ []) (while_loop copy_cluster (suc k) c)
  unfolding copy_cluster while_loop
  copy_last k e = (next_copy c, rw e, refl, next_copy_below, (next_copy_in, tt))

  copy_step :
      (k d : ℕ)
      → cluster_map c.fs.driver c.cluster ≡ d
      → d ≢ end_of_file
      → while_loop copy_cluster (suc k) c ≡ while_loop copy_cluster k (next_copy c)
  unfolding copy_cluster while_loop
  copy_step k d e ne =
      rw (ne→== (cluster_map c.fs.driver c.cluster) end_of_file (λ h. ne (sym e ∙ h)))

  Copied-cons :
      (cs : List ℕ) (r : Step Copy Result) → Copied (next_copy c) cs r → Copied c (c.cluster ∷ cs) r
  Copied-cons cs r (c', e, same, below, holds) =
      let place : (c.fragment_ctr + 1) * cluster_size
          ≡ c.fragment_ctr * cluster_size + cluster_size =
        omega arith in
      (
        c',
        e,
        same,
        λ q lt. below q (omega arith) ∙ next_copy_below q lt,
        (
          λ j lt. below _ (omega arith) ∙ next_copy_in j lt,
          subst (λ p. Holds c.fs.disk c'.fs.buf p cs) place holds,
        ),
      )

-- With fuel for every cluster the loop ends, and the buffer holds the clusters of the chain in
-- order; nothing before the first fragment's place changes, and no other part of the state.
pub while_loop-Copied :
    (fuel : ℕ) (c : Copy) (start : ℕ) {cs : List ℕ}
    → c.cluster ≡ start
    → IsChain c.fs.driver start cs
    → AreClusters cs
    → length cs ≤ fuel
    → Copied c cs (while_loop copy_cluster fuel c)
while_loop-Copied zero c start at (last e) ok enough = absurd (omega arith)
while_loop-Copied zero c start at (link e ne out s) ok enough = absurd (omega arith)
while_loop-Copied (suc k) c start at (last e) ok enough =
    subst (λ x. Copied c (x ∷ []) (while_loop copy_cluster (suc k) c)) at
      (copy_last c (rw at ok.0) k (rw at e))
while_loop-Copied (suc k) c start at (link {d} {cs} e ne out s) ok enough =
    subst (λ x. Copied c (x ∷ cs) (while_loop copy_cluster (suc k) c)) at
      (rw (copy_step c (rw at ok.0) k d (rw at e) ne) (
        Copied-cons c (rw at ok.0) cs _
          (while_loop-Copied k (next_copy c) d (rw at e) s ok.1 (omega arith))))

-- Two buffers that hold the same clusters hold the same bytes.
pub Holds-agree :
    (disk b b' : Bytes) (p p' : ℕ) (cs : List ℕ)
    → Holds disk b p cs
    → Holds disk b' p' cs
    → (q : ℕ) → q < length cs * cluster_size
    → b (p + q) ≡ b' (p' + q)
Holds-agree disk b b' p p' [] h h' q lt = absurd (omega arith)
Holds-agree disk b b' p p' (c ∷ cs) h h' q lt = elim (dec_lt q cluster_size) [
  | yes l ↦ h.0 q l ∙ sym (h'.0 q l)
  | no g ↦
      let e : p + q ≡ p + cluster_size + (q - cluster_size) = omega arith in
      let e' : p' + q ≡ p' + cluster_size + (q - cluster_size) = omega arith in
      rw (e, e')
        (Holds-agree disk b b' (p + cluster_size) (p' + cluster_size) cs h.1 h'.1 (q - cluster_size)
          (omega arith))
]
