-- ===== src/Fat32/Free.antt =====
-- The loop of `delete` (src/fat32.c) that frees the clusters of a file or a directory.
use if2230_2023_oshiete.Common.{
  length, ℕ, zero, suc, ◌≤◌, ◌≡◌, ◌≢◌, ◌∙◌, ◌||◌, arith, Bytes, List, [], ◌∷◌, Bool, true, false,
  ◌==◌, ne→==, if◌then◌else◌, Step, leave, while_loop,
}
use if2230_2023_oshiete.Fat32.Layout.{end_of_file, cluster_map, set_cluster_map}
use if2230_2023_oshiete.Fat32.Driver.{Result}
use if2230_2023_oshiete.Fat32.Delete.{Freeing, free_next, free_chain}
use if2230_2023_oshiete.Fat32.Allocate.{cluster_map-set_cluster_map}

abbrev pub has : ℕ → List ℕ → Bool
has i [] = false
has i (c ∷ cs) = (i == c) || has i cs

-- The clusters from `c` on: the table leads from each to the next, no cluster twice, and behind the
-- last stands the end mark.
pub data IsChain (m : Bytes) : ℕ → List ℕ → Type 0 where
  last : {c : ℕ} → cluster_map m c ≡ end_of_file → IsChain m c (c ∷ [])
  link :
      {c d : ℕ} {cs : List ℕ}
      → cluster_map m c ≡ d
      → d ≢ end_of_file
      → has c cs ≡ false
      → IsChain m d cs
      → IsChain m c (c ∷ cs)

-- Another table with the same entries on the chain has the chain.
pub IsChain-frame :
    {m m' : Bytes} {c : ℕ} {cs : List ℕ}
    → IsChain m c cs
    → ((i : ℕ) → has i cs ≡ true → cluster_map m' i ≡ cluster_map m i)
    → IsChain m' c cs
IsChain-frame (last {c} e) same = last (same c (ground arith) ∙ e)
IsChain-frame (link {c} e ne out s) same =
    link (same c (ground arith) ∙ e) ne out (IsChain-frame s λ i h. same i (ground arith))

abbrev pub Freed : Bytes → List ℕ → Step Freeing Result → Type 0
Freed m cs r =
    (m' : Bytes) × (r ≡ leave (record { map = m'; next_cluster_number = end_of_file }))
    × ((i : ℕ) → cluster_map m' i ≡ (if has i cs then 0 else cluster_map m i))

pub freed_here :
    (m : Bytes) (c i : ℕ)
    → cluster_map (set_cluster_map m c 0) i ≡ (if i == c then 0 else cluster_map m i)
freed_here m c i = cluster_map-set_cluster_map m c i 0 (omega arith)

-- The loop ends in its test at the end mark.
free_last :
    (k : ℕ) (m : Bytes) (c : ℕ)
    → cluster_map m c ≡ end_of_file
    → Freed m (c ∷ []) (free_chain (suc k) m c)
unfolding free_chain free_next while_loop
free_last k m c e = (set_cluster_map m c 0, rw e, λ i. ground (arith, freed_here m c i))

-- A round with a cluster to come is the start of the loop at that cluster.
pub free_step :
    (k : ℕ) (m : Bytes) (c d : ℕ)
    → cluster_map m c ≡ d
    → d ≢ end_of_file
    → free_chain (suc k) m c ≡ free_chain k (set_cluster_map m c 0) d
unfolding free_chain free_next while_loop
free_step k m c d e ne = rw (e, ne→== d end_of_file ne)

Freed-cons :
    (m : Bytes) (c : ℕ) (cs : List ℕ) (r : Step Freeing Result)
    → Freed (set_cluster_map m c 0) cs r
    → Freed m (c ∷ cs) r
Freed-cons m c cs r (m', e, at) = (m', e, λ i. ground (arith, at i, freed_here m c i))

-- With fuel for every cluster the loop ends, and the entries of exactly the chain's clusters have
-- become 0.
pub free_chain-Freed :
    (fuel : ℕ) (m : Bytes) {c : ℕ} {cs : List ℕ}
    → IsChain m c cs
    → length cs ≤ fuel
    → Freed m cs (free_chain fuel m c)
free_chain-Freed zero m (last e) enough = absurd (omega arith)
free_chain-Freed zero m (link e ne out s) enough = absurd (omega arith)
free_chain-Freed (suc k) m (last {c} e) enough = free_last k m c e
free_chain-Freed (suc k) m (link {c} {d} {cs} e ne out s) enough = rw (free_step k m c d e ne) (
    Freed-cons m c cs _ (
      free_chain-Freed k (set_cluster_map m c 0)
        (IsChain-frame s λ i h. ground (arith, freed_here m c i)) (omega arith)))
