-- ===== src/Fat32/Space.antt =====
-- How many clusters of the table are free (src/fat32.c), and what an allocation does to that.
use if2230_2023_oshiete.Common.{
  ℕ, zero, suc, ◌+◌, ◌≤◌, ◌<◌, ◌≡◌, ◌≢◌, refl, arith, Bytes, ◌==◌, ne→==, if◌then◌else◌, leb, ltb,
  ◌&&◌,
}
use native.Mathlib.Decide.{dec_lt, ℕ_discrete}
use if2230_2023_oshiete.Fat32.Layout.{cluster_map}
use if2230_2023_oshiete.Fat32.Write.{find_empty_cluster}
use if2230_2023_oshiete.Fat32.Allocate.{find_empty_cluster-Scanned}

-- The free clusters among the k from i on.
unfoldable pub free_from : Bytes → ℕ → ℕ → ℕ
free_from m zero i = 0
free_from m (suc k) i = (if cluster_map m i == 0 then 1 else 0) + free_from m k (suc i)

-- The free clusters that findEmptyCluster may find, 3 to 511.
unfoldable pub free_count : Bytes → ℕ
free_count m = free_from m 509 3

free_from_none :
    (m : Bytes) (k i : ℕ)
    → ((j : ℕ) → i ≤ j → j < i + k → cluster_map m j ≢ 0)
    → free_from m k i ≡ 0
unfolding free_from
free_from_none m zero i h = refl
free_from_none m (suc k) i h =
    rw (ne→== (cluster_map m i) 0 (h i (omega arith) (omega arith)))
      (omega (arith, free_from_none m k (suc i) (λ j lo hi. h j (omega arith) (omega arith))))

-- A cluster that can be given to a file.
pub record IsFree (m : Bytes) (c : ℕ) : Type 0 where
  pub low : 3 ≤ c
  pub high : c < 512
  pub empty : cluster_map m c ≡ 0

-- While a cluster is free, findEmptyCluster finds one.
pub find_empty_cluster-IsFree : (m : Bytes) → 0 < free_count m → IsFree m (find_empty_cluster m)
unfolding free_count
find_empty_cluster-IsFree m pos =
    let (low, high, zero_at, rest) = find_empty_cluster-Scanned m in
    elim (dec_lt (find_empty_cluster m) 512) [
      | yes lt ↦ record { low = low; high = lt; empty = zero_at lt }
      | no ge ↦ absurd (omega (arith, free_from_none m 509 3 (λ j lo hi. rest j lo (omega arith))))
    ]

-- Table m' differs from m, as to which clusters are free, in cluster c alone, which it has taken.
pub record Takes (m : Bytes) (c : ℕ) (m' : Bytes) : Type 0 where
  pub before : cluster_map m c ≡ 0
  pub after : cluster_map m' c ≢ 0
  pub others : (j : ℕ) → j ≢ c → (cluster_map m' j == 0) ≡ (cluster_map m j == 0)

free_from-Takes :
    {m m' : Bytes} {c : ℕ} (k i : ℕ)
    → Takes m c m'
    → free_from m k i ≡ free_from m' k i + (if leb i c && ltb c (i + k) then 1 else 0)
unfolding free_from
free_from-Takes zero i t = ground arith
free_from-Takes {m} {m'} {c} (suc k) i t = elim (ℕ_discrete i c) [
  | yes e ↦ ground (arith, free_from-Takes k (suc i) t, t.before, t.after)
  | no ne ↦ rw (t.others i ne) (ground (arith, free_from-Takes k (suc i) t))
]

-- Taking a cluster leaves one free cluster less.
pub free_count-Takes :
    {m m' : Bytes} {c : ℕ} → Takes m c m' → IsFree m c → free_count m ≡ suc (free_count m')
unfolding free_count
free_count-Takes t f = ground (arith, free_from-Takes 509 3 t)
