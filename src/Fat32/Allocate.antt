-- ===== src/Fat32/Allocate.antt =====
-- findEmptyCluster of src/fat32.c: its result, and the table that `write` updates with it.
use if2230_2023_oshiete.Common.{
  ℕ, zero, suc, ◌+◌, ◌*◌, ◌^◌, ◌≤◌, ◌<◌, ◌≡◌, ◌≢◌, arith, Bytes, get32-put32, get32-put32_ne,
  get32-put32_ne', ◌==◌, eq→==, ne→==, lt→ltb, if◌then◌else◌, refl,
}
use native.Mathlib.Decide.{ℕ_discrete, dec_lt}
use if2230_2023_oshiete.Fat32.Layout.{cluster_map, set_cluster_map, cluster_map_size}
use if2230_2023_oshiete.Fat32.Write.{find_from, find_empty_cluster}

-- An assignment to one entry of the table changes that entry alone.
pub cluster_map-set_cluster_map :
    (m : Bytes) (i j v : ℕ)
    → v < 2 ^ 32
    → cluster_map (set_cluster_map m i v) j ≡ (if j == i then v else cluster_map m j)
unfolding cluster_map set_cluster_map
cluster_map-set_cluster_map m i j v h = entry (ℕ_discrete j i)
  where
    entry :
        Dec (j ≡ i)
        → cluster_map (set_cluster_map m i v) j ≡ (if j == i then v else cluster_map m j)
    entry (yes e) = rw (e, eq→== i i refl) (get32-put32 m (i * 4) v h)
    entry (no ne) = rw (ne→== j i ne) (elim (dec_lt i j) [
      | yes l ↦ get32-put32_ne m (i * 4) (j * 4) v (omega arith)
      | no g ↦ get32-put32_ne' m (i * 4) (j * 4) v (omega arith)
    ])

-- The result of the scan from i on with k rounds, as far as the rounds reach.
abbrev pub Scanned : Bytes → ℕ → ℕ → ℕ → Type 0
Scanned m i end r =
    (i ≤ r)
    × (r ≤ end)
    × (r < end → cluster_map m r ≡ 0)
    × ((j : ℕ) → i ≤ j → j < r → cluster_map m j ≢ 0)

find_from-Scanned :
    (m : Bytes) (k i : ℕ)
    → i + k ≡ cluster_map_size
    → Scanned m i cluster_map_size (find_from m k i)
unfolding find_from
find_from-Scanned m zero i e =
    (omega arith, omega arith, λ h. absurd (omega arith), λ j lo hi. absurd (omega arith))
find_from-Scanned m (suc k) i e = elim (ℕ_discrete (cluster_map m i) 0) [
  | yes z ↦
      rw (eq→== (cluster_map m i) 0 z)
        (omega arith, omega arith, λ h. z, λ j lo hi. absurd (omega arith))
  | no nz ↦
      let later = find_from-Scanned m k (suc i) (omega arith) in
      rw (ne→== (cluster_map m i) 0 nz, lt→ltb i cluster_map_size (omega arith))
        (
          omega arith,
          omega arith,
          later.2,
          λ j lo hi. elim (ℕ_discrete i j) [
            | yes same ↦ rw same at nz
            | no other ↦ later.3 j (omega arith) hi
          ],
        )
]

-- findEmptyCluster ends with the first free cluster from 3 on, and with 512, which is no cluster
-- of the table, exactly when there is none.
pub find_empty_cluster-Scanned : (m : Bytes) → Scanned m 3 cluster_map_size (find_empty_cluster m)
unfolding find_empty_cluster
find_empty_cluster-Scanned m = find_from-Scanned m 509 3 refl
