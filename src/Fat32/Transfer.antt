-- ===== src/Fat32/Transfer.antt =====
-- What the cluster transfers of src/fat32.c do to the medium and to the driver's state.
use if2230_2023_oshiete.Common.{
  ℕ, ◌+◌, ◌*◌, ◌%◌, ◌^◌, ◌<◌, ◌≡◌, refl, ◌∙◌, arith, Bytes, copy, copy_in, copy_below, copy_above,
  ◌==◌, eq→==, ne→==, if◌then◌else◌,
}
use native.Mathlib.Decide.{ℕ_discrete, dec_lt}
use if2230_2023_oshiete.Fat32.Layout.{cluster_size}
use if2230_2023_oshiete.Fat32.Driver.{cluster_to_lba, read_clusters, write_clusters}
use if2230_2023_oshiete.Disk.{block_at, read_blocks, write_blocks}

-- A cluster that the 28 bits of a block address reach.
abbrev pub IsCluster : ℕ → Type 0
IsCluster c = c < 2 ^ 26

pub write_clusters-copy :
    (disk m : Bytes) (p c : ℕ)
    → IsCluster c
    → write_clusters disk m p c 1 ≡ copy disk (c * cluster_size) m p cluster_size
unfolding write_clusters write_blocks block_at cluster_to_lba
write_clusters-copy disk m p c h =
    let e : c * 4 % 2 ^ 32 % 2 ^ 28 * 512 ≡ c * 2048 = omega arith in rw e

pub read_clusters-copy :
    (disk m : Bytes) (p c : ℕ)
    → IsCluster c
    → read_clusters disk m p c 1 ≡ copy m p disk (c * cluster_size) cluster_size
unfolding read_clusters read_blocks block_at cluster_to_lba
read_clusters-copy disk m p c h =
    let e : c * 4 % 2 ^ 32 % 2 ^ 28 * 512 ≡ c * 2048 = omega arith in rw e

-- What a write of cluster c leaves at a place of the medium.
pub write_clusters_at :
    (disk m : Bytes) (p c d i : ℕ)
    → IsCluster c
    → i < cluster_size
    → write_clusters disk m p c 1 (d * cluster_size + i)
      ≡ (if d == c then m (p + i) else disk (d * cluster_size + i))
write_clusters_at disk m p c d i h lt =
    rw (write_clusters-copy disk m p c h) (at_place (ℕ_discrete d c))
  where
    at_place :
        Dec (d ≡ c)
        → copy disk (c * cluster_size) m p cluster_size (d * cluster_size + i)
          ≡ (if d == c then m (p + i) else disk (d * cluster_size + i))
    at_place (yes e) =
        rw (e, eq→== c c refl) (copy_in disk (c * cluster_size) m p cluster_size i lt)
    at_place (no ne) = rw (ne→== d c ne) (elim (dec_lt d c) [
      | yes l ↦ copy_below disk (c * cluster_size) m p cluster_size _ (omega arith)
      | no g ↦ copy_above disk (c * cluster_size) m p cluster_size _ (omega arith)
    ])

-- What a read of cluster d gives.
pub read_clusters_at :
    (disk m : Bytes) (q d i : ℕ)
    → IsCluster d
    → i < cluster_size
    → read_clusters disk m q d 1 (q + i) ≡ disk (d * cluster_size + i)
read_clusters_at disk m q d i h lt =
    rw (read_clusters-copy disk m q d h) (copy_in m q disk (d * cluster_size) cluster_size i lt)

-- Of two transfers of one cluster each, a read behind a write gives the bytes written if the
-- clusters are the same, and what the medium held before if they are not.
pub read_clusters-write_clusters :
    (disk m m' : Bytes) (p q c d i : ℕ)
    → IsCluster c
    → IsCluster d
    → i < cluster_size
    → read_clusters (write_clusters disk m p c 1) m' q d 1 (q + i)
      ≡ (if d == c then m (p + i) else disk (d * cluster_size + i))
read_clusters-write_clusters disk m m' p q c d i hc hd lt =
    read_clusters_at (write_clusters disk m p c 1) m' q d i hd lt
    ∙ write_clusters_at disk m p c d i hc lt
