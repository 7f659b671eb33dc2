-- ===== src/Fat32/Reload.antt =====
-- When the driver's state (src/fat32.c) and the medium are in step: a load then changes nothing.
use if2230_2023_oshiete.Common.{
  ℕ, ◌+◌, ◌-◌, ◌*◌, ◌<◌, ◌≡◌, ◌≢◌, refl, sym, ap, ◌∙◌, fun_ext, arith, Bytes, copy_in, copy_below,
  copy_above, ne→==, eq→==,
}
use native.Mathlib.Decide.{dec_lt}
use if2230_2023_oshiete.Fat32.Layout.{cluster_size, fat_table, dir_table_buf}
use if2230_2023_oshiete.Fat32.Driver.{Fs, read_clusters, load_fat, load_dir, save_dir}
use if2230_2023_oshiete.Fat32.Transfer.{IsCluster, read_clusters-copy, write_clusters_at}

-- Cluster c of the medium holds the bytes of the driver's state from p on.
abbrev pub IsSaved : Fs → ℕ → ℕ → Type 0
IsSaved fs p c = (i : ℕ) → i < cluster_size → fs.disk (c * cluster_size + i) ≡ fs.driver (p + i)

read_clusters-IsSaved :
    (fs : Fs) (p c : ℕ)
    → IsCluster c
    → IsSaved fs p c
    → read_clusters fs.disk fs.driver p c 1 ≡ fs.driver
read_clusters-IsSaved fs p c ok saved =
    read_clusters-copy fs.disk fs.driver p c ok
    ∙ fun_ext λ q. elim (dec_lt q p) [
      | yes l ↦ copy_below fs.driver p fs.disk (c * cluster_size) cluster_size q l
      | no g ↦ elim (dec_lt q (p + cluster_size)) [
        | no g' ↦ copy_above fs.driver p fs.disk (c * cluster_size) cluster_size q (omega arith)
        | yes l ↦
            let e : q ≡ p + (q - p) = omega arith in
            rw e (
              copy_in fs.driver p fs.disk (c * cluster_size) cluster_size (q - p) (omega arith)
              ∙ saved (q - p) (omega arith))
      ]
    ]

pub load_dir-IsSaved :
    (fs : Fs) (c : ℕ) → IsCluster c → IsSaved fs dir_table_buf c → load_dir fs c ≡ fs
unfolding load_dir
load_dir-IsSaved fs c ok saved =
    ap (λ (m : Bytes). record fs { driver = m }) (read_clusters-IsSaved fs dir_table_buf c ok saved)

pub load_fat-IsSaved : (fs : Fs) → IsSaved fs fat_table 1 → load_fat fs ≡ fs
unfolding load_fat
load_fat-IsSaved fs saved =
    ap (λ (m : Bytes). record fs { driver = m })
      (read_clusters-IsSaved fs fat_table 1 (omega arith) saved)

pub save_dir-IsSaved : (fs : Fs) (c : ℕ) → IsCluster c → IsSaved (save_dir fs c) dir_table_buf c
unfolding save_dir
save_dir-IsSaved fs c ok i lt =
    write_clusters_at fs.disk fs.driver dir_table_buf c c i ok lt ∙ rw (eq→== c c refl)

-- A table of a directory goes to a cluster of its own.
pub save_dir-other :
    (fs : Fs) (c d i : ℕ)
    → IsCluster c
    → d ≢ c
    → i < cluster_size
    → (save_dir fs c).disk (d * cluster_size + i) ≡ fs.disk (d * cluster_size + i)
unfolding save_dir
save_dir-other fs c d i ok ne lt =
    write_clusters_at fs.disk fs.driver dir_table_buf c d i ok lt ∙ rw (ne→== d c ne)

pub save_dir-IsSaved_fat :
    (fs : Fs) (c : ℕ)
    → IsCluster c
    → c ≢ 1
    → IsSaved fs fat_table 1
    → IsSaved (save_dir fs c) fat_table 1
unfolding save_dir
save_dir-IsSaved_fat fs c ok ne saved i lt =
    save_dir-other fs c 1 i ok (λ e. ne (sym e)) lt ∙ saved i lt
