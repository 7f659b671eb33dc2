-- ===== src/Fat32/Folder.antt =====
-- The making of a directory by `write` (src/fat32.c): its own table, its entry in the parent, and
-- the end of its chain.
use if2230_2023_oshiete.Common.{ℕ, ◌+◌, ◌*◌, ◌%◌, ◌≤◌, ◌<◌, ◌≡◌, ◌≢◌, Bytes, true, put8, copy}
use if2230_2023_oshiete.Fat32.Layout.{
  cluster_size, end_of_file, attr_subdirectory, uattr_not_empty, entry_size, dir_table_buf,
  fat_table, attribute, undelete, entry_cluster, cluster_map, set_cluster_map,
}
use if2230_2023_oshiete.Fat32.Driver.{Fs, Request}
use if2230_2023_oshiete.Fat32.Directory.{buf_entry}
use if2230_2023_oshiete.Fat32.Reload.{IsSaved}

-- An entry at e of m for a directory in use, with the bytes of the name and the cluster c.
pub record NamesFolder (m : Bytes) (e : ℕ) (name : Bytes) (c : ℕ) : Type 0 where
  pub named : (q : ℕ) → q < 8 → m (e + q) ≡ name q % 256
  pub directory : attribute m e ≡ attr_subdirectory
  pub used : undelete m e ≡ true
  pub cluster : entry_cluster m e ≡ c

-- From the state fs to fs', the directory of the request was made in cluster c, with entry j of the
-- parent's table.
pub record HasMade (rq : Request) (fs fs' : Fs) (c j : ℕ) : Type 0 where
  pub ended : cluster_map fs'.driver c ≡ end_of_file
  pub kept : (i : ℕ) → i < 512 → i ≢ c → cluster_map fs'.driver i ≡ cluster_map fs.driver i
  pub entry : NamesFolder fs'.driver (buf_entry j) rq.name c
  pub table : NamesFolder fs'.disk (c * cluster_size) rq.name rq.parent_cluster_number
  pub other :
      (i k : ℕ)
      → 1 ≤ i
      → i ≢ j
      → k < entry_size
      → fs'.driver (buf_entry i + k) ≡ fs.driver (buf_entry i + k)
  pub marked : fs'.driver (buf_entry 0 + 12) ≡ uattr_not_empty
  pub parent_saved : IsSaved fs' dir_table_buf rq.parent_cluster_number
  pub fat_saved : IsSaved fs' fat_table 1

-- The driver's state once the mark, the entry and the end of the chain are written.
abbrev with_folder : Bytes → Bytes → ℕ → ℕ → Bytes
with_folder m entry j c =
    set_cluster_map
      (copy (put8 m (buf_entry 0 + 12) uattr_not_empty) (buf_entry j) entry 0 entry_size) c
      end_of_file
