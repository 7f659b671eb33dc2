-- ===== src/Fat32/Refuse.antt =====
-- What `delete` (src/fat32.c) does not delete.
use if2230_2023_oshiete.Common.{
  ℕ, suc, ◌+◌, ◌<◌, ◌≡◌, ◌∙◌, subst, Bytes, Bool, true, false, ◌&&◌, some, again, return, for_loop,
  for_loop_skip, for_loop-return, while_loop, eq→==, ap, ◌^◌, copy, ◌*◌, ◌%◌, arith,
}
use if2230_2023_oshiete.Disk.{block_at, read_blocks}
use if2230_2023_oshiete.Fat32.Layout.{
  attr_subdirectory, attribute, undelete, user_attribute, entry_cluster,
}
use if2230_2023_oshiete.Fat32.Init.{zeros}
use if2230_2023_oshiete.Fat32.Driver.{
  Fs, Request, load_fat, load_dir, read_clusters, cluster_to_lba,
}
use if2230_2023_oshiete.Fat32.Directory.{buf_entry, same_name, same_ext}
use if2230_2023_oshiete.Fat32.Delete.{
  Place, folder_in_use, delete_found, delete_entry, delete_table, delete,
}

-- The entry e is in use under the name and the extension of the request.
abbrev pub matches : Request → Bytes → ℕ → Bool
matches rq m e = same_ext m e rq && same_name m e rq && undelete m e

module _ (fuel : ℕ) (rq : Request) (s : Place) where
  pub delete_entry-skip :
      (i : ℕ) → matches rq s.fs.driver (buf_entry i) ≡ false → delete_entry fuel rq i s ≡ again s
  unfolding delete_entry
  delete_entry-skip i h = rw h

  delete_entry-in_use :
      (i : ℕ)
      → matches rq s.fs.driver (buf_entry i) ≡ true
      → folder_in_use s.fs i ≡ true
      → delete_entry fuel rq i s ≡ return (2, s.fs)
  unfolding delete_entry delete_found
  delete_entry-in_use i h used = rw (h, used)

  delete_table-in_use :
      (n k : ℕ)
      → n + suc k ≡ 63
      → ((i : ℕ) → i < n → matches rq s.fs.driver (buf_entry (1 + i)) ≡ false)
      → matches rq s.fs.driver (buf_entry (1 + n)) ≡ true
      → folder_in_use s.fs (1 + n) ≡ true
      → delete_table fuel rq s ≡ return (2, s.fs)
  unfolding delete_table
  delete_table-in_use n k total before here used = rw (
      subst (λ r. for_loop (delete_entry fuel rq) r 1 s ≡ return (2, s.fs)) total
        (for_loop_skip (delete_entry fuel rq) n (suc k) 1 s
            (λ i lt. delete_entry-skip (1 + i) (before i lt))
          ∙ for_loop-return (delete_entry fuel rq) k (1 + n) s (2, s.fs)
              (delete_entry-in_use (1 + n) here used)))

-- The mark is byte 12 of the cluster on the medium.
read-mark :
    (fs : Fs) (c : ℕ)
    → c < 512
    → user_attribute (read_clusters fs.disk zeros 0 c 1) 0 ≡ fs.disk (c * 2048 + 12)
unfolding user_attribute read_clusters read_blocks block_at cluster_to_lba copy
read-mark fs c small =
    let at : c * 4 % 2 ^ 32 % 2 ^ 28 * 512 + 12 ≡ c * 2048 + 12 = omega arith in ap fs.disk at

folder_in_use-mark :
    (fs : Fs) (i : ℕ)
    → attribute fs.driver (buf_entry i) ≡ attr_subdirectory
    → entry_cluster fs.driver (buf_entry i) < 512
    → fs.disk (entry_cluster fs.driver (buf_entry i) * 2048 + 12) ≡ 170
    → folder_in_use fs i ≡ true
unfolding folder_in_use
folder_in_use-mark fs i folder small mark =
    let read = read-mark fs (entry_cluster fs.driver (buf_entry i)) small in
    ground (arith, folder, mark, read)

-- A directory that is not empty is not deleted: where the first entry of the directory's first table
-- that is in use under the name and extension is the n-th behind entry 0, and is a directory whose
-- cluster, below 512, has on the medium the byte 170 at offset 12, the user attribute of its first
-- entry, `delete` answers 2, and its state is that behind the two loads.
pub delete-in_use :
    (fuel n k : ℕ) (rq : Request) (fs : Fs)
    → let loaded = load_fat (load_dir fs rq.parent_cluster_number) in
      let cluster = entry_cluster loaded.driver (buf_entry (1 + n)) in
      attribute loaded.driver (buf_entry 0) ≡ attr_subdirectory
      → n + suc k ≡ 63
      → ((i : ℕ) → i < n → matches rq loaded.driver (buf_entry (1 + i)) ≡ false)
      → matches rq loaded.driver (buf_entry (1 + n)) ≡ true
      → attribute loaded.driver (buf_entry (1 + n)) ≡ attr_subdirectory
      → cluster < 512
      → fs.disk (cluster * 2048 + 12) ≡ 170
      → delete (suc fuel) rq fs ≡ some (2, loaded)
unfolding delete while_loop load_dir load_fat
delete-in_use fuel n k rq fs directory total before here folder small mark = rw (
  eq→== _ attr_subdirectory directory,
  delete_table-in_use (suc fuel) rq
      (record {
        fs = load_fat (load_dir fs rq.parent_cluster_number);
        current = rq.parent_cluster_number;
      })
      n k total before here
      (folder_in_use-mark (load_fat (load_dir fs rq.parent_cluster_number)) (1 + n) folder small
        mark),
)
