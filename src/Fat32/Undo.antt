-- ===== src/Fat32/Undo.antt =====
-- `delete` behind `write` (src/fat32.c), of one file.
use if2230_2023_oshiete.Common.{ℕ, suc, ◌<◌, ◌≡◌, refl, ◌∙◌, arith, Bool, true, false, ◌&&◌, some}
use if2230_2023_oshiete.Fat32.Layout.{fat_table, dir_table_buf, undelete, cluster_map}
use if2230_2023_oshiete.Fat32.Driver.{Fs, Request, load_fat, load_dir, save_dir}
use if2230_2023_oshiete.Fat32.Directory.{buf_entry, same_name, same_ext}
use if2230_2023_oshiete.Fat32.Write.{write}
use if2230_2023_oshiete.Fat32.Delete.{delete}
use if2230_2023_oshiete.Fat32.Create.{write-file}
use if2230_2023_oshiete.Fat32.Reload.{IsSaved}
use if2230_2023_oshiete.Fat32.File
use if2230_2023_oshiete.Fat32.File.{CanMake}
use if2230_2023_oshiete.Fat32.Remove.{delete-HoldsFile}

matches-not_taken :
    (name ext used : Bool) → (name && ext && used) ≡ false → (ext && name && used) ≡ false
matches-not_taken false false used h = refl
matches-not_taken false true used h = refl
matches-not_taken true false used h = refl
matches-not_taken true true used h = h

-- `delete` undoes `write`. Where a request for a file of n clusters, 1 to 256, can be met, `write`
-- answers 0, and `delete` of the same name, extension and directory, from the state that `write`
-- leaves, answers 0: every cluster of the table is as before the two, free or taken, the entry is
-- unused again, and the tables in the driver's state are those on the medium. Fuel for n + 1 rounds
-- is enough for both.
pub delete-write :
    (fuel n : ℕ) (rq : Request) (fs : Fs) (j : ℕ)
    → let loaded = load_dir (load_fat fs) rq.parent_cluster_number in
      CanMake rq loaded j n
      → n < suc fuel
      → (fs1 fs2 : Fs) × (write (suc fuel) rq fs ≡ some (0, fs1))
        × (delete (suc fuel) rq fs1 ≡ some (0, fs2))
        × ((i : ℕ) → i < 512 → cluster_map fs2.driver i ≡ cluster_map loaded.driver i)
        × (undelete fs2.driver (buf_entry j) ≡ false)
        × IsSaved fs2 dir_table_buf rq.parent_cluster_number
        × IsSaved fs2 fat_table 1
unfolding save_dir
delete-write fuel n rq fs j can enough =
    let (c, cs, written, count, stored) =
      write-file fuel n rq fs j can.directory can.single can.room can.above can.below can.some_left
        can.counts can.space enough in
    let fs1 = save_dir c.fs rq.parent_cluster_number in
    let (fs2, answer, deleted) =
      delete-HoldsFile fuel rq fs1 j cs (File.written-HoldsFile can stored rq.buffer_size c.fs.buf)
        can.not_table (omega (arith, count))
        (λ i lo hi.
          matches-not_taken (same_name c.fs.driver (buf_entry i) rq)
            (same_ext c.fs.driver (buf_entry i) rq) (undelete c.fs.driver (buf_entry i))
            (File.not_taken can stored i lo hi)) in
    (
      fs1,
      fs2,
      written,
      answer,
      λ i lt. deleted.freed i lt ∙ File.table_again can stored i lt,
      deleted.unused,
      deleted.table_saved,
      deleted.fat_saved,
    )
