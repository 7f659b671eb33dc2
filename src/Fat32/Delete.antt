-- ===== src/Fat32/Delete.antt =====
-- The operation `delete` of src/fat32.c.
use if2230_2023_oshiete.Common.{
  ℕ, ◌+◌, ◌-◌, Bytes, put8, clear, Bool, true, false, ◌&&◌, ◌==◌, if◌then◌else◌, Option, Step,
  again, leave, return, for_loop, while_loop, and_then,
}
use if2230_2023_oshiete.Fat32.Layout.{
  end_of_file, attr_subdirectory, uattr_not_empty, entry_size, table_length, attribute,
  user_attribute, undelete, entry_cluster, cluster_map, set_cluster_map,
}
use if2230_2023_oshiete.Fat32.Driver.{
  Fs, Request, Result, result, code_unknown, read_clusters, load_fat, save_fat, load_dir, save_dir,
}
use if2230_2023_oshiete.Fat32.Directory.{buf_entry, same_name, same_ext}
use if2230_2023_oshiete.Fat32.Init.{zeros}

-- The variables of the loop that frees a chain.
pub record Freeing : Type 0 where
  pub map : Bytes
  pub next_cluster_number : ℕ

-- One round of `while (next_cluster_number != FAT32_FAT_END_OF_FILE)`.
unfoldable pub free_next : Freeing → Step Freeing Result
free_next f =
    if f.next_cluster_number == end_of_file
    then leave f
    else again (record {
      map = set_cluster_map f.map f.next_cluster_number 0;
      next_cluster_number = cluster_map f.map f.next_cluster_number;
    })

-- The clusters from `cluster` on are set to 0 in the table.
unfoldable pub free_chain : ℕ → Bytes → ℕ → Step Freeing Result
free_chain fuel m cluster =
    while_loop free_next fuel
      (record { map = set_cluster_map m cluster 0; next_cluster_number = cluster_map m cluster })

-- The variables of the loop that looks for a used entry in the directory.
pub record Emptiness : Type 0 where
  pub fs : Fs
  pub current : ℕ
  pub not_empty : Bool

unfoldable pub see_entry : ℕ → Emptiness → Step Emptiness Result
see_entry i s =
    if undelete s.fs.driver (buf_entry i) then leave (record s { not_empty = true }) else again s

-- One round of `while (!check_all_dir_table)`, which reads further tables into the buffer.
unfoldable pub see_table : Emptiness → Step Emptiness Result
see_table s = and_then (for_loop see_entry (table_length - 1) 1 s) λ s.
    let next = cluster_map s.fs.driver s.current in
    if s.not_empty
    then leave s
    else (if next == end_of_file
        then leave s
        else again (record s { fs = load_dir s.fs next; current = next }))

-- The end of delete: the entry is zeroed in the buffer, the directory is looked through, the mark
-- of its first entry is cleared if nothing was found, and the buffer and the table are written.
unfoldable pub drop_entry : ℕ → Request → ℕ → Fs → Step ℕ Result
drop_entry fuel rq i fs =
    let start : Emptiness = record {
      fs = record fs { driver = clear fs.driver (buf_entry i) entry_size };
      current = rq.parent_cluster_number;
      not_empty = false;
    } in
    and_then (while_loop see_table fuel start) λ s.
      let fs =
        if s.not_empty
        then s.fs
        else record (s.fs) { driver = put8 s.fs.driver (buf_entry 0 + 12) 0 } in
      return (0, save_fat (save_dir fs rq.parent_cluster_number))

-- The first cluster of the directory that entry i names, read into a local table.
unfoldable pub folder_in_use : Fs → ℕ → Bool
folder_in_use fs i =
    attribute fs.driver (buf_entry i) == attr_subdirectory
    && user_attribute (read_clusters fs.disk zeros 0 (entry_cluster fs.driver (buf_entry i)) 1) 0
      == uattr_not_empty

-- The entry i is the one asked for.
unfoldable pub delete_found : ℕ → Request → ℕ → Fs → Step ℕ Result
delete_found fuel rq i fs =
    let freed = free_chain fuel fs.driver (entry_cluster fs.driver (buf_entry i)) in
    let dropped : Step ℕ Result =
      and_then freed λ f. drop_entry fuel rq i (record fs { driver = f.map }) in
    if folder_in_use fs i then return (2, fs) else dropped

-- The variables of the loops over the tables and entries.
pub record Place : Type 0 where
  pub fs : Fs
  pub current : ℕ

unfoldable pub delete_entry : ℕ → Request → ℕ → Place → Step Place Result
delete_entry fuel rq i s =
    let m = s.fs.driver in
    let deleted : Step Place Result = and_then (delete_found fuel rq i s.fs) (λ _. leave s) in
    if same_ext m (buf_entry i) rq && same_name m (buf_entry i) rq && undelete m (buf_entry i)
    then deleted
    else again s

unfoldable pub delete_table : ℕ → Request → Place → Step Place Result
delete_table fuel rq s = and_then (for_loop (delete_entry fuel rq) (table_length - 1) 1 s) λ s.
    let next = cluster_map s.fs.driver s.current in
    if next == end_of_file
    then leave s
    else again (record { fs = load_dir s.fs next; current = next })

unfoldable pub delete : ℕ → Request → Fs → Option Result
delete fuel rq fs =
    let fs = load_fat (load_dir fs rq.parent_cluster_number) in
    let start : Place = record { fs = fs; current = rq.parent_cluster_number } in
    let deleted = while_loop (delete_table fuel rq) fuel start in
    let refused : Step Place Result = return (code_unknown, fs) in
    result (if attribute fs.driver (buf_entry 0) == attr_subdirectory then deleted else refused)
      (λ s. (1, s.fs))
