-- ===== src/Fat32/Move.antt =====
-- The operations rename_dir and move_dir of src/fat32.c.
use if2230_2023_oshiete.Common.{
  ℕ, ◌+◌, ◌-◌, Bytes, put8, put32, copy, Bool, true, false, ◌&&◌, ◌==◌, not, if◌then◌else◌, Option,
  none, some, Step, again, leave, return, for_loop, while_loop, and_then,
}
use if2230_2023_oshiete.Mem.{memcpy}
use if2230_2023_oshiete.Fat32.Layout.{
  end_of_file, entry_size, table_length, entry_at, attribute, user_attribute, undelete, filesize,
  entry_cluster, set_entry_cluster, cluster_map, set_cluster_map,
}
use if2230_2023_oshiete.Fat32.Driver.{
  Fs, Request, Result, result, read_clusters, write_clusters, load_fat, save_fat, now, tick,
  stamp_create, init_directory_table,
}
use if2230_2023_oshiete.Fat32.Directory.{read_directory, same_name}
use if2230_2023_oshiete.Fat32.Init.{zeros}
use if2230_2023_oshiete.Fat32.Write.{find_empty_cluster}

-- The entry that both build: the given name and extension, the cluster of the directory, and the
-- size and attributes of the first entry of its table, which the buffer holds.
unfoldable pub new_entry : Fs → Bytes → ℕ → Bytes → ℕ → ℕ → Bytes
new_entry fs names p exts q cluster =
    let m = memcpy zeros 0 names p 8 in
    let m = memcpy m 8 exts q 3 in
    let m = set_entry_cluster m 0 cluster in
    let m = put32 m 28 (filesize fs.buf 0) in
    let m = put8 m 11 (attribute fs.buf 0) in
    let m = put8 m 12 (user_attribute fs.buf 0) in let m = put8 m 13 1 in stamp_create m 0 (now fs)

-- The variables of the loops: the state, the local table, the cluster in hand and `recheck`.
pub record Hunt : Type 0 where
  pub fs : Fs
  pub table : Bytes
  pub cluster : ℕ
  pub recheck : Bool

-- The local table is cleared and read.
unfoldable pub fetch : Hunt → Hunt
fetch h = record h { table = read_clusters h.fs.disk zeros 0 h.cluster 1 }

-- At entry 63, where the table is not the last: the next one is to be looked through.
unfoldable pub step_on : ℕ → Hunt → Hunt
step_on i h =
    let next = cluster_map h.fs.driver h.cluster in
    if i == 63 && not (next == end_of_file) then record h { cluster = next; recheck = true } else h

-- The loops that look for the name of the request, and what they do to the entry found.
unfoldable pub hunt_entry : (Bytes → ℕ → Bytes) → Request → ℕ → Hunt → Step Hunt Result
hunt_entry change rq i h =
    if same_name h.table (entry_at 0 i) rq
    then leave (record h { table = change h.table (entry_at 0 i); recheck = false })
    else again (step_on i h)

-- `do ... while (recheck)` round one loop over the entries.
abbrev pub until_settled : Step Hunt Result → Step Hunt Result
until_settled r = and_then r λ h. if h.recheck then again h else leave h

unfoldable pub hunt_table : (Bytes → ℕ → Bytes) → Request → Hunt → Step Hunt Result
hunt_table change rq h =
    until_settled (for_loop (hunt_entry change rq) (table_length - 1) 1 (fetch h))

unfoldable pub hunt : ℕ → (Bytes → ℕ → Bytes) → Request → Fs → Step Hunt Result
hunt fuel change rq fs =
    while_loop (hunt_table change rq) fuel
      (record { fs = fs; table = zeros; cluster = rq.parent_cluster_number; recheck = false })

-- The local table goes back to the cluster in hand.
abbrev pub put_back : Hunt → Fs
put_back h = record (h.fs) { disk = write_clusters h.fs.disk h.table 0 h.cluster 1 }

-- Behind read_directory: an answer other than 0 is passed on.
unfoldable pub opened : Option Result → (Fs → Option Result) → Option Result
opened none f = none
opened (some (code, fs)) f = let rest = f fs in if code == 0 then rest else some (code, fs)

unfoldable pub rename_opened : ℕ → Request → Bytes → Fs → Option Result
rename_opened fuel rq new_name fs =
    let fs = load_fat fs in
    let entry = new_entry fs new_name 0 zeros 0 fs.found in
    let change = λ (t : Bytes) (e : ℕ). copy t e entry 0 entry_size in
    let replaced = hunt fuel change rq (tick fs) in
    result
      (and_then replaced λ h.
        let fs = put_back h in
        let buf = memcpy fs.buf 0 new_name 0 8 in
        return (0, record fs { buf = buf; disk = write_clusters fs.disk buf 0 fs.found 1 }))
      (λ (h : Hunt). (0, h.fs))

unfoldable pub rename_dir : ℕ → Request → Bytes → Fs → Option Result
rename_dir fuel rq new_name fs = opened (read_directory fuel rq fs) (rename_opened fuel rq new_name)

-- The directory that is moved to has no further table: one is made of an uninitialised local.
unfoldable pub extend_target : Hunt → Hunt
extend_target h =
    let parent = entry_cluster h.table 0 in
    let made = init_directory_table h.fs.stack 0 h.table 0 parent (now h.fs) in
    let index = find_empty_cluster h.fs.driver in
    let disk = write_clusters h.fs.disk made 0 index 1 in
    let m = set_cluster_map h.fs.driver h.cluster index in
    let m = set_cluster_map m index end_of_file in
    record h {
      fs = record (tick (h.fs)) { disk = disk; driver = m };
      cluster = index;
      recheck = true;
    }

-- One round of the loop that inserts the entry.
unfoldable pub insert_entry : Bytes → ℕ → Hunt → Step Hunt Result
insert_entry entry i h =
    if undelete h.table (entry_at 0 i)
    then again (
        if i == 63 && cluster_map h.fs.driver h.cluster == end_of_file
        then extend_target h
        else step_on i h)
    else leave
        (record h { table = copy h.table (entry_at 0 i) entry 0 entry_size; recheck = false })

unfoldable pub insert_table : Bytes → Hunt → Step Hunt Result
insert_table entry h = until_settled (for_loop (insert_entry entry) (table_length - 1) 1 (fetch h))

unfoldable pub insert : ℕ → Bytes → ℕ → Fs → Step Hunt Result
insert fuel entry cluster fs =
    while_loop (insert_table entry) fuel
      (record { fs = fs; table = zeros; cluster = cluster; recheck = false })

unfoldable pub move_opened : ℕ → Request → ℕ → Fs → Option Result
move_opened fuel rq new_cluster_number fs =
    let fs = load_fat fs in
    let entry = new_entry fs fs.buf 0 fs.buf 8 fs.found in
    let change = λ (t : Bytes) (e : ℕ). put8 t (e + 13) 0 in
    let removed = hunt fuel change rq (tick fs) in
    result
      (and_then removed λ h. and_then (insert fuel entry new_cluster_number (put_back h)) λ h.
        let fs = put_back h in
        let buf = set_entry_cluster fs.buf 0 h.cluster in
        let disk = write_clusters fs.disk buf 0 fs.found 1 in
        return (0, save_fat (record fs { buf = buf; disk = disk })))
      (λ (h : Hunt). (0, h.fs))

unfoldable pub move_dir : ℕ → Request → ℕ → Fs → Option Result
move_dir fuel rq new_cluster_number fs =
    opened (read_directory fuel rq fs) (move_opened fuel rq new_cluster_number)
