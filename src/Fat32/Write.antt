-- ===== src/Fat32/Write.antt =====
-- The operation `write` of src/fat32.c, and findEmptyCluster.
use if2230_2023_oshiete.Common.{
  ℕ, zero, suc, ◌+◌, ◌-◌, ◌*◌, ◌%◌, ◌^◌, Bytes, put8, put32, copy, Bool, true, false, ◌&&◌, ◌==◌,
  ltb, not, if◌then◌else◌, Option, none, some, Step, again, leave, return, for_loop, while_loop,
  and_then,
}
use if2230_2023_oshiete.Mem.{memcpy}
use if2230_2023_oshiete.Fat32.Layout.{
  cluster_size, cluster_map_size, end_of_file, attr_subdirectory, uattr_not_empty, entry_size,
  table_length, attribute, undelete, entry_cluster, set_entry_cluster, cluster_map, set_cluster_map,
}
use if2230_2023_oshiete.Fat32.Driver.{
  Fs, Request, Result, result, write_clusters, load_fat, save_fat, load_dir, save_dir, now, tick,
  stamp_create, init_directory_table,
}
use if2230_2023_oshiete.Fat32.Directory.{buf_entry, same_name, same_ext}
use if2230_2023_oshiete.Fat32.Init.{zeros}

-- The scan of findEmptyCluster from i on. Its own test i < 512 bounds the rounds.
unfoldable pub find_from : Bytes → ℕ → ℕ → ℕ
find_from m zero i = i
find_from m (suc k) i =
    let rest = find_from m k (suc i) in
    if not (cluster_map m i == 0) && ltb i cluster_map_size then rest else i

unfoldable pub find_empty_cluster : Bytes → ℕ
find_empty_cluster m = find_from m (cluster_map_size - 3) 3

-- The variables of `write`.
pub record Slot : Type 0 where
  pub fs : Fs
  pub cluster_index : ℕ
  pub found_entry : Bool
  pub entry : ℕ
  pub current_cluster_number : ℕ
  pub current_parent_cluster_number : ℕ

-- One round of the loop over the entries of a table: 1 if the name is taken; until an entry is
-- found, the entry in hand is taken if it is unused and not entry 0.
unfoldable pub check_entry : Bool → Request → ℕ → Slot → Step Slot Result
check_entry is_folder rq i s =
    let m = s.fs.driver in
    let e = buf_entry i in
    if is_folder
      && same_name m e rq
      && attribute m e == attr_subdirectory
      && undelete m e
      && not (i == 0)
    then return (1, s.fs)
    else (if not is_folder && same_name m e rq && same_ext m e rq && undelete m e && not (i == 0)
        then return (1, s.fs)
        else (if s.found_entry
            then again s
            else (if not (undelete m (buf_entry s.entry)) && not (s.entry == 0)
                then again (record s { found_entry = true })
                else again (record s { entry = s.entry + 1 }))))

-- No table of the directory has room: a further one is made of an uninitialised local, and linked
-- in. The buffer of the state is not read again.
unfoldable pub extend_directory : Slot → Slot
extend_directory s =
    let m = s.fs.driver in
    let parent = entry_cluster m (buf_entry 0) in
    let table = init_directory_table s.fs.stack 0 m (buf_entry 0) parent (now s.fs) in
    let disk = write_clusters s.fs.disk table 0 s.cluster_index 1 in
    let m = set_cluster_map m s.current_cluster_number s.cluster_index in
    let m = set_cluster_map m s.cluster_index end_of_file in
    record s {
      fs = record (tick (s.fs)) { disk = disk; driver = m };
      current_parent_cluster_number = s.cluster_index;
      cluster_index = find_empty_cluster m;
    }

-- Behind the loop over the entries.
unfoldable pub next_slot : Slot → Step Slot Result
next_slot s =
    let next = cluster_map s.fs.driver s.current_cluster_number in
    if not (next == end_of_file)
    then again (record s {
      fs = load_dir s.fs next;
      current_cluster_number = next;
      entry = if s.found_entry then s.entry else 0;
    })
    else (if s.found_entry then leave s else leave (extend_directory s))

unfoldable pub scan_table : Bool → Request → Slot → Step Slot Result
scan_table is_folder rq s =
    and_then (for_loop (check_entry is_folder rq) table_length 0 s) next_slot

-- The directory of the request: a table of its own, an entry, and a mark in the parent.
unfoldable pub write_folder : Request → Slot → Fs
write_folder rq s =
    let table = init_directory_table zeros 0 rq.name 0 rq.parent_cluster_number (now s.fs) in
    let disk = write_clusters s.fs.disk table 0 s.cluster_index 1 in
    let new_entry = set_entry_cluster table 0 s.cluster_index in
    let m = put8 s.fs.driver (buf_entry 0 + 12) uattr_not_empty in
    let m = copy m (buf_entry s.entry) new_entry 0 entry_size in
    let m = set_cluster_map m s.cluster_index end_of_file in
    let fs = record (tick (s.fs)) { disk = disk; driver = m } in
    save_fat (save_dir fs s.current_parent_cluster_number)

-- The fields of the new entry of a file.
unfoldable pub fill_entry : Request → Slot → Fs
fill_entry rq s =
    let e = buf_entry s.entry in
    let m = memcpy s.fs.driver e rq.name 0 8 in
    let m = memcpy m (e + 8) rq.ext 0 3 in
    let m = set_entry_cluster m e s.cluster_index in
    let m = put32 m (e + 28) rq.buffer_size in
    let m = put8 m (e + 11) 0 in
    let m = put8 m (e + 12) uattr_not_empty in
    let m = put8 m (e + 13) 1 in
    let m = stamp_create m e (now s.fs) in
    record (tick (s.fs)) { driver = put8 m (buf_entry 0 + 12) uattr_not_empty }

-- The variables of the loop that writes the clusters of a file; `previous` is none for -1.
pub record Chain : Type 0 where
  pub fs : Fs
  pub total_size : ℕ
  pub fragment_ctr : ℕ
  pub cluster_index : ℕ
  pub previous : Option ℕ

-- map[previous] = cluster_index, where there is a previous cluster; map[cluster_index] = EOF.
abbrev pub link_previous : Bytes → Option ℕ → ℕ → Bytes
link_previous m none c = m
link_previous m (some p) c = set_cluster_map m p c

unfoldable pub write_fragment : Chain → Fs
write_fragment c =
    let m =
      set_cluster_map (link_previous c.fs.driver c.previous c.cluster_index) c.cluster_index
        end_of_file in
    let fs = save_fat (record (c.fs) { driver = m }) in
    record fs {
      disk = write_clusters fs.disk fs.buf (c.fragment_ctr * cluster_size) c.cluster_index 1;
    }

-- One round: `total_size` is an int, and falls to 0 here where it falls to 0 or below there;
-- `fragment_ctr` is a uint8_t.
unfoldable pub write_round : Chain → Step Chain Result
write_round c =
    let fs = write_fragment c in
    let left = c.total_size - cluster_size in
    let c' = record c { fs = fs; total_size = left; fragment_ctr = (c.fragment_ctr + 1) % 256 } in
    if c.total_size == 0
    then leave c
    else (if left == 0
        then again (record c' { previous = none })
        else again (record c' {
          previous = some c.cluster_index;
          cluster_index = find_empty_cluster fs.driver;
        }))

-- A size of 2^31 or more is a negative int: the loop is not entered.
abbrev pub int_size : ℕ → ℕ
int_size n = if ltb n (2 ^ 31) then n else 0

unfoldable pub write_file : ℕ → Request → Slot → Step Fs Result
write_file fuel rq s =
    let start : Chain = record {
      fs = fill_entry rq s;
      total_size = int_size rq.buffer_size;
      fragment_ctr = 0;
      cluster_index = s.cluster_index;
      previous = none;
    } in
    and_then (while_loop write_round fuel start)
      λ c. leave (save_dir c.fs s.current_parent_cluster_number)

unfoldable pub write : ℕ → Request → Fs → Option Result
write fuel rq fs =
    let fs = load_dir (load_fat fs) rq.parent_cluster_number in
    let is_folder = rq.buffer_size == 0 in
    let start : Slot = record {
      fs = fs;
      cluster_index = find_empty_cluster fs.driver;
      found_entry = false;
      entry = 0;
      current_cluster_number = rq.parent_cluster_number;
      current_parent_cluster_number = rq.parent_cluster_number;
    } in
    let written : Step Fs Result =
      and_then (while_loop (scan_table is_folder rq) fuel start)
        λ s. if is_folder then leave (write_folder rq s) else write_file fuel rq s in
    let refused : Step Fs Result = return (2, fs) in
    result (if attribute fs.driver (buf_entry 0) == attr_subdirectory then written else refused)
      (λ fs. (0, fs))
