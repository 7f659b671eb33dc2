-- ===== src/Fat32/Directory.antt =====
-- The directory operations of src/fat32.c that read: read_directory and read_root_directory.
use if2230_2023_oshiete.Common.{
  ℕ, ◌+◌, ◌-◌, ◌*◌, ◌%◌, ◌^◌, Bytes, Bool, ◌&&◌, ◌==◌, leb, not, if◌then◌else◌, Option, Step, again,
  leave, return, for_loop, while_loop, and_then,
}
use if2230_2023_oshiete.Mem.{memcmp}
use if2230_2023_oshiete.Fat32.Layout.{
  cluster_size, end_of_file, attr_subdirectory, table_length, entry_at, dir_table_buf, attribute,
  undelete, entry_cluster, cluster_map, root_cluster_number,
}
use if2230_2023_oshiete.Fat32.Driver.{
  Fs, Request, Result, result, code_unknown, read_clusters, load_fat, load_dir, save_dir, now, tick,
  stamp_access,
}

-- memcmp(table[i].name, request.name, 8) == 0, and the same of the extension.
unfoldable pub same_name : Bytes → ℕ → Request → Bool
same_name m e rq = memcmp m e rq.name 0 8 == 0

unfoldable pub same_ext : Bytes → ℕ → Request → Bool
same_ext m e rq = memcmp m (e + 8) rq.ext 0 3 == 0

-- What the loops over the tables of a directory carry.
pub record Search : Type 0 where
  pub fs : Fs
  pub parent : ℕ
  pub ret : ℕ
  pub buffer_size : ℕ

-- dir_table_buf.table[i].
abbrev pub buf_entry : ℕ → ℕ
buf_entry i = entry_at dir_table_buf i

-- What a loop that copies a chain carries: the state, the next cluster, the buffer size left and
-- `fragment_ctr`.
pub record Copy : Type 0 where
  pub fs : Fs
  pub cluster : ℕ
  pub size : ℕ
  pub fragment_ctr : ℕ

-- One round of the loop at the end of read_directory: each table goes to the same place.
unfoldable pub copy_table : Copy → Step Copy Result
copy_table c =
    let fs = record (c.fs) { buf = read_clusters c.fs.disk c.fs.buf 0 c.cluster 1 } in
    let next = cluster_map fs.driver c.cluster in
    let size = c.size - cluster_size in
    let c' = record c { fs = fs; cluster = next; size = size; fragment_ctr = c.fragment_ctr + 1 } in
    if not (next == end_of_file) && leb cluster_size size then again c' else leave c'

-- access_date of the entry found is set, and the table is written back to the parent's cluster.
unfoldable pub touch_entry : Fs → Request → ℕ → Fs
touch_entry fs rq i =
    save_dir (record (tick fs) { driver = stamp_access fs.driver (buf_entry i) (now fs) })
      rq.parent_cluster_number

-- The entry i is the directory asked for, and the buffer holds a table.
unfoldable pub open_directory : ℕ → Request → ℕ → Search → Step Search Result
open_directory fuel rq i s =
    let fs = touch_entry (load_fat s.fs) rq i in
    let cluster = entry_cluster fs.driver (buf_entry i) in
    let fs = record fs { found = cluster } in
    let start : Copy = record {
      fs = fs;
      cluster = cluster;
      size = s.buffer_size;
      fragment_ctr = 0;
    } in
    and_then (while_loop copy_table fuel start)
      λ c. leave (record s { fs = c.fs; ret = 0; buffer_size = c.size })

-- One round of the loop over the entries of a table.
unfoldable pub read_directory_entry : ℕ → Request → ℕ → Search → Step Search Result
read_directory_entry fuel rq i s =
    let m = s.fs.driver in
    let opened = open_directory fuel rq i s in
    if same_name m (buf_entry i) rq && undelete m (buf_entry i) && same_ext m (buf_entry i) rq
    then (if attribute m (buf_entry i) == attr_subdirectory
        then (if leb cluster_size s.buffer_size then opened else leave (record s { ret = 2 }))
        else again (record s { ret = 1 }))
    else again s

-- Behind the loop over the entries: the next table of the directory, if there is one.
unfoldable pub next_table : Search → Step Search Result
next_table s =
    let next = cluster_map s.fs.driver s.parent in
    if next == end_of_file
    then leave (record s { parent = next })
    else again (record s { fs = load_dir s.fs next; parent = next })

unfoldable pub read_directory_table : ℕ → Request → Search → Step Search Result
read_directory_table fuel rq s =
    and_then (for_loop (read_directory_entry fuel rq) (table_length - 1) 1 s) next_table

unfoldable pub read_directory : ℕ → Request → Fs → Option Result
read_directory fuel rq fs =
    let fs = load_dir fs rq.parent_cluster_number in
    let start : Search = record {
      fs = fs;
      parent = rq.parent_cluster_number;
      ret = 3;
      buffer_size = rq.buffer_size;
    } in
    let searched = while_loop (read_directory_table fuel rq) fuel start in
    let refused : Step Search Result = return (code_unknown, fs) in
    result (if attribute fs.driver (buf_entry 0) == attr_subdirectory then searched else refused)
      (λ s. (s.ret, s.fs))

-- One round of read_root_directory: the tables go behind one another.
unfoldable pub copy_cluster : Copy → Step Copy Result
copy_cluster c =
    let fs = record (c.fs) {
      buf = read_clusters c.fs.disk c.fs.buf (c.fragment_ctr * cluster_size) c.cluster 1;
    } in
    let next = cluster_map fs.driver c.cluster in
    let c' : Copy = record {
      fs = fs;
      cluster = next;
      size = (c.size + 2 ^ 32 - cluster_size) % 2 ^ 32;
      fragment_ctr = c.fragment_ctr + 1;
    } in
    if next == end_of_file then leave c' else again c'

unfoldable pub read_root_directory : ℕ → Request → Fs → Option Result
read_root_directory fuel rq fs =
    let start : Copy = record {
      fs = fs;
      cluster = root_cluster_number;
      size = rq.buffer_size;
      fragment_ctr = 0;
    } in
    result (while_loop copy_cluster fuel start) (λ c. (0, c.fs))
