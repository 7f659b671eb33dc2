-- ===== src/Fat32/Read.antt =====
-- The operation `read` of src/fat32.c.
use if2230_2023_oshiete.Common.{
  ℕ, ◌-◌, ◌&&◌, ◌||◌, ◌==◌, ltb, not, if◌then◌else◌, Option, Step, again, leave, return, for_loop,
  while_loop, and_then,
}
use if2230_2023_oshiete.Fat32.Layout.{
  cluster_size, attr_subdirectory, table_length, attribute, undelete, filesize, entry_cluster,
}
use if2230_2023_oshiete.Fat32.Driver.{Fs, Request, Result, result, code_unknown, load_fat, load_dir}
use if2230_2023_oshiete.Fat32.Directory.{
  Search, Copy, buf_entry, same_name, same_ext, touch_entry, next_table, copy_cluster,
}

-- The entry i is the file asked for, and the buffer is large enough: its clusters go behind one
-- another into the buffer. The buffer size that is left serves the rest of the search.
unfoldable pub read_file : ℕ → Request → ℕ → Search → Step Search Result
read_file fuel rq i s =
    let fs = touch_entry (load_fat s.fs) rq i in
    let cluster = entry_cluster fs.driver (buf_entry i) in
    let fs = record fs { found = cluster } in
    let start : Copy = record {
      fs = fs;
      cluster = cluster;
      size = s.buffer_size;
      fragment_ctr = 0;
    } in
    and_then (while_loop copy_cluster fuel start)
      λ c. leave (record s { fs = c.fs; ret = 0; buffer_size = c.size })

-- One round of the loop over the entries of a table.
unfoldable pub read_entry : ℕ → Request → ℕ → Search → Step Search Result
read_entry fuel rq i s =
    let m = s.fs.driver in
    let file = read_file fuel rq i s in
    if same_name m (buf_entry i) rq && undelete m (buf_entry i)
    then (if attribute m (buf_entry i) == attr_subdirectory
        then again (record s { ret = 1 })
        else (if same_ext m (buf_entry i) rq
            then (if ltb s.buffer_size (filesize m (buf_entry i)) then return (2, s.fs) else file)
            else again s))
    else again s

unfoldable pub read_table : ℕ → Request → Search → Step Search Result
read_table fuel rq s = and_then (for_loop (read_entry fuel rq) (table_length - 1) 1 s) next_table

unfoldable pub read : ℕ → Request → Fs → Option Result
read fuel rq fs =
    let fs = load_dir fs rq.parent_cluster_number in
    let start : Search = record {
      fs = fs;
      parent = rq.parent_cluster_number;
      ret = 3;
      buffer_size = rq.buffer_size;
    } in
    let searched = while_loop (read_table fuel rq) fuel start in
    let refused : Step Search Result = return (code_unknown, fs) in
    result
      (if ltb rq.buffer_size cluster_size
          || not (attribute fs.driver (buf_entry 0) == attr_subdirectory)
        then refused
        else searched)
      (λ s. (s.ret, s.fs))
