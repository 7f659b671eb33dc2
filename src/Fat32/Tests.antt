-- ===== src/Fat32/Tests.antt =====
-- The theorems on src/fat32.c at concrete states.
mod Making
mod Files
mod Refusing
use if2230_2023_oshiete.Common.{
  ℕ, ◌+◌, ◌*◌, ◌%◌, ◌<◌, ◌≤◌, ◌≡◌, refl, sym, arith, Bytes, copy, put8, put32, get32, List, [], ◌∷◌,
  none, some, leave, while_loop, ◌==◌, if◌then◌else◌, true, false, every, every-at, ltb, not, ◌&&◌,
  Bool, length,
}
use if2230_2023_oshiete.Mem.{memcmp}
use if2230_2023_oshiete.Cmos.{Rtc}
use if2230_2023_oshiete.Disk.{block_at, read_blocks}
use if2230_2023_oshiete.Fat32.Layout.{
  cluster_size, cluster_map, set_cluster_map, end_of_file, attribute, undelete, attr_subdirectory,
  cluster_map_size, cluster_1_value, cluster_0_value, dir_table_buf, cluster_buf, entry_cluster,
  root_cluster_number,
}
use if2230_2023_oshiete.Fat32.Driver.{
  Fs, Request, cluster_to_lba, read_clusters, write_clusters, load_fat, load_dir,
}
use if2230_2023_oshiete.Fat32.Init.{zeros, bytes_of}
use if2230_2023_oshiete.Fat32.Directory.{
  Copy, copy_cluster, buf_entry, same_name, same_ext, read_directory,
}
use if2230_2023_oshiete.Fat32.Read.{read}
use if2230_2023_oshiete.Fat32.Write.{
  Chain, write_round, write, find_from, find_empty_cluster, Slot, scan_table,
}
use if2230_2023_oshiete.Fat32.Delete.{Freeing, free_chain, delete}
use if2230_2023_oshiete.Fat32.Free.{IsChain, last, link, Freed, free_chain-Freed}
use if2230_2023_oshiete.Fat32.Space.{IsFree, free_from, free_count, find_empty_cluster-IsFree}
use if2230_2023_oshiete.Fat32.Slots.{taken, write-taken, IsFull, first_slot, full_directory}
use if2230_2023_oshiete.Fat32.Lookup.{LacksName, absent_name}
use if2230_2023_oshiete.Fat32.Format.{formatted, disk-initialize}
use if2230_2023_oshiete.Fat32.Init.{is_empty_storage, initialize_filesystem_fat32}
use if2230_2023_oshiete.Fat32.Chain.{while_loop-Copied, Copied}
use if2230_2023_oshiete.Fat32.Store.{Stored, while_loop-Stored}
use if2230_2023_oshiete.Fat32.Transfer.{read_clusters-write_clusters}
use if2230_2023_oshiete.Fat32.Allocate.{Scanned, find_empty_cluster-Scanned}

abbrev midnight : Rtc
midnight = record {
  reg_second = 0;
  reg_minute = 0;
  reg_hour = 0;
  reg_day = 1;
  reg_month = 1;
  reg_year = 0x23;
  reg_century = 0x20;
}

abbrev pub machine : Bytes → Bytes → Bytes → Fs
machine disk driver buf = record {
  disk = disk;
  driver = driver;
  buf = buf;
  found = 0;
  rtc = λ i. midnight;
  readings = 0;
  stack = zeros;
}

-- A table in which clusters 2 and 3 are taken.
abbrev some_table : Bytes
some_table = set_cluster_map (set_cluster_map zeros 2 end_of_file) 3 end_of_file

-- A medium whose root directory holds one file, "a" without an extension.
abbrev pub medium : Bytes
medium = put32 (put8 (put8 (put8 zeros 4107 16) 4128 97) 4141 1) 2056 end_of_file

abbrev request : ℕ → Request
request letter = record {
  name = bytes_of (letter ∷ []);
  ext = zeros;
  parent_cluster_number = 2;
  buffer_size = 2048;
}

abbrev pub booted : Fs
booted = machine medium (set_cluster_map zeros 2 end_of_file) zeros

write-taken_example : write 1 (request 97) booted ≡ some (1, load_dir (load_fat booted) 2)
unfolding load_dir load_fat read_clusters read_blocks block_at cluster_to_lba put8 put32 attribute
    undelete same_name same_ext memcmp copy
write-taken_example = write-taken 0 (request 97) booted 1 refl (omega arith) (omega arith) refl

not-false : (b : Bool) → not b ≡ true → b ≡ false
not-false true h = sym h
not-false false h = refl

-- The names of the 63 entries, one by one.
LacksName-every :
    (m : Bytes) (rq : Request)
    → attribute m (buf_entry 0) ≡ attr_subdirectory
    → cluster_map m rq.parent_cluster_number ≡ end_of_file
    → every (λ i. not (same_name m (buf_entry i) rq && undelete m (buf_entry i))) 63 1 ≡ true
    → LacksName m rq
LacksName-every m rq directory single h = record {
  directory = directory;
  single = single;
  absent = λ i lo hi. not-false _ (
      every-at (λ i. not (same_name m (buf_entry i) rq && undelete m (buf_entry i))) 63 1 i h lo
        hi);
}

lacks_b : LacksName (load_dir booted 2).driver (request 98)
unfolding load_dir load_fat read_clusters read_blocks block_at cluster_to_lba put8 put32 attribute
    undelete same_name same_ext memcmp copy cluster_map get32 set_cluster_map
lacks_b = LacksName-every (load_dir booted 2).driver (request 98) refl refl refl

lacks_b' : LacksName (load_fat (load_dir booted 2)).driver (request 98)
unfolding load_dir load_fat read_clusters read_blocks block_at cluster_to_lba put8 put32 attribute
    undelete same_name same_ext memcmp copy cluster_map get32 set_cluster_map
lacks_b' = LacksName-every (load_fat (load_dir booted 2)).driver (request 98) refl refl refl

absent_name_example :
    (read 1 (request 98) booted ≡ some (3, load_dir booted 2))
    × (read_directory 1 (request 98) booted ≡ some (3, load_dir booted 2))
    × (delete 1 (request 98) booted ≡ some (1, load_fat (load_dir booted 2)))
absent_name_example = absent_name 0 (request 98) booted lacks_b lacks_b' (omega arith)

blank : is_empty_storage zeros ≡ true
unfolding is_empty_storage read_blocks block_at copy memcmp
blank = refl

formatted_example :
    let m = (initialize_filesystem_fat32 (machine zeros zeros zeros)).driver in
    ((i : ℕ)
      → i < 512
      → cluster_map m i ≡ (
          if i == 2
          then end_of_file
          else if i == 1
          then cluster_1_value
          else if i == 0
          then cluster_0_value
          else 0))
    × (attribute m dir_table_buf ≡ attr_subdirectory)
    × (undelete m dir_table_buf ≡ true)
    × (entry_cluster m dir_table_buf ≡ root_cluster_number)
formatted_example = formatted (machine zeros zeros zeros) blank

disk-initialize_example :
    (is_empty_storage zeros ≡ false
      → (initialize_filesystem_fat32 (machine zeros zeros zeros)).disk ≡ zeros)
    × ((initialize_filesystem_fat32 (initialize_filesystem_fat32 (machine zeros zeros zeros))).disk
        ≡ (initialize_filesystem_fat32 (machine zeros zeros zeros)).disk)
disk-initialize_example = disk-initialize (machine zeros zeros zeros)

-- Every entry of the table in the buffer is in use, and none is named "b".
abbrev crowded : Fs
crowded = record booted {
  driver = λ q. if ltb q 2048 then set_cluster_map zeros 2 end_of_file q else 1;
}

every_used : every (λ i. undelete crowded.driver (buf_entry i)) 63 1 ≡ true
unfolding undelete set_cluster_map put32
every_used = refl

every_other : every (λ i. not (taken false (request 98) crowded.driver (buf_entry i))) 63 1 ≡ true
unfolding undelete same_name same_ext attribute memcmp set_cluster_map put32
every_other = refl

crowded-IsFull : IsFull false (request 98) crowded.driver
crowded-IsFull = record {
  used = λ i lo hi. every-at (λ i. undelete crowded.driver (buf_entry i)) 63 1 i every_used lo hi;
  other = λ i lo hi. not-false _ (
      every-at (λ i. not (taken false (request 98) crowded.driver (buf_entry i))) 63 1 i every_other
        lo hi);
}

found_3 : find_empty_cluster crowded.driver ≡ 3
unfolding find_empty_cluster find_from cluster_map get32 set_cluster_map put32
found_3 = refl

crowded_end : cluster_map crowded.driver 2 ≡ end_of_file
unfolding cluster_map get32 set_cluster_map put32
crowded_end = refl

full_directory_example :
    (t : Slot) × (while_loop (scan_table false (request 98)) 1 (first_slot (request 98) crowded)
      ≡ leave t)
    × (buf_entry t.entry ≡ cluster_buf)
    × (t.current_parent_cluster_number ≡ find_empty_cluster crowded.driver)
    × ((q : ℕ) → 2048 ≤ q → t.fs.driver q ≡ crowded.driver q)
full_directory_example =
    full_directory 0 false (request 98) crowded crowded_end crowded-IsFull (omega arith)
      (omega (arith, found_3))

-- Clusters 5, 9 and 7, one after the other.
abbrev chained : Bytes
chained = set_cluster_map (set_cluster_map (set_cluster_map some_table 5 9) 9 7) 7 end_of_file

chained-IsChain : IsChain chained 5 (5 ∷ 9 ∷ 7 ∷ [])
unfolding cluster_map set_cluster_map get32 put32
chained-IsChain = link refl (omega arith) refl (link refl (omega arith) refl (last refl))

abbrev copying : Copy
copying = record {
  fs = machine (λ q. q % 256) chained zeros;
  cluster = 5;
  size = 6000;
  fragment_ctr = 0;
}
