-- ===== src/Fat32/Create.antt =====
-- The making of a file by `write` (src/fat32.c), from the search to the last transfer.
use if2230_2023_oshiete.Common.{
  length, ℕ, zero, suc, ◌+◌, ◌*◌, ◌^◌, ◌≤◌, ◌<◌, ◌≡◌, refl, ◌∙◌, arith, Bytes, List, false, some,
  none, eq→==, ne→==, lt→ltb, get32, put8, put16, put32,
}
use if2230_2023_oshiete.Mem.Laws.{memcpy-below}
use if2230_2023_oshiete.Fat32.Layout.{
  cluster_size, end_of_file, attr_subdirectory, attribute, cluster_map, set_entry_cluster,
}
use if2230_2023_oshiete.Fat32.Driver.{Fs, Request, load_fat, load_dir, save_dir, stamp_create}
use if2230_2023_oshiete.Fat32.Directory.{buf_entry}
use if2230_2023_oshiete.Fat32.Space.{free_from, free_count, find_empty_cluster-IsFree}
use if2230_2023_oshiete.Fat32.Store.{Stored, while_loop-Stored}
use if2230_2023_oshiete.Fat32.Room.{HasRoom, slot_at, scan_table-HasRoom}
use if2230_2023_oshiete.Fat32.Write.{Slot, Chain, fill_entry, write_file, find_empty_cluster, write}

put8-below : (m : Bytes) (a v q : ℕ) → q < a → put8 m a v q ≡ m q
unfolding put8
put8-below m a v q h = ground arith

put16-below : (m : Bytes) (a v q : ℕ) → q < a → put16 m a v q ≡ m q
unfolding put16
put16-below m a v q h = ground arith

put32-below : (m : Bytes) (a v q : ℕ) → q < a → put32 m a v q ≡ m q
unfolding put32
put32-below m a v q h = ground arith

-- The fields of the entry lie in the buffer of the directory, behind the table of clusters.
pub fill_entry-below :
    (rq : Request) (s : Slot) (q : ℕ) → q < 2048 → (fill_entry rq s).driver q ≡ s.fs.driver q
unfolding fill_entry stamp_create set_entry_cluster
fill_entry-below rq s q lt =
    put8-below _ _ _ q (omega arith)
    ∙ put16-below _ _ _ q (omega arith)
    ∙ put16-below _ _ _ q (omega arith)
    ∙ put8-below _ _ _ q (omega arith)
    ∙ put8-below _ _ _ q (omega arith)
    ∙ put8-below _ _ _ q (omega arith)
    ∙ put32-below _ _ _ q (omega arith)
    ∙ put16-below _ _ _ q (omega arith)
    ∙ put16-below _ _ _ q (omega arith)
    ∙ memcpy-below _ _ _ _ _ q (omega arith)
    ∙ memcpy-below _ _ _ _ _ q (omega arith)

module _ (m m' : Bytes) (same : (q : ℕ) → q < 2048 → m' q ≡ m q) where
  pub cluster_map-same : (i : ℕ) → i < 512 → cluster_map m' i ≡ cluster_map m i
  unfolding cluster_map get32
  cluster_map-same i lt = rw (
    same (i * 4) (omega arith),
    same (i * 4 + 1) (omega arith),
    same (i * 4 + 2) (omega arith),
    same (i * 4 + 3) (omega arith),
  )

  free_from-same : (k i : ℕ) → i + k ≤ 512 → free_from m' k i ≡ free_from m k i
  unfolding free_from
  free_from-same zero i h = refl
  free_from-same (suc k) i h =
      rw (cluster_map-same i (omega arith), free_from-same k (suc i) (omega arith))

  free_count-same : free_count m' ≡ free_count m
  unfolding free_count
  free_count-same = free_from-same 509 3 (omega arith)

-- The start of the loop that writes the file.
abbrev pub file_start : Request → Slot → Chain
file_start rq s = record {
  fs = fill_entry rq s;
  total_size = rq.buffer_size;
  fragment_ctr = 0;
  cluster_index = s.cluster_index;
  previous = none;
}

-- The making of a file of n clusters, 1 to 256: where the parent is a directory of one table with
-- room, no file in use has the name and extension, and n clusters are free, `write` answers 0 with
-- fuel for n + 1 rounds. From the state with the first unused entry filled in, the bytes of the
-- request have been stored in a chain of n free clusters from the entry's on, and at last the
-- buffer with the parent's table is written.
pub write-file :
    (fuel n : ℕ) (rq : Request) (fs : Fs) (j : ℕ)
    → let loaded = load_dir (load_fat fs) rq.parent_cluster_number in
      attribute loaded.driver (buf_entry 0) ≡ attr_subdirectory
      → cluster_map loaded.driver rq.parent_cluster_number ≡ end_of_file
      → HasRoom false rq loaded.driver j
      → n * cluster_size < rq.buffer_size + cluster_size
      → rq.buffer_size ≤ n * cluster_size
      → 0 < n
      → n ≤ 256
      → n ≤ free_count loaded.driver
      → n < suc fuel
      → (c : Chain) × (cs : List ℕ) × (write (suc fuel) rq fs
          ≡ some (0, save_dir c.fs rq.parent_cluster_number))
        × (length cs ≡ n)
        × Stored (file_start rq (slot_at rq loaded j)) c cs
unfolding write write_file
write-file fuel n rq fs j directory single room above below pos small free enough =
    let loaded = load_dir (load_fat fs) rq.parent_cluster_number in
    let s = slot_at rq loaded j in
    let same = fill_entry-below rq s in
    let first = find_empty_cluster-IsFree loaded.driver (omega (arith, free)) in
    let (c, cs, ends, count, stored) =
      while_loop-Stored n (suc fuel) (file_start rq s) above below pos enough (omega arith)
        (omega (arith, free, free_count-same loaded.driver (fill_entry rq s).driver same))
        (record {
          low = first.low;
          high = first.high;
          empty =
              cluster_map-same loaded.driver (fill_entry rq s).driver same
                (find_empty_cluster loaded.driver) first.high
              ∙ first.empty;
        })
        tt in
    (
      c,
      cs,
      rw (
        ne→== rq.buffer_size 0 (omega arith),
        eq→== _ attr_subdirectory directory,
        scan_table-HasRoom fuel false rq loaded j single room,
        lt→ltb rq.buffer_size (2 ^ 31) (omega arith),
        ends,
      ),
      count,
      stored,
    )
