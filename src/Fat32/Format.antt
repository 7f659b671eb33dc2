-- ===== src/Fat32/Format.antt =====
-- What initialize_filesystem_fat32 and create_fat32 (src/fat32.c) leave on the medium.
use if2230_2023_oshiete.Common.{
  ℕ, ◌+◌, ◌-◌, ◌*◌, ◌<◌, ◌≡◌, refl, ◌∙◌, arith, Bytes, true, false, Bool-cases, inl, inr, copy,
  copy_in, copy_below, get16, get32, put8, put16, put32, ◌==◌, if◌then◌else◌, eq→==,
}
use if2230_2023_oshiete.Mem.{memcpy}
use if2230_2023_oshiete.Mem.Laws.{memcmp-zero_iff}
use if2230_2023_oshiete.Disk.{block_at, read_blocks, write_blocks}
use if2230_2023_oshiete.Fat32.Layout.{
  set_entry_cluster, cluster_map, set_cluster_map, cluster_0_value, cluster_1_value, end_of_file,
  root_cluster_number, attribute, undelete, entry_cluster, dir_table_buf, attr_subdirectory,
}
use if2230_2023_oshiete.Fat32.Driver.{
  Fs, now, read_clusters, cluster_to_lba, load_fat, load_dir, init_directory_table, stamp_create,
}
use if2230_2023_oshiete.Fat32.Allocate.{cluster_map-set_cluster_map}
use if2230_2023_oshiete.Fat32.Transfer.{read_clusters_at, read_clusters-copy}
use if2230_2023_oshiete.Fat32.Init.{
  zeros, fs_signature, root_name, initial_fat, is_empty_storage, create_fat32,
  initialize_filesystem_fat32,
}

-- Three writes of which none touches another.
abbrev layers : Bytes → Bytes → Bytes → Bytes → Bytes
layers disk a b c = copy (copy (copy disk 0 a 0 512) 2048 b 0 2048) 4096 c 0 2048

module _ (disk a b c : Bytes) (j : ℕ) where
  layers_first : j < 512 → layers disk a b c j ≡ a j
  unfolding copy
  layers_first h = ground arith

  layers_second : j < 2048 → layers disk a b c (2048 + j) ≡ b j
  unfolding copy
  layers_second h = let e : 0 + (2048 + j - 2048) ≡ j = omega arith in ground arith

  layers_third : j < 2048 → layers disk a b c (4096 + j) ≡ c j
  unfolding copy
  layers_third h = let e : 0 + (4096 + j - 4096) ≡ j = omega arith in ground arith

-- A storage whose first block is the signature does not count as empty.
is_empty_storage_of_signature :
    (disk : Bytes) → ((j : ℕ) → j < 512 → disk j ≡ fs_signature j) → is_empty_storage disk ≡ false
unfolding is_empty_storage read_blocks copy block_at
is_empty_storage_of_signature disk h =
    rw (eq→== _ 0 ((memcmp-zero_iff (read_blocks disk zeros 0 0 1) 0 fs_signature 0 512).1 same))
  where
    block : (j : ℕ) → j < 512 → copy zeros 0 disk 0 512 (0 + j) ≡ disk (0 + j)
    block j lt = copy_in zeros 0 disk 0 512 j lt

    same : (j : ℕ) → j < 512 → read_blocks disk zeros 0 0 1 (0 + j) ≡ fs_signature (0 + j)
    same j lt = block j lt ∙ h (0 + j) (omega arith)

module _ (fs : Fs) where
  abbrev root_table : Bytes
  root_table = init_directory_table zeros 0 root_name 0 root_cluster_number (now fs)

  disk-create_fat32 : (create_fat32 fs).disk ≡ layers fs.disk fs_signature initial_fat root_table
  unfolding create_fat32 write_blocks block_at cluster_to_lba
  disk-create_fat32 = refl

  is_empty_storage-create_fat32 : is_empty_storage (create_fat32 fs).disk ≡ false
  is_empty_storage-create_fat32 =
      rw disk-create_fat32
        (is_empty_storage_of_signature _ (layers_first fs.disk fs_signature initial_fat root_table))

  -- After initialisation the storage does not count as empty.
  is_empty_storage-initialize : is_empty_storage (initialize_filesystem_fat32 fs).disk ≡ false
  unfolding initialize_filesystem_fat32 load_fat load_dir
  is_empty_storage-initialize = elim (Bool-cases (is_empty_storage fs.disk)) [
    | inl e ↦ rw e is_empty_storage-create_fat32
    | inr e ↦ rw e e
  ]

disk-initialize_formatted :
    (fs : Fs) → is_empty_storage fs.disk ≡ false → (initialize_filesystem_fat32 fs).disk ≡ fs.disk
unfolding initialize_filesystem_fat32 load_fat load_dir
disk-initialize_formatted fs e = rw e

-- Initialisation formats a medium once: a medium with the signature is left as it is, and whatever
-- the medium was, a second initialisation leaves it as the first has.
pub disk-initialize :
    (fs : Fs)
    → (is_empty_storage fs.disk ≡ false → (initialize_filesystem_fat32 fs).disk ≡ fs.disk)
      × ((initialize_filesystem_fat32 (initialize_filesystem_fat32 fs)).disk
          ≡ (initialize_filesystem_fat32 fs).disk)
disk-initialize fs = (
  disk-initialize_formatted fs,
  disk-initialize_formatted (initialize_filesystem_fat32 fs) (is_empty_storage-initialize fs),
)

-- The state behind an initialisation that formats, byte by byte.
module _ (fs : Fs) (empty : is_empty_storage fs.disk ≡ true) where
  driver_below : (q : ℕ) → q < 2048 → (initialize_filesystem_fat32 fs).driver q ≡ initial_fat q
  unfolding initialize_filesystem_fat32 load_fat load_dir
  driver_below q lt = rw empty (kept ∙ loaded)
    where
      disk : Bytes
      disk = (create_fat32 fs).disk

      with_fat : Bytes
      with_fat = read_clusters disk (create_fat32 fs).driver 0 1 1

      kept : read_clusters disk with_fat 2048 2 1 q ≡ with_fat q
      kept =
          rw (read_clusters-copy disk with_fat 2048 2 (omega arith))
            (copy_below with_fat 2048 disk 4096 2048 q lt)

      loaded : with_fat q ≡ initial_fat q
      loaded =
          let e : 0 + q ≡ q = omega arith in
          (rw e at (read_clusters_at disk (create_fat32 fs).driver 0 1 q (omega arith) lt))
          ∙ rw disk-create_fat32
              (layers_second fs.disk fs_signature initial_fat (root_table fs) q lt)

  driver_above :
      (j : ℕ) → j < 2048 → (initialize_filesystem_fat32 fs).driver (2048 + j) ≡ root_table fs j
  unfolding initialize_filesystem_fat32 load_fat load_dir
  driver_above j lt = rw empty (
      read_clusters_at (create_fat32 fs).disk _ 2048 2 j (omega arith) lt
      ∙ rw disk-create_fat32 (layers_third fs.disk fs_signature initial_fat (root_table fs) j lt))

get32-below :
    (m m' : Bytes) (i : ℕ)
    → ((q : ℕ) → q < 2048 → m q ≡ m' q)
    → i < 512
    → cluster_map m i ≡ cluster_map m' i
unfolding cluster_map get32
get32-below m m' i h lt = ground (arith, h (i * 4), h (i * 4 + 1), h (i * 4 + 2), h (i * 4 + 3))

cluster_map-zeros : (i : ℕ) → cluster_map zeros i ≡ 0
unfolding cluster_map get32
cluster_map-zeros i = refl

cluster_map-initial_fat :
    (i : ℕ)
    → cluster_map initial_fat i ≡ (
        if i == 2
        then end_of_file
        else if i == 1
        then cluster_1_value
        else if i == 0
        then cluster_0_value
        else 0)
cluster_map-initial_fat i =
    cluster_map-set_cluster_map
      (set_cluster_map (set_cluster_map zeros 0 cluster_0_value) 1 cluster_1_value) 2 i end_of_file
      (omega arith)
    ∙ rw
        (cluster_map-set_cluster_map (set_cluster_map zeros 0 cluster_0_value) 1 i cluster_1_value
          (omega arith))
        (rw (cluster_map-set_cluster_map zeros 0 i cluster_0_value (omega arith))
          (rw (cluster_map-zeros i)))

-- The fields of the root directory's first entry: attribute, undelete, and the cluster's two halves.
root_fields :
    (fs : Fs)
    → (root_table fs 11 ≡ 16)
      × (root_table fs 13 ≡ 1)
      × (root_table fs 20 ≡ 0)
      × (root_table fs 21 ≡ 0)
      × (root_table fs 26 ≡ 2)
      × (root_table fs 27 ≡ 0)
unfolding init_directory_table stamp_create set_entry_cluster put8 put16 put32 memcpy
root_fields fs = (refl, refl, refl, refl, refl, refl)

module _ (fs : Fs) (empty : is_empty_storage fs.disk ≡ true) where
  root_entry :
      let m = (initialize_filesystem_fat32 fs).driver in
      (attribute m dir_table_buf ≡ attr_subdirectory)
      × (undelete m dir_table_buf ≡ true)
      × (entry_cluster m dir_table_buf ≡ root_cluster_number)
  unfolding attribute undelete entry_cluster get16
  root_entry =
      let above = driver_above fs empty in
      let (a, u, h, h', l, l') = root_fields fs in
      (
        above 11 (omega arith) ∙ a,
        rw (above 13 (omega arith), u),
        rw (
          above 20 (omega arith),
          above 21 (omega arith),
          above 26 (omega arith),
          above 27 (omega arith),
          h,
          h',
          l,
          l',
        ),
      )

-- Initialising an empty medium loads a table whose entries 0, 1 and 2 are the two reserved values
-- and the end of the root directory's chain, and in which every other cluster is free; and a root
-- directory whose first entry is a directory in use that is its own parent.
pub formatted :
    (fs : Fs)
    → is_empty_storage fs.disk ≡ true
    → let m = (initialize_filesystem_fat32 fs).driver in
      ((i : ℕ)
        → i < 512
        → cluster_map m i ≡ (
            if i == 2
            then end_of_file
            else if i == 1
            then cluster_1_value
            else if i == 0
            then cluster_0_value
            else 0))
      × (attribute m dir_table_buf ≡ attr_subdirectory)
      × (undelete m dir_table_buf ≡ true)
      × (entry_cluster m dir_table_buf ≡ root_cluster_number)
formatted fs empty = (
  λ i lt. get32-below _ initial_fat i (driver_below fs empty) lt ∙ cluster_map-initial_fat i,
  (root_entry fs empty).0,
  (root_entry fs empty).1,
  (root_entry fs empty).2,
)
