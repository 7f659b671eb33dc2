-- ===== src/Fat32/Init.antt =====
-- Creation and initialisation of the file system: is_empty_storage, create_fat32 and
-- initialize_filesystem_fat32 of src/fat32.c.
use if2230_2023_oshiete.Common.{ℕ, Bytes, List, [], ◌∷◌, Bool, not, ◌==◌, if◌then◌else◌, zero, suc}
use if2230_2023_oshiete.Mem.{memcmp}
use if2230_2023_oshiete.Disk.{block_size, read_blocks, write_blocks}
use if2230_2023_oshiete.Fat32.Layout.{
  cluster_block_count, cluster_0_value, cluster_1_value, end_of_file, fat_cluster_number,
  root_cluster_number, set_cluster_map,
}
use if2230_2023_oshiete.Fat32.Driver.{
  Fs, now, tick, cluster_to_lba, load_fat, load_dir, init_directory_table,
}

-- An initialiser: the bytes written out, and zeros behind them.
abbrev pub bytes_of : List ℕ → Bytes
bytes_of [] i = 0
bytes_of (x ∷ xs) zero = x
bytes_of (x ∷ xs) (suc i) = bytes_of xs i

abbrev pub zeros : Bytes
zeros i = 0

-- "FAT32 - IF2230 edition\n", padded to a block.
abbrev pub fs_signature : Bytes
fs_signature = bytes_of (
    b'F' ∷ b'A' ∷ b'T' ∷ b'3' ∷ b'2' ∷ b' ' ∷ b'-' ∷ b' ' ∷ b'I' ∷ b'F' ∷ b'2' ∷ b'2' ∷ b'3' ∷ b'0'
    ∷ b' ' ∷ b'e' ∷ b'd' ∷ b'i' ∷ b't' ∷ b'i' ∷ b'o' ∷ b'n' ∷ 10 ∷ [])

abbrev pub boot_sector : ℕ
boot_sector = 0

-- The sector is read into a local buffer, and compared with the signature.
unfoldable pub is_empty_storage : Bytes → Bool
is_empty_storage disk =
    not (memcmp (read_blocks disk zeros 0 boot_sector 1) 0 fs_signature 0 block_size == 0)

-- "root\0\0\0\0".
abbrev pub root_name : Bytes
root_name = bytes_of (b'r' ∷ b'o' ∷ b'o' ∷ b't' ∷ [])

abbrev pub initial_fat : Bytes
initial_fat =
    set_cluster_map (set_cluster_map (set_cluster_map zeros 0 cluster_0_value) 1 cluster_1_value) 2
      end_of_file

unfoldable pub create_fat32 : Fs → Fs
create_fat32 fs =
    let signed = write_blocks fs.disk fs_signature 0 boot_sector 1 in
    let root = init_directory_table zeros 0 root_name 0 root_cluster_number (now fs) in
    let with_fat =
      write_blocks signed initial_fat 0 (cluster_to_lba fat_cluster_number) cluster_block_count in
    let with_root =
      write_blocks with_fat root 0 (cluster_to_lba root_cluster_number) cluster_block_count in
    record (tick fs) { disk = with_root }

-- The table and the root directory are read into zeroed locals and assigned to the state; both
-- assignments are of whole clusters.
unfoldable pub initialize_filesystem_fat32 : Fs → Fs
initialize_filesystem_fat32 fs =
    let fs = if is_empty_storage fs.disk then create_fat32 fs else fs in
    load_dir (load_fat fs) root_cluster_number
