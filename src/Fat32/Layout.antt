-- ===== src/Fat32/Layout.antt =====
-- The packed structures of src/lib-header/fat32.h, read in place: a structure is an address in a
-- memory, and a field is at its offset.
use if2230_2023_oshiete.Common.{
  ℕ, ◌+◌, ◌*◌, ◌/◌, ◌%◌, Bytes, get16, get32, put16, put32, Bool, ◌==◌, not,
}

abbrev pub cluster_block_count : ℕ
cluster_block_count = 4

abbrev pub cluster_size : ℕ
cluster_size = 2048

abbrev pub cluster_map_size : ℕ
cluster_map_size = 512

abbrev pub cluster_0_value : ℕ
cluster_0_value = 0x0FFFFFF0

abbrev pub cluster_1_value : ℕ
cluster_1_value = 0x0FFFFFFF

abbrev pub end_of_file : ℕ
end_of_file = 0x0FFFFFFF

abbrev pub fat_cluster_number : ℕ
fat_cluster_number = 1

abbrev pub root_cluster_number : ℕ
root_cluster_number = 2

abbrev pub attr_subdirectory : ℕ
attr_subdirectory = 16

abbrev pub uattr_not_empty : ℕ
uattr_not_empty = 170

-- sizeof(struct FAT32DirectoryEntry), and the entries of a table.
abbrev pub entry_size : ℕ
entry_size = 32

abbrev pub table_length : ℕ
table_length = 64

-- The fields of the entry at address `e`.
unfoldable pub attribute : Bytes → ℕ → ℕ
attribute m e = m (e + 11)

unfoldable pub user_attribute : Bytes → ℕ → ℕ
user_attribute m e = m (e + 12)

-- The `bool undelete` is a byte; it is tested for being non-zero.
unfoldable pub undelete : Bytes → ℕ → Bool
undelete m e = not (m (e + 13) == 0)

unfoldable pub filesize : Bytes → ℕ → ℕ
filesize m e = get32 m (e + 28)

-- (cluster_high << 16) | cluster_low: the fields do not overlap, so `|` is `+`.
unfoldable pub entry_cluster : Bytes → ℕ → ℕ
entry_cluster m e = get16 m (e + 20) * 65536 + get16 m (e + 26)

-- cluster_high = c >> 16 and cluster_low = c & 0xFFFF.
unfoldable pub set_entry_cluster : Bytes → ℕ → ℕ → Bytes
set_entry_cluster m e c = put16 (put16 m (e + 20) (c / 65536)) (e + 26) (c % 65536)

-- table[i] of the directory table at `t`.
abbrev pub entry_at : ℕ → ℕ → ℕ
entry_at t i = t + i * entry_size

-- `struct FAT32DriverState` at address 0: fat_table, dir_table_buf, cluster_buf.
abbrev pub fat_table : ℕ
fat_table = 0

abbrev pub dir_table_buf : ℕ
dir_table_buf = 2048

abbrev pub cluster_buf : ℕ
cluster_buf = 4096

-- fat_table.cluster_map[i], whatever lies there for an `i` out of range.
unfoldable pub cluster_map : Bytes → ℕ → ℕ
cluster_map m i = get32 m (i * 4)

unfoldable pub set_cluster_map : Bytes → ℕ → ℕ → Bytes
set_cluster_map m i v = put32 m (i * 4) v
