-- ===== src/Fat32/Driver.antt =====
-- The driver's state and its cluster transfers (src/fat32.c).
use if2230_2023_oshiete.Common.{
  ℕ, suc, ◌+◌, ◌*◌, ◌%◌, ◌^◌, Bytes, bit_or, put8, put16, put32, Option, none, some, Step, again,
  leave, return, spin,
}
use if2230_2023_oshiete.Mem.{memcpy}
use if2230_2023_oshiete.Cmos.{Rtc, Time, cmos_read_rtc}
use if2230_2023_oshiete.Disk.{read_blocks, write_blocks}
use if2230_2023_oshiete.Fat32.Layout.{
  cluster_block_count, fat_cluster_number, fat_table, dir_table_buf, entry_at, set_entry_cluster,
  attr_subdirectory,
}

-- The world of the driver: the medium, the kernel's memory from `&driver_state` on, the memory
-- that `request.buf` points at, the variable that `found_cluster_number` points at, the clock
-- (what the chip answers to each reading, and the number of readings) and what an uninitialised
-- local table holds.
pub record Fs : Type 0 where
  pub disk : Bytes
  pub driver : Bytes
  pub buf : Bytes
  pub found : ℕ
  pub rtc : ℕ → Rtc
  pub readings : ℕ
  pub stack : Bytes

-- `struct FAT32DriverRequest`, without `buf`.
pub record Request : Type 0 where
  pub name : Bytes
  pub ext : Bytes
  pub parent_cluster_number : ℕ
  pub buffer_size : ℕ

-- An `int8_t` code as its bit pattern: -1 is 255.
abbrev pub code_unknown : ℕ
code_unknown = 255

abbrev pub Result : Type 0
Result = ℕ × Fs

-- The answer of an operation; `none` if the fuel ran out.
abbrev pub result : {S : Type 0} → Step S Result → (S → Result) → Option Result
result (again s) f = some (f s)
result (leave s) f = some (f s)
result (return r) f = some r
result spin f = none

unfoldable pub cluster_to_lba : ℕ → ℕ
cluster_to_lba cluster = cluster * cluster_block_count % 2 ^ 32

-- The count is a uint8_t, and so is the parameter of write_blocks that the product goes to.
unfoldable pub write_clusters : Bytes → Bytes → ℕ → ℕ → ℕ → Bytes
write_clusters disk m ptr cluster_number cluster_count =
    write_blocks disk m ptr (cluster_to_lba cluster_number)
      (cluster_count * cluster_block_count % 256)

unfoldable pub read_clusters : Bytes → Bytes → ℕ → ℕ → ℕ → Bytes
read_clusters disk m ptr cluster_number cluster_count =
    read_blocks disk m ptr (cluster_to_lba cluster_number)
      (cluster_count * cluster_block_count % 256)

-- The transfers between the driver's state and the medium that the operations make.
unfoldable pub load_fat : Fs → Fs
load_fat fs = record fs { driver = read_clusters fs.disk fs.driver fat_table fat_cluster_number 1 }

unfoldable pub save_fat : Fs → Fs
save_fat fs = record fs { disk = write_clusters fs.disk fs.driver fat_table fat_cluster_number 1 }

unfoldable pub load_dir : Fs → ℕ → Fs
load_dir fs c = record fs { driver = read_clusters fs.disk fs.driver dir_table_buf c 1 }

unfoldable pub save_dir : Fs → ℕ → Fs
save_dir fs c = record fs { disk = write_clusters fs.disk fs.driver dir_table_buf c 1 }

-- cmos_read_rtc(&t), and the next reading is another.
abbrev pub now : Fs → Time
now fs = cmos_read_rtc (fs.rtc fs.readings)

abbrev pub tick : Fs → Fs
tick fs = record fs { readings = suc fs.readings }

-- t.hour << 8 | t.minute and t.year << 9 | t.month << 5 | t.day, stored in 16 bits.
unfoldable pub stamp_create : Bytes → ℕ → Time → Bytes
stamp_create m e t =
    put16 (put16 m (e + 14) (bit_or (t.hour * 256) t.minute)) (e + 16)
      (bit_or (bit_or (t.year * 512) (t.month * 32)) t.day)

unfoldable pub stamp_access : Bytes → ℕ → Time → Bytes
stamp_access m e t = put16 m (e + 18) (bit_or (bit_or (t.year * 512) (t.month * 32)) t.day)

-- The directory table at `t` of `m`, with the name at `p` of `names`. The caller's clock ticks.
unfoldable pub init_directory_table : Bytes → ℕ → Bytes → ℕ → ℕ → Time → Bytes
init_directory_table m t names p parent_dir_cluster time =
    let m = memcpy m (entry_at t 0) names p 8 in
    let m = stamp_create m (entry_at t 0) time in
    let m = set_entry_cluster m (entry_at t 0) parent_dir_cluster in
    let m = put8 m (entry_at t 0 + 11) attr_subdirectory in
    let m = put32 m (entry_at t 0 + 28) 0 in put8 m (entry_at t 0 + 13) 1
