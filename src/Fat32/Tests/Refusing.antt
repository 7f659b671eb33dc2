-- ===== src/Fat32/Tests/Refusing.antt =====
-- What `delete` (src/fat32.c) refuses, at a concrete state.
use if2230_2023_oshiete.Common.{◌≡◌, refl, arith, Bytes, true, some, copy, put8, put32, get16}
use if2230_2023_oshiete.Mem.{memcmp}
use if2230_2023_oshiete.Disk.{block_at, read_blocks}
use if2230_2023_oshiete.Fat32.Layout.{attribute, undelete, entry_cluster}
use if2230_2023_oshiete.Fat32.Driver.{Fs, cluster_to_lba, read_clusters, load_fat, load_dir}
use if2230_2023_oshiete.Fat32.Init.{zeros}
use if2230_2023_oshiete.Fat32.Directory.{buf_entry, same_name, same_ext}
use if2230_2023_oshiete.Fat32.Delete.{delete}
use if2230_2023_oshiete.Fat32.Refuse.{matches, delete-in_use}
use if2230_2023_oshiete.Fat32.Tests.{machine, medium, request}

-- The entry "a" of the root is the directory at cluster 5, which is marked as not empty.
abbrev with_folder : Bytes
with_folder = put8 (put8 (put8 medium 4139 16) 4154 5) 10252 170

abbrev started : Fs
started = machine with_folder zeros zeros

abbrev loaded : Fs
loaded = load_fat (load_dir started 2)

found :
    (attribute loaded.driver (buf_entry 0) ≡ 16)
    × (matches (request 97) loaded.driver (buf_entry 1) ≡ true)
    × (attribute loaded.driver (buf_entry 1) ≡ 16)
    × (entry_cluster loaded.driver (buf_entry 1) ≡ 5)
unfolding load_dir load_fat read_clusters read_blocks block_at cluster_to_lba put8 put32 attribute
    undelete entry_cluster get16 same_name same_ext memcmp copy
found = (refl, refl, refl, refl)

marked : with_folder 10252 ≡ 170
unfolding put8 put32
marked = refl

delete-in_use_example : delete 1 (request 97) started ≡ some (2, loaded)
delete-in_use_example =
    delete-in_use 0 0 62 (request 97) started found.0 refl (λ i lt. absurd (omega arith)) found.1
      found.2 (omega (arith, found.3)) (rw found.3 marked)
