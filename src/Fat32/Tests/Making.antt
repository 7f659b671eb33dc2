-- ===== src/Fat32/Tests/Making.antt =====
-- The making of a file and of a directory by `write` (src/fat32.c) at a concrete state.
use if2230_2023_oshiete.Common.{
  length, ℕ, ◌≡◌, refl, arith, List, Bool, true, false, not, some, every, every-at, copy, put8,
  put32, get32,
}
use if2230_2023_oshiete.Mem.{memcmp}
use if2230_2023_oshiete.Disk.{block_at, read_blocks}
use if2230_2023_oshiete.Fat32.Layout.{attribute, undelete, cluster_map, set_cluster_map}
use if2230_2023_oshiete.Fat32.Driver.{
  Fs, Request, cluster_to_lba, read_clusters, load_fat, load_dir, save_dir,
}
use if2230_2023_oshiete.Fat32.Directory.{buf_entry, same_name, same_ext}
use if2230_2023_oshiete.Fat32.Space.{free_from, free_count}
use if2230_2023_oshiete.Fat32.Store.{Stored}
use if2230_2023_oshiete.Fat32.Slots.{taken}
use if2230_2023_oshiete.Fat32.Write.{Chain, write}
use if2230_2023_oshiete.Fat32.Room.{HasRoom, slot_at}
use if2230_2023_oshiete.Fat32.Create.{file_start, write-file}
use if2230_2023_oshiete.Fat32.Tests.{booted, request, not-false}

-- A request for "b", of 3000 bytes, and one for a directory of that name.
abbrev pub file_request : Request
file_request = record (request 98) { buffer_size = 3000 }

abbrev folder_request : Request
folder_request = record (request 98) { buffer_size = 0 }

abbrev pub loaded : Fs
loaded = load_dir (load_fat booted) 2

pub free_loaded : free_count loaded.driver ≡ 509
unfolding free_count free_from cluster_map get32 load_dir load_fat read_clusters read_blocks
    block_at cluster_to_lba put8 put32 copy
free_loaded = refl

pub every_other :
    (every (λ i. not (taken false file_request loaded.driver (buf_entry i))) 63 1 ≡ true)
    × (every (λ i. not (taken true folder_request loaded.driver (buf_entry i))) 63 1 ≡ true)
unfolding load_dir load_fat read_clusters read_blocks block_at cluster_to_lba put8 put32 attribute
    undelete same_name same_ext memcmp copy
every_other = (refl, refl)

used_first :
    (every (λ i. undelete loaded.driver (buf_entry i)) 1 1 ≡ true)
    × (undelete loaded.driver (buf_entry 2) ≡ false)
unfolding load_dir load_fat read_clusters read_blocks block_at cluster_to_lba put8 put32 undelete
    copy
used_first = (refl, refl)

pub HasRoom-every :
    (b : Bool) (rq : Request)
    → every (λ i. not (taken b rq loaded.driver (buf_entry i))) 63 1 ≡ true
    → HasRoom b rq loaded.driver 2
HasRoom-every b rq h = record {
  low = omega arith;
  high = omega arith;
  used = λ i lo hi. every-at (λ i. undelete loaded.driver (buf_entry i)) 1 1 i used_first.0 lo hi;
  unused = used_first.1;
  other = λ i lo hi.
      not-false _ (every-at (λ i. not (taken b rq loaded.driver (buf_entry i))) 63 1 i h lo hi);
}

pub root_loaded :
    (attribute loaded.driver (buf_entry 0) ≡ 16) × (cluster_map loaded.driver 2 ≡ 0x0FFFFFFF)
unfolding load_dir load_fat read_clusters read_blocks block_at cluster_to_lba put8 put32 attribute
    copy cluster_map get32 set_cluster_map
root_loaded = (refl, refl)

write-file_example :
    (c : Chain) × (cs : List ℕ) × (write 3 file_request booted ≡ some (0, save_dir c.fs 2))
    × (length cs ≡ 2)
    × Stored (file_start file_request (slot_at file_request loaded 2)) c cs
write-file_example =
    write-file 2 2 file_request booted 2 root_loaded.0 root_loaded.1
      (HasRoom-every false file_request every_other.0) (omega arith) (omega arith) (omega arith)
      (omega arith) (omega (arith, free_loaded)) (omega arith)
