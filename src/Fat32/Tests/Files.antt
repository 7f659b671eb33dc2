-- ===== src/Fat32/Tests/Files.antt =====
-- `write`, `read` and `delete` (src/fat32.c) of one file, at a concrete state.
use if2230_2023_oshiete.Common.{
  ℕ, zero, suc, ap, ◌+◌, ◌*◌, ◌<◌, ◌≡◌, refl, arith, Bytes, IsBytes, [], ◌∷◌, false, some, put8,
  put32, get16, get32,
}
use if2230_2023_oshiete.Mem.{memcmp}
use if2230_2023_oshiete.Fat32.Layout.{
  end_of_file, attribute, undelete, filesize, entry_cluster, cluster_map, dir_table_buf, fat_table,
}
use if2230_2023_oshiete.Fat32.Driver.{Fs}
use if2230_2023_oshiete.Fat32.Init.{zeros, bytes_of}
use if2230_2023_oshiete.Fat32.Directory.{buf_entry, same_name, same_ext}
use if2230_2023_oshiete.Fat32.Read.{read}
use if2230_2023_oshiete.Fat32.Write.{write}
use if2230_2023_oshiete.Fat32.Delete.{delete}
use if2230_2023_oshiete.Fat32.Free.{last, link}
use if2230_2023_oshiete.Fat32.Reload.{IsSaved}
use if2230_2023_oshiete.Fat32.Find.{HoldsFile, HasRead, read-HoldsFile}
use if2230_2023_oshiete.Fat32.Remove.{HasDeleted, delete-HoldsFile}
use if2230_2023_oshiete.Fat32.File.{CanMake, read-write}
use if2230_2023_oshiete.Fat32.Undo.{delete-write}
use if2230_2023_oshiete.Fat32.Tests.{booted, machine, medium, request}
use if2230_2023_oshiete.Fat32.Tests.Making.{
  file_request, loaded, free_loaded, every_other, HasRoom-every, root_loaded,
}

letter-IsBytes : IsBytes (bytes_of (98 ∷ []))
letter-IsBytes zero = omega arith
letter-IsBytes (suc a) = omega arith

can : CanMake file_request loaded 2 2
can = record {
  parent = omega arith;
  not_table = omega arith;
  directory = root_loaded.0;
  single = root_loaded.1;
  room = HasRoom-every false file_request every_other.0;
  above = omega arith;
  below = omega arith;
  some_left = omega arith;
  counts = omega arith;
  space = omega (arith, free_loaded);
  name = letter-IsBytes;
  ext = λ a. omega arith;
}

read-write_example :
    (fs1 fs2 : Fs) × (write 3 file_request booted ≡ some (0, fs1))
    × (read 3 (record file_request { buffer_size = 4096 }) (record fs1 { buf = λ q. 7 })
        ≡ some (0, fs2))
    × ((q : ℕ) → q < 3000 → fs2.buf q ≡ booted.buf q)
read-write_example =
    read-write 2 2 file_request booted 2 4096 (λ q. 7) can (omega arith) (omega arith) (omega arith)

delete-write_example :
    (fs1 fs2 : Fs) × (write 3 file_request booted ≡ some (0, fs1))
    × (delete 3 file_request fs1 ≡ some (0, fs2))
    × ((i : ℕ) → i < 512 → cluster_map fs2.driver i ≡ cluster_map loaded.driver i)
    × (undelete fs2.driver (buf_entry 2) ≡ false)
    × IsSaved fs2 dir_table_buf 2
    × IsSaved fs2 fat_table 1
delete-write_example = delete-write 2 2 file_request booted 2 can (omega arith)

-- The root holds the file "a" of 6000 bytes in the clusters 5, 9 and 7, and the driver has loaded its
-- tables, which lie one behind the other on the medium.
abbrev stocked : Bytes
stocked =
    put32 (put8 (put32 (put32 (put32 medium 2068 9) 2084 7) 2076 end_of_file) 4154 5) 4156 6000

abbrev running : Fs
running = machine stocked (λ q. stocked (2048 + q)) zeros

running-HoldsFile :
    HoldsFile (record (request 97) { buffer_size = 6144 }) running 1 (5 ∷ 9 ∷ 7 ∷ [])
unfolding put8 put32 get16 get32 attribute undelete entry_cluster cluster_map same_name same_ext
    memcmp
running-HoldsFile = record {
  small = omega arith;
  table_saved = λ i lt. let e : 2 * 2048 + i ≡ 2048 + (2048 + i) = omega arith in ap stocked e;
  fat_saved = λ i lt. let e : 1 * 2048 + i ≡ 2048 + (0 + i) = omega arith in ap stocked e;
  directory = refl;
  single = refl;
  low = omega arith;
  high = omega arith;
  named = refl;
  before = λ i lo hi. absurd (omega arith);
  chain = link refl (omega arith) refl (link refl (omega arith) refl (last refl));
  inside = λ i e. ground arith;
  apart = refl;
}

running_size : filesize running.driver (buf_entry 1) ≡ 6000
unfolding filesize get32 put32 put8
running_size = refl

read-HoldsFile_example :
    (fs' : Fs) × (read 3 (record (request 97) { buffer_size = 6144 }) running ≡ some (0, fs'))
    × HasRead (record (request 97) { buffer_size = 6144 }) running fs' (5 ∷ 9 ∷ 7 ∷ [])
read-HoldsFile_example =
    read-HoldsFile 2 (record (request 97) { buffer_size = 6144 }) running 1 (5 ∷ 9 ∷ 7 ∷ [])
      running-HoldsFile (omega arith) (omega (arith, running_size)) (omega arith) (omega arith)

delete-HoldsFile_example :
    (fs' : Fs) × (delete 3 (record (request 97) { buffer_size = 6144 }) running ≡ some (0, fs'))
    × HasDeleted (record (request 97) { buffer_size = 6144 }) running fs' 1 (5 ∷ 9 ∷ 7 ∷ [])
delete-HoldsFile_example =
    delete-HoldsFile 2 (record (request 97) { buffer_size = 6144 }) running 1 (5 ∷ 9 ∷ 7 ∷ [])
      running-HoldsFile (omega arith) (omega arith) (λ i lo hi. absurd (omega arith))
