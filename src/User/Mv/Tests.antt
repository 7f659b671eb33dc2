-- ===== src/User/Mv/Tests.antt =====
-- mv (src/commands/mv.c) at a concrete state.
use if2230_2023_oshiete.Common.{
  ℕ, ◌≡◌, refl, arith, Option, some, put8, put16, put32, get16, get32, copy, for_loop, while_loop,
  clear, ◌==◌, ◌&&◌, if◌then◌else◌,
}
use if2230_2023_oshiete.Mem.{memcmp, memcpy}
use if2230_2023_oshiete.Cmos.{cmos_read_rtc}
use if2230_2023_oshiete.Disk.{block_at, read_blocks, write_blocks}
use if2230_2023_oshiete.Fat32.Layout.{
  filesize, attribute, undelete, entry_cluster, set_entry_cluster, cluster_map, set_cluster_map,
}
use if2230_2023_oshiete.Fat32.Driver.{
  Fs, load_dir, load_fat, save_dir, save_fat, stamp_access, stamp_create, init_directory_table,
  read_clusters, write_clusters, cluster_to_lba,
}
use if2230_2023_oshiete.Fat32.Directory.{
  touch_entry, next_table, same_name, same_ext, copy_cluster, read_directory, read_directory_table,
  read_directory_entry, open_directory, copy_table,
}
use if2230_2023_oshiete.Fat32.Read.{read, read_table, read_entry, read_file}
use if2230_2023_oshiete.Fat32.Write.{
  find_from, find_empty_cluster, check_entry, extend_directory, next_slot, scan_table, write_folder,
  fill_entry, write_fragment, write_round, write_file, write,
}
use if2230_2023_oshiete.Fat32.Delete.{
  delete, delete_table, delete_entry, delete_found, folder_in_use, drop_entry, see_table, see_entry,
  free_chain, free_next,
}
use if2230_2023_oshiete.Fat32.Init.{zeros}
use if2230_2023_oshiete.User.{call_read_directory}
use if2230_2023_oshiete.User.Target.{Run, probe, as_file, file, directory, absent, with_buf}
use if2230_2023_oshiete.User.Messages.{shown}
use if2230_2023_oshiete.User.Plain.{target}
use if2230_2023_oshiete.User.Sample.{
  caller, start, fs_of, probed, words, words-IsBytes, a-IsPlain, b-IsPlain, d-IsPlain,
}
use if2230_2023_oshiete.User.Mv.{move_file_failed, replace_failed, mv}
use if2230_2023_oshiete.User.Mv.Named.{told, mv-into, mv-replace}

-- The file "a".
abbrev a_read : Fs
a_read = probed (probe 130 caller (target caller words 0 1) (record (start.fs) { buf = zeros }))

a_is_file :
    probe 130 caller (target caller words 0 1) (record (start.fs) { buf = zeros })
    ≡ some (record { kind = file; fs = a_read })
unfolding read_directory read_directory_table read_directory_entry open_directory copy_table
    touch_entry load_dir load_fat read_clusters read_blocks block_at cluster_to_lba put8 put32
    attribute undelete entry_cluster get16 get32 cluster_map same_name same_ext memcmp copy for_loop
    while_loop save_dir stamp_access put16 next_table read read_table read_entry read_file
    copy_cluster filesize call_read_directory write_clusters write_blocks probe as_file
a_is_file = refl

abbrev left : Fs → Option ℕ → Run
left fs next = record { screen = start.screen; fs = fs; next = next }

-- The directory "d", and the file in it.
abbrev d_read : Fs
d_read = probed (probe 130 caller (target caller words 2 1) a_read)

d_is_directory :
    probe 130 caller (target caller words 2 1) a_read
    ≡ some (record { kind = directory; fs = d_read })
unfolding read_directory read_directory_table read_directory_entry open_directory copy_table
    touch_entry load_dir load_fat read_clusters read_blocks block_at cluster_to_lba put8 put32
    attribute undelete entry_cluster get16 get32 cluster_map same_name same_ext memcmp copy for_loop
    while_loop save_dir stamp_access put16 next_table read read_table read_entry read_file
    copy_cluster filesize call_read_directory write_clusters write_blocks probe as_file
d_is_directory = refl

abbrev d_written : Fs
d_written = fs_of (
    write 130 (record (target caller words 0 1) { parent_cluster_number = d_read.found })
      (with_buf d_read a_read.buf))

d_is_written :
    write 130
      (record (target caller words 0 1) { parent_cluster_number = d_read.found })
      (with_buf d_read a_read.buf)
    ≡ some (0, d_written)
unfolding read_directory read_directory_table read_directory_entry open_directory copy_table
    touch_entry load_dir load_fat read_clusters read_blocks block_at cluster_to_lba put8 put32
    attribute undelete entry_cluster get16 get32 cluster_map same_name same_ext memcmp copy for_loop
    while_loop save_dir stamp_access put16 next_table read read_table read_entry read_file
    copy_cluster filesize call_read_directory write_clusters write_blocks probe as_file delete
    delete_table delete_entry delete_found folder_in_use drop_entry see_table see_entry free_chain
    free_next save_fat set_cluster_map clear find_from find_empty_cluster check_entry
    extend_directory next_slot scan_table write_folder fill_entry write_fragment write_round
    write_file write memcpy stamp_create set_entry_cluster init_directory_table cmos_read_rtc
d_is_written = refl

abbrev d_moved : Fs
d_moved = fs_of (delete 130 (target caller words 0 1) d_written)

d_is_moved : delete 130 (target caller words 0 1) d_written ≡ some (0, d_moved)
unfolding read_directory read_directory_table read_directory_entry open_directory copy_table
    touch_entry load_dir load_fat read_clusters read_blocks block_at cluster_to_lba put8 put32
    attribute undelete entry_cluster get16 get32 cluster_map same_name same_ext memcmp copy for_loop
    while_loop save_dir stamp_access put16 next_table read read_table read_entry read_file
    copy_cluster filesize call_read_directory write_clusters write_blocks probe as_file delete
    delete_table delete_entry delete_found folder_in_use drop_entry see_table see_entry free_chain
    free_next save_fat set_cluster_map clear find_from find_empty_cluster check_entry
    extend_directory next_slot scan_table write_folder fill_entry write_fragment write_round
    write_file write memcpy stamp_create set_entry_cluster init_directory_table cmos_read_rtc
d_is_moved = refl

mv-into_example :
    (next : Option ℕ) × (mv 130 caller words 0 2 start
      ≡ some (
          if 0 == 0
          then told 0 move_file_failed 27 (left d_moved next)
          else shown move_file_failed 27 (left d_written next)))
mv-into_example =
    mv-into 130 caller words 0 1 2 1 start words-IsBytes (λ a. omega arith) a-IsPlain d-IsPlain
      (omega arith) (omega arith) a_read d_read a_is_file 0 d_written 0 d_moved d_is_directory
      d_is_written d_is_moved

-- The name "c", which nothing has.
abbrev c_read : Fs
c_read = probed (probe 130 caller (target caller words 6 1) a_read)

c_is_absent :
    probe 130 caller (target caller words 6 1) a_read ≡ some (record { kind = absent; fs = c_read })
unfolding read_directory read_directory_table read_directory_entry open_directory copy_table
    touch_entry load_dir load_fat read_clusters read_blocks block_at cluster_to_lba put8 put32
    attribute undelete entry_cluster get16 get32 cluster_map same_name same_ext memcmp copy for_loop
    while_loop save_dir stamp_access put16 next_table read read_table read_entry read_file
    copy_cluster filesize call_read_directory write_clusters write_blocks probe as_file
c_is_absent = refl

abbrev c_written : Fs
c_written = fs_of (write 130 (target caller words 6 1) (with_buf c_read a_read.buf))

c_is_written :
    write 130 (target caller words 6 1) (with_buf c_read a_read.buf) ≡ some (0, c_written)
unfolding read_directory read_directory_table read_directory_entry open_directory copy_table
    touch_entry load_dir load_fat read_clusters read_blocks block_at cluster_to_lba put8 put32
    attribute undelete entry_cluster get16 get32 cluster_map same_name same_ext memcmp copy for_loop
    while_loop save_dir stamp_access put16 next_table read read_table read_entry read_file
    copy_cluster filesize call_read_directory write_clusters write_blocks probe as_file delete
    delete_table delete_entry delete_found folder_in_use drop_entry see_table see_entry free_chain
    free_next save_fat set_cluster_map clear find_from find_empty_cluster check_entry
    extend_directory next_slot scan_table write_folder fill_entry write_fragment write_round
    write_file write memcpy stamp_create set_entry_cluster init_directory_table cmos_read_rtc
c_is_written = refl

abbrev c_renamed : Fs
c_renamed = fs_of (delete 130 (target caller words 0 1) c_written)

c_is_renamed : delete 130 (target caller words 0 1) c_written ≡ some (0, c_renamed)
unfolding read_directory read_directory_table read_directory_entry open_directory copy_table
    touch_entry load_dir load_fat read_clusters read_blocks block_at cluster_to_lba put8 put32
    attribute undelete entry_cluster get16 get32 cluster_map same_name same_ext memcmp copy for_loop
    while_loop save_dir stamp_access put16 next_table read read_table read_entry read_file
    copy_cluster filesize call_read_directory write_clusters write_blocks probe as_file delete
    delete_table delete_entry delete_found folder_in_use drop_entry see_table see_entry free_chain
    free_next save_fat set_cluster_map clear find_from find_empty_cluster check_entry
    extend_directory next_slot scan_table write_folder fill_entry write_fragment write_round
    write_file write memcpy stamp_create set_entry_cluster init_directory_table cmos_read_rtc
c_is_renamed = refl

-- The file "b".
abbrev b_read : Fs
b_read = probed (probe 130 caller (target caller words 4 1) a_read)

b_is_file :
    probe 130 caller (target caller words 4 1) a_read ≡ some (record { kind = file; fs = b_read })
unfolding read_directory read_directory_table read_directory_entry open_directory copy_table
    touch_entry load_dir load_fat read_clusters read_blocks block_at cluster_to_lba put8 put32
    attribute undelete entry_cluster get16 get32 cluster_map same_name same_ext memcmp copy for_loop
    while_loop save_dir stamp_access put16 next_table read read_table read_entry read_file
    copy_cluster filesize call_read_directory write_clusters write_blocks probe as_file
b_is_file = refl

abbrev b_first : Fs
b_first = fs_of (delete 130 (target caller words 0 1) b_read)

b_is_first : delete 130 (target caller words 0 1) b_read ≡ some (0, b_first)
unfolding read_directory read_directory_table read_directory_entry open_directory copy_table
    touch_entry load_dir load_fat read_clusters read_blocks block_at cluster_to_lba put8 put32
    attribute undelete entry_cluster get16 get32 cluster_map same_name same_ext memcmp copy for_loop
    while_loop save_dir stamp_access put16 next_table read read_table read_entry read_file
    copy_cluster filesize call_read_directory write_clusters write_blocks probe as_file delete
    delete_table delete_entry delete_found folder_in_use drop_entry see_table see_entry free_chain
    free_next save_fat set_cluster_map clear find_from find_empty_cluster check_entry
    extend_directory next_slot scan_table write_folder fill_entry write_fragment write_round
    write_file write memcpy stamp_create set_entry_cluster init_directory_table cmos_read_rtc
b_is_first = refl

abbrev b_second : Fs
b_second = fs_of (delete 130 (target caller words 4 1) b_first)

b_is_second : delete 130 (target caller words 4 1) b_first ≡ some (0, b_second)
unfolding read_directory read_directory_table read_directory_entry open_directory copy_table
    touch_entry load_dir load_fat read_clusters read_blocks block_at cluster_to_lba put8 put32
    attribute undelete entry_cluster get16 get32 cluster_map same_name same_ext memcmp copy for_loop
    while_loop save_dir stamp_access put16 next_table read read_table read_entry read_file
    copy_cluster filesize call_read_directory write_clusters write_blocks probe as_file delete
    delete_table delete_entry delete_found folder_in_use drop_entry see_table see_entry free_chain
    free_next save_fat set_cluster_map clear find_from find_empty_cluster check_entry
    extend_directory next_slot scan_table write_folder fill_entry write_fragment write_round
    write_file write memcpy stamp_create set_entry_cluster init_directory_table cmos_read_rtc
b_is_second = refl

abbrev b_written : Fs
b_written = fs_of (write 130 (target caller words 4 1) (with_buf b_second a_read.buf))

b_is_written :
    write 130 (target caller words 4 1) (with_buf b_second a_read.buf) ≡ some (0, b_written)
unfolding read_directory read_directory_table read_directory_entry open_directory copy_table
    touch_entry load_dir load_fat read_clusters read_blocks block_at cluster_to_lba put8 put32
    attribute undelete entry_cluster get16 get32 cluster_map same_name same_ext memcmp copy for_loop
    while_loop save_dir stamp_access put16 next_table read read_table read_entry read_file
    copy_cluster filesize call_read_directory write_clusters write_blocks probe as_file delete
    delete_table delete_entry delete_found folder_in_use drop_entry see_table see_entry free_chain
    free_next save_fat set_cluster_map clear find_from find_empty_cluster check_entry
    extend_directory next_slot scan_table write_folder fill_entry write_fragment write_round
    write_file write memcpy stamp_create set_entry_cluster init_directory_table cmos_read_rtc
b_is_written = refl

mv-replace_example :
    (next : Option ℕ) × (mv 130 caller words 0 4 start
      ≡ some (
          if 0 == 0 && 0 == 0
          then told 0 replace_failed 38 (left b_written next)
          else shown replace_failed 38 (left b_second next)))
mv-replace_example =
    mv-replace 130 caller words 0 1 4 1 start words-IsBytes (λ a. omega arith) a-IsPlain b-IsPlain
      (omega arith) (omega arith) a_read b_read a_is_file 0 b_first 0 b_second 0 b_written b_is_file
      b_is_first b_is_second b_is_written
