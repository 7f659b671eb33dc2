-- ===== src/User/Rm/Tests.antt =====
-- rm (src/commands/rm.c) at a concrete state.
use if2230_2023_oshiete.Common.{
  ℕ, ◌≡◌, refl, arith, Option, some, true, false, put8, put16, put32, get16, get32, copy, for_loop,
  while_loop, clear, ◌==◌, if◌then◌else◌,
}
use if2230_2023_oshiete.Mem.{memcmp}
use if2230_2023_oshiete.Disk.{block_at, read_blocks}
use if2230_2023_oshiete.Fat32.Layout.{
  filesize, attribute, user_attribute, undelete, entry_cluster, cluster_map, set_cluster_map,
}
use if2230_2023_oshiete.Fat32.Driver.{
  Fs, load_dir, load_fat, save_dir, save_fat, stamp_access, read_clusters, write_clusters,
  cluster_to_lba,
}
use if2230_2023_oshiete.Disk.{write_blocks}
use if2230_2023_oshiete.Fat32.Directory.{
  touch_entry, next_table, same_name, same_ext, copy_cluster, read_directory, read_directory_table,
  read_directory_entry, open_directory, copy_table,
}
use if2230_2023_oshiete.Fat32.Read.{read, read_table, read_entry, read_file}
use if2230_2023_oshiete.Fat32.Delete.{
  delete, delete_table, delete_entry, delete_found, folder_in_use, drop_entry, see_table, see_entry,
  free_chain, free_next,
}
use if2230_2023_oshiete.Fat32.Init.{zeros}
use if2230_2023_oshiete.User.{call_read_directory}
use if2230_2023_oshiete.User.Messages.{shown}
use if2230_2023_oshiete.User.Plain.{target}
use if2230_2023_oshiete.User.Sample.{
  caller, start, fs_of, words, words-IsBytes, a-IsPlain, d-IsPlain,
}
use if2230_2023_oshiete.User.Rm.{delete_failed, not_specified, rm}
use if2230_2023_oshiete.User.Rm.Alone.{rm-alone}
use if2230_2023_oshiete.User.Rm.Named.{rm-file, rm-in_use}

rm-alone_example :
    rm 5 130 caller words 0 false true start ≡ rm 1 130 caller words 0 false true start
rm-alone_example = rm-alone 4 130 caller words 0 true start

-- The directory "d".
abbrev opened : Fs
opened =
    fs_of (call_read_directory 130 (target caller words 2 1) (record (start.fs) { buf = zeros }))

d_found :
    call_read_directory 130 (target caller words 2 1) (record (start.fs) { buf = zeros })
    ≡ some (0, opened)
unfolding read_directory read_directory_table read_directory_entry open_directory copy_table
    touch_entry load_dir load_fat read_clusters read_blocks block_at cluster_to_lba put8 put32
    attribute undelete entry_cluster get16 get32 cluster_map same_name same_ext memcmp copy for_loop
    while_loop save_dir stamp_access put16 next_table read read_table read_entry read_file
    copy_cluster filesize call_read_directory
d_found = refl

d_in_use : user_attribute opened.buf 0 ≡ 170
unfolding read_directory read_directory_table read_directory_entry open_directory copy_table
    touch_entry load_dir load_fat read_clusters read_blocks block_at cluster_to_lba put8 put32
    attribute undelete entry_cluster get16 get32 cluster_map same_name same_ext memcmp copy for_loop
    while_loop save_dir stamp_access put16 next_table read read_table read_entry read_file
    copy_cluster filesize call_read_directory user_attribute write_clusters write_blocks
d_in_use = refl

rm-in_use_example :
    (next : Option ℕ) × (rm 1 130 caller words 2 false true start
      ≡ some (shown not_specified 25 (record { screen = start.screen; fs = opened; next = next })))
rm-in_use_example =
    rm-in_use 0 130 caller words 2 1 false true start words-IsBytes (λ a. omega arith) d-IsPlain
      (omega arith) (omega arith) opened refl d_found d_in_use

-- The file "a".
abbrev no_directory : Fs
no_directory =
    fs_of (call_read_directory 130 (target caller words 0 1) (record (start.fs) { buf = zeros }))

a_is_no_directory :
    call_read_directory 130 (target caller words 0 1) (record (start.fs) { buf = zeros })
    ≡ some (1, no_directory)
unfolding read_directory read_directory_table read_directory_entry open_directory copy_table
    touch_entry load_dir load_fat read_clusters read_blocks block_at cluster_to_lba put8 put32
    attribute undelete entry_cluster get16 get32 cluster_map same_name same_ext memcmp copy for_loop
    while_loop save_dir stamp_access put16 next_table read read_table read_entry read_file
    copy_cluster filesize call_read_directory
a_is_no_directory = refl

abbrev a_read : Fs
a_read = fs_of (read 130 (target caller words 0 1) (record no_directory { buf = zeros }))

a_is_file :
    read 130 (target caller words 0 1) (record no_directory { buf = zeros }) ≡ some (0, a_read)
unfolding read_directory read_directory_table read_directory_entry open_directory copy_table
    touch_entry load_dir load_fat read_clusters read_blocks block_at cluster_to_lba put8 put32
    attribute undelete entry_cluster get16 get32 cluster_map same_name same_ext memcmp copy for_loop
    while_loop save_dir stamp_access put16 next_table read read_table read_entry read_file
    copy_cluster filesize call_read_directory
a_is_file = refl

abbrev a_deleted : Fs
a_deleted = fs_of (delete 130 (target caller words 0 1) a_read)

a_is_deleted : delete 130 (target caller words 0 1) a_read ≡ some (0, a_deleted)
unfolding read_directory read_directory_table read_directory_entry open_directory copy_table
    touch_entry load_dir load_fat read_clusters read_blocks block_at cluster_to_lba put8 put32
    attribute undelete entry_cluster get16 get32 cluster_map same_name same_ext memcmp copy for_loop
    while_loop save_dir stamp_access put16 next_table read read_table read_entry read_file
    copy_cluster filesize call_read_directory delete delete_table delete_entry delete_found
    folder_in_use drop_entry see_table see_entry free_chain free_next save_fat write_clusters
    write_blocks set_cluster_map clear
a_is_deleted = refl

rm-file_example :
    (next : Option ℕ) × (rm 1 130 caller words 0 false true start
      ≡ some (
          if 0 == 0
          then record { screen = start.screen; fs = a_deleted; next = next }
          else shown delete_failed 21
              (record { screen = start.screen; fs = a_deleted; next = next })))
rm-file_example =
    rm-file 0 130 caller words 0 1 false true start words-IsBytes (λ a. omega arith) a-IsPlain
      (omega arith) (omega arith) 1 0 no_directory a_read a_deleted a_is_no_directory
      (λ e. absurd (omega (arith, e))) a_is_file a_is_deleted
