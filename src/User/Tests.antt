-- ===== src/User/Tests.antt =====
-- cd (src/commands/cd.c) at a concrete state.
use if2230_2023_oshiete.Common.{
  zero, suc, ◌≡◌, refl, arith, Bytes, IsBytes, [], ◌∷◌, Option, none, some, put8, put16, put32,
  get16, get32, copy, for_loop, while_loop, if◌then◌else◌, ◌==◌,
}
use if2230_2023_oshiete.Mem.{memcmp}
use if2230_2023_oshiete.Disk.{block_at, read_blocks}
use if2230_2023_oshiete.Framebuffer.{Screen}
use if2230_2023_oshiete.Fat32.Driver.{
  Fs, Result, load_dir, load_fat, save_dir, stamp_access, read_clusters, cluster_to_lba,
}
use if2230_2023_oshiete.Fat32.Layout.{end_of_file, attribute, undelete, entry_cluster, cluster_map}
use if2230_2023_oshiete.Fat32.Directory.{
  read_directory, read_directory_table, read_directory_entry, open_directory, copy_table,
  touch_entry, next_table, same_name, same_ext,
}
use if2230_2023_oshiete.Fat32.Init.{zeros, bytes_of}
use if2230_2023_oshiete.Fat32.Tests.{machine, medium}
use if2230_2023_oshiete.Str.Token.{IsToken}
use if2230_2023_oshiete.User.{CurrentWorkingDirectory}
use if2230_2023_oshiete.User.Cd.{cd}
use if2230_2023_oshiete.User.Name.{IsName, name_request}
use if2230_2023_oshiete.User.Enter.{entered, cd-name}

abbrev value_of : Option Result → Result
value_of none = (0, machine zeros zeros zeros)
value_of (some r) = r

-- The root holds the directory "a" in cluster 5.
abbrev running : Fs
running = machine (put32 (put8 (put8 medium 4139 16) 4154 5) 2068 end_of_file) zeros zeros

abbrev at_root : CurrentWorkingDirectory
at_root = record { clusters_stack = λ i. if i == 0 then 2 else 0; dir_names = zeros; top = 0 }

abbrev screen : Screen
screen = record { cells = λ q. 0; cursor = 0 }

abbrev letter : Bytes
letter = bytes_of (b'a' ∷ [])

abbrev found : Result
found = value_of (read_directory 130 (name_request letter 0 1 2) running)

letter_found : read_directory 130 (name_request letter 0 1 2) running ≡ some (0, found.1)
unfolding read_directory read_directory_table read_directory_entry open_directory copy_table
    touch_entry load_dir load_fat read_clusters read_blocks block_at cluster_to_lba put8 put32
    attribute undelete entry_cluster get16 get32 cluster_map same_name same_ext memcmp copy for_loop
    while_loop save_dir stamp_access put16 next_table
letter_found = refl

letter-IsBytes : IsBytes letter
letter-IsBytes zero = omega arith
letter-IsBytes (suc a) = omega arith

letter-IsName : IsName letter 0 1
letter-IsName = record {
  low = omega arith;
  high = omega arith;
  token = token;
  ends = refl;
  not_up = λ e. absurd (omega (arith, e));
}
  where
    token : IsToken letter 0 1 b'/'
    token zero lt = (λ e. absurd (omega arith), λ e. absurd (omega arith))
    token (suc i) lt = absurd (omega arith)

moves :
    cd 130 at_root letter 0 zeros none running screen
    ≡ some (entered at_root letter 0 1 0 found.1, screen)
moves =
    cd-name 130 at_root letter 0 zeros none running screen 1 0 found.1 letter-IsBytes letter-IsName
      (omega arith) (omega arith) letter_found
