-- ===== src/User/Cat/Tests.antt =====
-- cat (src/commands/cat.c) at a concrete state.
use if2230_2023_oshiete.Common.{
  ℕ, ◌+◌, ◌<◌, ◌≢◌, zero, suc, ◌≡◌, refl, arith, Bytes, IsBytes, [], ◌∷◌, Option, none, some, put8,
  put16, put32, get16, get32, copy, for_loop, while_loop, if◌then◌else◌, ◌==◌,
}
use if2230_2023_oshiete.Mem.{memcmp}
use if2230_2023_oshiete.Disk.{block_at, read_blocks}
use if2230_2023_oshiete.Framebuffer.{Screen}
use if2230_2023_oshiete.Fat32.Driver.{
  Fs, Result, load_dir, load_fat, save_dir, stamp_access, read_clusters, cluster_to_lba,
}
use if2230_2023_oshiete.Fat32.Layout.{
  end_of_file, filesize, attribute, undelete, entry_cluster, cluster_map,
}
use if2230_2023_oshiete.Fat32.Directory.{touch_entry, next_table, same_name, same_ext}
use if2230_2023_oshiete.Fat32.Init.{zeros, bytes_of}
use if2230_2023_oshiete.Fat32.Tests.{machine, medium}
use if2230_2023_oshiete.Str.Token.{IsToken}
use if2230_2023_oshiete.User.{CurrentWorkingDirectory}
use if2230_2023_oshiete.User.Name.{IsName}
use if2230_2023_oshiete.Framebuffer.{puts_buff}
use if2230_2023_oshiete.Fat32.Read.{read, read_table, read_entry, read_file}
use if2230_2023_oshiete.Fat32.Directory.{copy_cluster}
use if2230_2023_oshiete.User.Cat.{cat}
use if2230_2023_oshiete.User.Cat.Text.{texts, low_bytes}
use if2230_2023_oshiete.User.Cat.Shown.{plain_request, cat-texts}

abbrev screen : Screen
screen = record { cells = λ q. 0; cursor = 0 }

abbrev value_of : Option Result → Result
value_of none = (0, machine zeros zeros zeros)
value_of (some r) = r

-- The root holds the file "a" of 100 bytes in cluster 5, which begins with "hi".
abbrev running : Fs
running =
    machine
      (put8 (put8 (put32 (put32 (put8 medium 4154 5) 4156 100) 2068 end_of_file) 10240 b'h') 10241
        b'i')
      zeros zeros

abbrev at_root : CurrentWorkingDirectory
at_root = record { clusters_stack = λ i. if i == 0 then 2 else 0; dir_names = zeros; top = 0 }

abbrev letter : Bytes
letter = bytes_of (b'a' ∷ [])

letter-IsBytes : IsBytes letter
letter-IsBytes zero = omega arith
letter-IsBytes (suc a) = omega arith

letter-IsName : IsName letter 0 1
letter-IsName = record {
  low = omega arith;
  high = omega arith;
  token = token;
  ends = refl;
  not_up = λ e. absurd (omega (arith, e));
}
  where
    token : IsToken letter 0 1 b'/'
    token zero lt = (λ e. absurd (omega arith), λ e. absurd (omega arith))
    token (suc i) lt = absurd (omega arith)

abbrev found : Result
found = value_of (read 130 (plain_request letter 0 1 2) running)

letter_found : read 130 (plain_request letter 0 1 2) running ≡ some (0, found.1)
unfolding read read_table read_entry read_file copy_cluster touch_entry load_dir load_fat
    read_clusters read_blocks block_at cluster_to_lba put8 put32 attribute undelete entry_cluster
    get16 get32 cluster_map same_name same_ext memcmp copy for_loop while_loop save_dir stamp_access
    put16 next_table filesize
letter_found = refl

cat-texts_example :
    cat 130 at_root letter 0 100 zeros none running screen
    ≡ some (puts_buff screen (texts (low_bytes (found.1.buf)) 5 0) 15, found.1)
cat-texts_example =
    cat-texts 130 at_root letter 0 100 zeros none running screen 1 found.1 letter-IsBytes
      (λ a. omega arith) letter-IsName no_dot (omega arith) (omega arith) letter_found
  where
    no_dot : (i : ℕ) → i < 1 → letter (0 + i) ≢ b'.'
    no_dot zero lt e = absurd (omega arith)
    no_dot (suc i) lt e = absurd (omega arith)
