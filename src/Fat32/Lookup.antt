-- ===== src/Fat32/Lookup.antt =====
-- Names that a directory does not hold: what `read`, read_directory and `delete` (src/fat32.c)
-- answer, and that they leave the medium alone.
use if2230_2023_oshiete.Common.{
  ℕ, suc, ◌+◌, ◌≤◌, ◌<◌, ◌≡◌, refl, arith, Bytes, false, ◌&&◌, some, again, leave, for_loop_idle,
  while_loop, eq→==, le→ltb,
}
use if2230_2023_oshiete.Fat32.Layout.{
  cluster_size, end_of_file, attr_subdirectory, table_length, attribute, undelete, cluster_map,
}
use if2230_2023_oshiete.Fat32.Driver.{Fs, Request, load_fat, load_dir}
use if2230_2023_oshiete.Fat32.Directory.{
  Search, buf_entry, same_name, read_directory_entry, next_table, read_directory_table,
  read_directory,
}
use if2230_2023_oshiete.Fat32.Read.{read_entry, read_table, read}
use if2230_2023_oshiete.Fat32.Delete.{Place, delete_entry, delete_table, delete}

-- The directory of the request, once its first table stands in the buffer: it is a directory, it
-- has no further table, and no entry in use has the name.
pub record LacksName (m : Bytes) (rq : Request) : Type 0 where
  pub directory : attribute m (buf_entry 0) ≡ attr_subdirectory
  pub single : cluster_map m rq.parent_cluster_number ≡ end_of_file
  pub absent :
      (i : ℕ)
      → 1 ≤ i
      → i < table_length
      → (same_name m (buf_entry i) rq && undelete m (buf_entry i)) ≡ false

module _ (fuel : ℕ) (rq : Request) where
  read_entry-again :
      (i : ℕ) (s : Search)
      → (same_name s.fs.driver (buf_entry i) rq && undelete s.fs.driver (buf_entry i)) ≡ false
      → read_entry fuel rq i s ≡ again s
  unfolding read_entry
  read_entry-again i s h = rw h

  read_directory_entry-again :
      (i : ℕ) (s : Search)
      → (same_name s.fs.driver (buf_entry i) rq && undelete s.fs.driver (buf_entry i)) ≡ false
      → read_directory_entry fuel rq i s ≡ again s
  unfolding read_directory_entry
  read_directory_entry-again i s h = ground arith

  delete_entry-again :
      (i : ℕ) (s : Place)
      → (same_name s.fs.driver (buf_entry i) rq && undelete s.fs.driver (buf_entry i)) ≡ false
      → delete_entry fuel rq i s ≡ again s
  unfolding delete_entry
  delete_entry-again i s h = ground arith

  -- A search that stands at the only table of the directory.
  module _ (s : Search) (lacks : LacksName s.fs.driver rq)
      (at : s.parent ≡ rq.parent_cluster_number) where
    next_table-leave : next_table s ≡ leave (record s { parent = end_of_file })
    unfolding next_table
    next_table-leave = rw (at, lacks.single)

    read_table-leave : read_table fuel rq s ≡ leave (record s { parent = end_of_file })
    unfolding read_table
    read_table-leave =
        rw
          (for_loop_idle (read_entry fuel rq) 63 1 s
            λ j lt. read_entry-again (1 + j) s (lacks.absent (1 + j) (omega arith) (omega arith)))
          next_table-leave

    read_directory_table-leave :
        read_directory_table fuel rq s ≡ leave (record s { parent = end_of_file })
    unfolding read_directory_table
    read_directory_table-leave =
        rw
          (for_loop_idle (read_directory_entry fuel rq) 63 1 s λ j lt.
            read_directory_entry-again (1 + j) s (lacks.absent (1 + j) (omega arith) (omega arith)))
          next_table-leave

module _ (fuel : ℕ) (rq : Request) (fs : Fs) where
  abbrev start : Search
  start = record {
    fs = load_dir fs rq.parent_cluster_number;
    parent = rq.parent_cluster_number;
    ret = 3;
    buffer_size = rq.buffer_size;
  }

  read-absent :
      LacksName start.fs.driver rq
      → cluster_size ≤ rq.buffer_size
      → read (suc fuel) rq fs ≡ some (3, start.fs)
  unfolding read while_loop
  read-absent lacks room = rw (
    le→ltb rq.buffer_size cluster_size room,
    eq→== (attribute start.fs.driver (buf_entry 0)) attr_subdirectory lacks.directory,
    read_table-leave (suc fuel) rq start lacks refl,
  )

  read_directory-absent :
      LacksName start.fs.driver rq → read_directory (suc fuel) rq fs ≡ some (3, start.fs)
  unfolding read_directory while_loop
  read_directory-absent lacks = rw (
    eq→== (attribute start.fs.driver (buf_entry 0)) attr_subdirectory lacks.directory,
    read_directory_table-leave (suc fuel) rq start lacks refl,
  )

  abbrev place : Place
  place = record { fs = load_fat start.fs; current = rq.parent_cluster_number }

  delete_table-leave : LacksName place.fs.driver rq → delete_table (suc fuel) rq place ≡ leave place
  unfolding delete_table
  delete_table-leave lacks =
      rw
        (for_loop_idle (delete_entry (suc fuel) rq) 63 1 place λ j lt.
          delete_entry-again (suc fuel) rq (1 + j) place
            (lacks.absent (1 + j) (omega arith) (omega arith)))
        (rw lacks.single)

  delete-absent : LacksName place.fs.driver rq → delete (suc fuel) rq fs ≡ some (1, place.fs)
  unfolding delete while_loop
  delete-absent lacks = rw (
    eq→== (attribute place.fs.driver (buf_entry 0)) attr_subdirectory lacks.directory,
    delete_table-leave lacks,
  )

-- Where the directory of the request has one table and no entry in use with the name, `read` (with
-- a buffer of at least a cluster) and read_directory answer 3 and `delete` answers 1, and each
-- leaves the state as the loading of that table, and of the table of clusters, has made it.
pub absent_name :
    (fuel : ℕ) (rq : Request) (fs : Fs)
    → LacksName (load_dir fs rq.parent_cluster_number).driver rq
    → LacksName (load_fat (load_dir fs rq.parent_cluster_number)).driver rq
    → cluster_size ≤ rq.buffer_size
    → (read (suc fuel) rq fs ≡ some (3, load_dir fs rq.parent_cluster_number))
      × (read_directory (suc fuel) rq fs ≡ some (3, load_dir fs rq.parent_cluster_number))
      × (delete (suc fuel) rq fs ≡ some (1, load_fat (load_dir fs rq.parent_cluster_number)))
absent_name fuel rq fs lacks lacks' room = (
  read-absent fuel rq fs lacks room,
  read_directory-absent fuel rq fs lacks,
  delete-absent fuel rq fs lacks',
)
