-- ===== src/Fat32/Slots.antt =====
-- The search of `write` (src/fat32.c) for a place in the directory.
use if2230_2023_oshiete.Common.{
  ℕ, zero, suc, ◌+◌, ◌≤◌, ◌<◌, ◌≡◌, ◌≢◌, refl, ◌∙◌, ap, subst, arith, Bytes, Bool, true, false,
  ◌&&◌, ◌==◌, not, some, Step, again, leave, return, spin, run_on, for_loop, for_loop-again,
  while_loop, if◌then◌else◌, eq→==,
}
use native.Mathlib.Decide.{ℕ_discrete}
use if2230_2023_oshiete.Fat32.Layout.{
  cluster_buf, end_of_file, attr_subdirectory, table_length, attribute, undelete, cluster_map,
}
use if2230_2023_oshiete.Fat32.Driver.{Fs, Request, Result, load_fat, load_dir}
use if2230_2023_oshiete.Fat32.Directory.{buf_entry, same_name, same_ext}
use if2230_2023_oshiete.Fat32.Store.Round.{set_cluster_map_above}
use if2230_2023_oshiete.Fat32.Write.{
  Slot, check_entry, extend_directory, next_slot, scan_table, find_empty_cluster, write,
}

-- The entry e is in use under the name of the request: of a directory, the name and the kind
-- count; of a file, the name and the extension.
abbrev pub taken : Bool → Request → Bytes → ℕ → Bool
taken true rq m e = same_name m e rq && attribute m e == attr_subdirectory && undelete m e
taken false rq m e = same_name m e rq && same_ext m e rq && undelete m e

module _ (rq : Request) where
  check_entry-taken :
      (is_folder : Bool) (i : ℕ) (s : Slot)
      → i ≢ 0
      → taken is_folder rq s.fs.driver (buf_entry i) ≡ true
      → check_entry is_folder rq i s ≡ return (1, s.fs)
  unfolding check_entry
  check_entry-taken true i s ne h = ground arith
  check_entry-taken false i s ne h = ground arith

  -- A round answers 1, or goes on with the driver's state as it is.
  abbrev GoesOn : Fs → Step Slot Result → Type 0
  GoesOn fs (again t) = t.fs ≡ fs
  GoesOn fs (leave t) = ⊥
  GoesOn fs (return r) = r ≡ (1, fs)
  GoesOn fs spin = ⊥

  GoesOn-branches :
      (s : Slot) (is_dir is_file found unused : Bool)
      → GoesOn s.fs (
          if is_dir
          then return (1, s.fs)
          else (if is_file
              then return (1, s.fs)
              else (if found
                  then again s
                  else (if unused
                      then again (record s { found_entry = true })
                      else again (record s { entry = s.entry + 1 })))))
  GoesOn-branches s true is_file found unused = refl
  GoesOn-branches s false true found unused = refl
  GoesOn-branches s false false true unused = refl
  GoesOn-branches s false false false true = refl
  GoesOn-branches s false false false false = refl

  check_entry-GoesOn : (b : Bool) (i : ℕ) (s : Slot) → GoesOn s.fs (check_entry b rq i s)
  unfolding check_entry
  check_entry-GoesOn b i s =
      let m = s.fs.driver in
      let e = buf_entry i in
      GoesOn-branches s
        (b
          && same_name m e rq
          && attribute m e == attr_subdirectory
          && undelete m e
          && not (i == 0))
        (not b && same_name m e rq && same_ext m e rq && undelete m e && not (i == 0)) s.found_entry
        (not (undelete m (buf_entry s.entry)) && not (s.entry == 0))

  run_on-return :
      (fs : Fs) (rest : Slot → Step Slot Result) (r : Step Slot Result)
      → GoesOn fs r
      → ((t : Slot) → t.fs ≡ fs → rest t ≡ return (1, fs))
      → run_on rest r ≡ return (1, fs)
  run_on-return fs rest (again t) h later = later t h
  run_on-return fs rest (leave t) h later = absurd h
  run_on-return fs rest (return r) h later = ap return h
  run_on-return fs rest spin h later = absurd h

  scan_taken :
      (b : Bool) (fs : Fs) (k i j : ℕ) (s : Slot)
      → s.fs ≡ fs
      → i ≤ j
      → j < i + k
      → j ≢ 0
      → taken b rq fs.driver (buf_entry j) ≡ true
      → for_loop (check_entry b rq) k i s ≡ return (1, fs)
  unfolding for_loop
  scan_taken b fs zero i j s same lo hi ne h = absurd (omega arith)
  scan_taken b fs (suc k) i j s same lo hi ne h = elim (ℕ_discrete i j) [
    | yes e ↦
        rw (check_entry-taken b i s (rw e ne) (rw (e, same) h))
          (ap (λ (f : Fs). return (1, f)) same)
    | no other ↦
        run_on-return fs _ (check_entry b rq i s)
          (subst (λ (f : Fs). GoesOn f (check_entry b rq i s)) same (check_entry-GoesOn b i s))
          λ t same'. scan_taken b fs k (suc i) j t same' (omega arith) (omega arith) ne h
  ]

-- The variables of `write` before its search.
abbrev pub first_slot : Request → Fs → Slot
first_slot rq fs = record {
  fs = fs;
  cluster_index = find_empty_cluster fs.driver;
  found_entry = false;
  entry = 0;
  current_cluster_number = rq.parent_cluster_number;
  current_parent_cluster_number = rq.parent_cluster_number;
}

-- A name that is in use in the first table of the directory is refused with 1, whatever else the
-- directory holds, and nothing has been written: the state is that behind the two loads.
pub write-taken :
    (fuel : ℕ) (rq : Request) (fs : Fs) (j : ℕ)
    → let loaded = load_dir (load_fat fs) rq.parent_cluster_number in
      attribute loaded.driver (buf_entry 0) ≡ attr_subdirectory
      → j ≢ 0
      → j < table_length
      → taken (rq.buffer_size == 0) rq loaded.driver (buf_entry j) ≡ true
      → write (suc fuel) rq fs ≡ some (1, loaded)
unfolding write while_loop scan_table
write-taken fuel rq fs j directory ne lt h = rw (
  eq→== _ attr_subdirectory directory,
  scan_taken rq (rq.buffer_size == 0) (load_dir (load_fat fs) rq.parent_cluster_number) 64 0 j
      (first_slot rq (load_dir (load_fat fs) rq.parent_cluster_number)) refl (omega arith)
      (omega arith) ne h,
)

-- A table in which every entry but the first is in use, and none has the name.
pub record IsFull (is_folder : Bool) (rq : Request) (m : Bytes) : Type 0 where
  pub used : (i : ℕ) → 1 ≤ i → i < table_length → undelete m (buf_entry i) ≡ true
  pub other : (i : ℕ) → 1 ≤ i → i < table_length → taken is_folder rq m (buf_entry i) ≡ false

module _ (rq : Request) where
  pub check_entry_first :
      (b : Bool) (s : Slot)
      → s.found_entry ≡ false
      → s.entry ≡ 0
      → check_entry b rq 0 s ≡ again (record s { entry = s.entry + 1 })
  unfolding check_entry
  check_entry_first true s f e = ground arith
  check_entry_first false s f e = ground arith

  pub check_entry_full :
      (b : Bool) (i : ℕ) (s : Slot)
      → s.found_entry ≡ false
      → s.entry ≡ i
      → taken b rq s.fs.driver (buf_entry i) ≡ false
      → undelete s.fs.driver (buf_entry i) ≡ true
      → check_entry b rq i s ≡ again (record s { entry = s.entry + 1 })
  unfolding check_entry
  check_entry_full true i s f e t u = ground arith
  check_entry_full false i s f e t u = ground arith

  -- The rounds behind the first, as long as every entry is in use.
  scan_full :
      (b : Bool) (k i : ℕ) (s : Slot)
      → s.found_entry ≡ false
      → s.entry ≡ i
      → 1 ≤ i
      → i + k ≡ table_length
      → IsFull b rq s.fs.driver
      → for_loop (check_entry b rq) k i s ≡ leave (record s { entry = table_length })
  unfolding for_loop
  scan_full b zero i s f e lo end full =
      let same : s.entry ≡ table_length = omega arith in
      ap (λ (n : ℕ). leave (record s { entry = n })) same
  scan_full b (suc k) i s f e lo end full =
      for_loop-again (check_entry b rq) k i s (record s { entry = s.entry + 1 })
        (check_entry_full b i s f e (full.other i lo (omega arith)) (full.used i lo (omega arith)))
      ∙ scan_full b k (suc i) (record s { entry = s.entry + 1 }) f (omega arith) (omega arith)
          (omega arith) full

module _ (b : Bool) (rq : Request) (fs : Fs)
    (single : cluster_map fs.driver rq.parent_cluster_number ≡ end_of_file)
    (full : IsFull b rq fs.driver) where
  abbrev behind : Slot
  behind = record (first_slot rq fs) { entry = table_length }

  scan_table_full : scan_table b rq (first_slot rq fs) ≡ leave (extend_directory behind)
  unfolding scan_table next_slot
  scan_table_full =
      rw
        (for_loop-again (check_entry b rq) 63 0 (first_slot rq fs)
            (record (first_slot rq fs) { entry = 0 + 1 })
            (check_entry_first rq b (first_slot rq fs) refl refl)
          ∙ scan_full rq b 63 1 (record (first_slot rq fs) { entry = 0 + 1 }) refl refl
              (omega arith) refl full)
        (rw single)

-- In a directory of one full table the search of `write` ends, and names entry 64 of the buffer:
-- the place behind the table, where the cluster buffer of the driver lies. The cluster that the
-- buffer is to be written to is that of the new table, and the buffer still holds the old one.
pub full_directory :
    (fuel : ℕ) (b : Bool) (rq : Request) (fs : Fs)
    → cluster_map fs.driver rq.parent_cluster_number ≡ end_of_file
    → IsFull b rq fs.driver
    → rq.parent_cluster_number < 512
    → find_empty_cluster fs.driver < 512
    → (t : Slot) × (while_loop (scan_table b rq) (suc fuel) (first_slot rq fs) ≡ leave t)
      × (buf_entry t.entry ≡ cluster_buf)
      × (t.current_parent_cluster_number ≡ find_empty_cluster fs.driver)
      × ((q : ℕ) → 2048 ≤ q → t.fs.driver q ≡ fs.driver q)
unfolding extend_directory while_loop
full_directory fuel b rq fs single full small small' = (
  extend_directory (behind b rq fs single full),
  rw (scan_table_full b rq fs single full),
  refl,
  refl,
  λ q le.
      set_cluster_map_above _ (find_empty_cluster fs.driver) end_of_file q small' le
      ∙ set_cluster_map_above fs.driver rq.parent_cluster_number (find_empty_cluster fs.driver) q
          small le,
)
