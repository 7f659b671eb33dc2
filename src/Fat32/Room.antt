-- ===== src/Fat32/Room.antt =====
-- The search of `write` (src/fat32.c) in a directory that has room, and the making of a directory.
use if2230_2023_oshiete.Common.{
  ℕ, zero, suc, ◌+◌, ◌≤◌, ◌<◌, ◌≡◌, ◌≢◌, refl, sym, ◌∙◌, ap, subst, arith, Bytes, Bool, true, false,
  some, again, leave, for_loop, for_loop-again, for_loop_idle, while_loop, eq→==,
}
use native.Mathlib.Decide.{ℕ_discrete}
use if2230_2023_oshiete.Fat32.Layout.{
  end_of_file, attr_subdirectory, table_length, attribute, undelete, cluster_map,
}
use if2230_2023_oshiete.Fat32.Driver.{Fs, Request, load_fat, load_dir}
use if2230_2023_oshiete.Fat32.Directory.{buf_entry}
use if2230_2023_oshiete.Fat32.Slots.{taken, first_slot, check_entry_first, check_entry_full}
use if2230_2023_oshiete.Fat32.Write.{Slot, check_entry, next_slot, scan_table, write_folder, write}

-- Entry j is the first unused entry of the table behind entry 0, and no entry has the name.
pub record HasRoom (is_folder : Bool) (rq : Request) (m : Bytes) (j : ℕ) : Type 0 where
  pub low : 1 ≤ j
  pub high : j < table_length
  pub used : (i : ℕ) → 1 ≤ i → i < j → undelete m (buf_entry i) ≡ true
  pub unused : undelete m (buf_entry j) ≡ false
  pub other : (i : ℕ) → 1 ≤ i → i < table_length → taken is_folder rq m (buf_entry i) ≡ false

module _ (rq : Request) where
  check_entry_unused :
      (b : Bool) (i : ℕ) (s : Slot)
      → s.found_entry ≡ false
      → s.entry ≡ i
      → i ≢ 0
      → taken b rq s.fs.driver (buf_entry i) ≡ false
      → undelete s.fs.driver (buf_entry i) ≡ false
      → check_entry b rq i s ≡ again (record s { found_entry = true })
  unfolding check_entry
  check_entry_unused true i s f e ne t u = ground arith
  check_entry_unused false i s f e ne t u = ground arith

  check_entry_found :
      (b : Bool) (i : ℕ) (s : Slot)
      → s.found_entry ≡ true
      → taken b rq s.fs.driver (buf_entry i) ≡ false
      → check_entry b rq i s ≡ again s
  unfolding check_entry
  check_entry_found true i s f t = ground arith
  check_entry_found false i s f t = ground arith

  scan_room :
      (b : Bool) (k i j : ℕ) (s : Slot)
      → s.found_entry ≡ false
      → s.entry ≡ i
      → 1 ≤ i
      → i ≤ j
      → i + k ≡ table_length
      → HasRoom b rq s.fs.driver j
      → for_loop (check_entry b rq) k i s ≡ leave (record s { entry = j; found_entry = true })
  scan_room b zero i j s f e lo le end room = absurd (omega (arith, room.high))
  scan_room b (suc k) i j s f e lo le end room = elim (ℕ_discrete i j) [
    | yes here ↦
        for_loop-again (check_entry b rq) k i s (record s { found_entry = true })
          (check_entry_unused b i s f e (omega arith) (room.other i lo (omega arith))
            (subst (λ x. undelete s.fs.driver (buf_entry x) ≡ false) (sym here) room.unused))
        ∙ for_loop_idle (check_entry b rq) k (suc i) (record s { found_entry = true })
            (λ q lt.
              check_entry_found b (suc i + q) (record s { found_entry = true }) refl
                (room.other (suc i + q) (omega arith) (omega arith)))
        ∙ ap (λ (n : ℕ). leave (record s { entry = n; found_entry = true })) (e ∙ here)
    | no ne ↦
        for_loop-again (check_entry b rq) k i s (record s { entry = s.entry + 1 })
          (check_entry_full rq b i s f e (room.other i lo (omega arith))
            (room.used i lo (omega arith)))
        ∙ scan_room b k (suc i) j (record s { entry = s.entry + 1 }) f (omega arith) (omega arith)
            (omega arith) (omega arith) room
  ]

-- What the search has found: entry j, in the table in hand.
abbrev pub slot_at : Request → Fs → ℕ → Slot
slot_at rq fs j = record (first_slot rq fs) { entry = j; found_entry = true }

-- In a directory of one table the search of `write` ends with the first unused entry, with the
-- first free cluster, and with the state as it was.
pub scan_table-HasRoom :
    (fuel : ℕ) (b : Bool) (rq : Request) (fs : Fs) (j : ℕ)
    → cluster_map fs.driver rq.parent_cluster_number ≡ end_of_file
    → HasRoom b rq fs.driver j
    → while_loop (scan_table b rq) (suc fuel) (first_slot rq fs) ≡ leave (slot_at rq fs j)
unfolding scan_table next_slot while_loop
scan_table-HasRoom fuel b rq fs j single room =
    rw
      (for_loop-again (check_entry b rq) 63 0 (first_slot rq fs)
          (record (first_slot rq fs) { entry = 0 + 1 })
          (check_entry_first rq b (first_slot rq fs) refl refl)
        ∙ scan_room rq b 63 1 j (record (first_slot rq fs) { entry = 0 + 1 }) refl refl
            (omega arith) room.low refl room)
      (rw single)

-- The making of a directory, as far as the search goes: the rest is write_folder's.
pub write-folder :
    (fuel : ℕ) (rq : Request) (fs : Fs) (j : ℕ)
    → let loaded = load_dir (load_fat fs) rq.parent_cluster_number in
      rq.buffer_size ≡ 0
      → attribute loaded.driver (buf_entry 0) ≡ attr_subdirectory
      → cluster_map loaded.driver rq.parent_cluster_number ≡ end_of_file
      → HasRoom true rq loaded.driver j
      → write (suc fuel) rq fs ≡ some (0, write_folder rq (slot_at rq loaded j))
unfolding write
write-folder fuel rq fs j empty directory single room = rw (
  eq→== rq.buffer_size 0 empty,
  eq→== _ attr_subdirectory directory,
  scan_table-HasRoom fuel true rq (load_dir (load_fat fs) rq.parent_cluster_number) j single room,
)
