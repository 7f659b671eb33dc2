-- ===== src/Fat32/Remove.antt =====
-- What `delete` (src/fat32.c) does with a file that the directory holds.
use if2230_2023_oshiete.Common.{
  length, ℕ, zero, suc, ◌+◌, ◌-◌, ◌≤◌, ◌<◌, ◌≡◌, ◌≢◌, refl, ◌∙◌, arith, Bytes, List, Bool, true,
  false, Bool-cases, inl, inr, ◌==◌, some, Step, again, leave, return, for_loop, for_loop-again,
  for_loop-leave, for_loop_skip, for_loop-return, while_loop, eq→==, ne→==, if-same, if◌then◌else◌,
  clear, put8,
}
use if2230_2023_oshiete.Fat32.Layout.{
  end_of_file, attr_subdirectory, entry_size, fat_table, dir_table_buf, attribute, undelete,
  entry_cluster, cluster_map, set_cluster_map,
}
use if2230_2023_oshiete.Fat32.Driver.{Fs, Request, Result, save_dir, save_fat}
use if2230_2023_oshiete.Fat32.Directory.{buf_entry}
use if2230_2023_oshiete.Fat32.Delete.{
  free_next, free_chain, Emptiness, see_entry, see_table, drop_entry, folder_in_use, delete_found,
  Place, delete_entry, delete_table, delete,
}
use if2230_2023_oshiete.Fat32.Free.{IsChain, last, link, has, free_step, freed_here, IsChain-frame}
use if2230_2023_oshiete.Fat32.Store.Round.{set_cluster_map_above}
use if2230_2023_oshiete.Fat32.Create.{cluster_map-same}
use if2230_2023_oshiete.Fat32.Transfer.{write_clusters_at}
use if2230_2023_oshiete.Fat32.Reload.{IsSaved, save_dir-IsSaved, load_dir-IsSaved, load_fat-IsSaved}
use if2230_2023_oshiete.Fat32.Find.{HoldsFile, named}
use if2230_2023_oshiete.Fat32.Refuse.{matches, delete_entry-skip}

-- The search for an entry in use changes nothing but its own mark.
see_entries :
    (k i : ℕ) (s : Emptiness)
    → (b : Bool) × (for_loop see_entry k i s ≡ leave (record s { not_empty = b }))
unfolding for_loop see_entry
see_entries zero i s = (s.not_empty, refl)
see_entries (suc k) i s = elim (Bool-cases (undelete s.fs.driver (buf_entry i))) [
  | inl used ↦
      (true, for_loop-leave see_entry k i s (record s { not_empty = true }) (see_used i s used))
  | inr unused ↦
      let (b, rest) = see_entries k (suc i) s in
      (b, for_loop-again see_entry k i s s (see_unused i s unused) ∙ rest)
]
  where
    see_used :
        (i : ℕ) (s : Emptiness)
        → undelete s.fs.driver (buf_entry i) ≡ true
        → see_entry i s ≡ leave (record s { not_empty = true })
    see_used i s h = rw h

    see_unused :
        (i : ℕ) (s : Emptiness)
        → undelete s.fs.driver (buf_entry i) ≡ false
        → see_entry i s ≡ again s
    see_unused i s h = rw h

see_table-leave :
    (s : Emptiness)
    → cluster_map s.fs.driver s.current ≡ end_of_file
    → (b : Bool) × (see_table s ≡ leave (record s { not_empty = b }))
unfolding see_table
see_table-leave s single =
    let (b, ends) = see_entries 63 1 s in (b, rw (ends, single) (if-same b _))

clear-below : (m : Bytes) (d n q : ℕ) → q < d → clear m d n q ≡ m q
unfolding clear
clear-below m d n q lt = ground arith

clear-agree : (m w : Bytes) (d n q : ℕ) → m q ≡ w q → clear m d n q ≡ clear w d n q
unfolding clear
clear-agree m w d n q e = rw e

-- The end of `delete`: the entry is cleared, and at most the mark of the directory's first entry is
-- cleared with it.
drop_entry-return :
    (fuel : ℕ) (rq : Request) (i : ℕ) (fs : Fs)
    → rq.parent_cluster_number < 512
    → cluster_map fs.driver rq.parent_cluster_number ≡ end_of_file
    → (m : Bytes) × (drop_entry (suc fuel) rq i fs
        ≡ return (0, save_fat (save_dir (record fs { driver = m }) rq.parent_cluster_number)))
      × ((q : ℕ) → q ≢ 2060 → m q ≡ clear fs.driver (buf_entry i) entry_size q)
unfolding drop_entry while_loop put8
drop_entry-return fuel rq i fs small single =
    let cleared = clear fs.driver (buf_entry i) entry_size in
    let same =
      cluster_map-same fs.driver cleared
        (λ q lt. clear-below fs.driver (buf_entry i) entry_size q (omega arith))
        rq.parent_cluster_number small in
    let (b, ends) =
      see_table-leave
        (record {
          fs = record fs { driver = cleared };
          current = rq.parent_cluster_number;
          not_empty = false;
        })
        (same ∙ single) in
    (mark cleared b, rw ends (both cleared b), marked cleared b)
  where
    mark : Bytes → Bool → Bytes
    mark m b = if b then m else put8 m 2060 0

    marked : (m : Bytes) (b : Bool) (q : ℕ) → q ≢ 2060 → mark m b q ≡ m q
    marked m true q ne = refl
    marked m false q ne = rw (ne→== q 2060 ne)

    both :
        (m : Bytes) (b : Bool)
        → ◌≡◌ {A = Step ℕ Result}
            (return (
              0,
              save_fat (
                  save_dir
                    (if b then record fs { driver = m } else record fs { driver = put8 m 2060 0 })
                    rq.parent_cluster_number),
            ))
            (return
              (0, save_fat (save_dir (record fs { driver = mark m b }) rq.parent_cluster_number)))
    both m true = refl
    both m false = refl

-- The loop that frees a chain of the table ends, has freed exactly the chain, and has changed no byte
-- behind the table.
free_chain-ends :
    (fuel : ℕ) (m : Bytes) {c : ℕ} {cs : List ℕ}
    → IsChain m c cs
    → length cs ≤ fuel
    → ((i : ℕ) → has i cs ≡ true → i < 512)
    → (m' : Bytes) × (free_chain fuel m c
        ≡ leave (record { map = m'; next_cluster_number = end_of_file }))
      × ((i : ℕ) → cluster_map m' i ≡ (if has i cs then 0 else cluster_map m i))
      × ((q : ℕ) → 2048 ≤ q → m' q ≡ m q)
unfolding free_chain free_next while_loop
free_chain-ends zero m (last e) enough inside = absurd (omega arith)
free_chain-ends zero m (link e ne out s) enough inside = absurd (omega arith)
free_chain-ends (suc k) m (last {c} e) enough inside = (
  set_cluster_map m c 0,
  rw e,
  λ i. ground (arith, freed_here m c i),
  λ q le. set_cluster_map_above m c 0 q (inside c (ground arith)) le,
)
free_chain-ends (suc k) m (link {c} {d} {cs} e ne out s) enough inside =
    let (m', ends, at, above) =
      free_chain-ends k (set_cluster_map m c 0)
        (IsChain-frame s λ i h. ground (arith, freed_here m c i)) (omega arith)
        (λ i h. inside i (ground arith)) in
    (
      m',
      free_step k m c d e ne ∙ ends,
      λ i. ground (arith, at i, freed_here m c i),
      λ q le. above q le ∙ set_cluster_map_above m c 0 q (inside c (ground arith)) le,
    )

-- The entry asked for is a file: its chain is freed, and the entry dropped.
module _ (fuel : ℕ) (rq : Request) (fs : Fs) (i : ℕ) {cs : List ℕ}
    (small : rq.parent_cluster_number < 512)
    (single : cluster_map fs.driver rq.parent_cluster_number ≡ end_of_file)
    (chain : IsChain fs.driver (entry_cluster fs.driver (buf_entry i)) cs)
    (inside : (i : ℕ) → has i cs ≡ true → i < 512)
    (outside : has rq.parent_cluster_number cs ≡ false) (enough : length cs ≤ suc fuel)
    (plain : (attribute fs.driver (buf_entry i) == attr_subdirectory) ≡ false) where
  delete_found-return :
      (m : Bytes) × (delete_found (suc fuel) rq i fs
        ≡ return (0, save_fat (save_dir (record fs { driver = m }) rq.parent_cluster_number)))
      × ((c : ℕ) → c < 512 → cluster_map m c ≡ (if has c cs then 0 else cluster_map fs.driver c))
      × ((q : ℕ) → 2048 ≤ q → q ≢ 2060 → m q ≡ clear fs.driver (buf_entry i) entry_size q)
  unfolding delete_found folder_in_use
  delete_found-return =
      let (m', ends, at, above) = free_chain-ends (suc fuel) fs.driver chain enough inside in
      let single' : cluster_map m' rq.parent_cluster_number ≡ end_of_file =
        at rq.parent_cluster_number ∙ rw outside single in
      let (m, dropped, rest) =
        drop_entry-return fuel rq i (record fs { driver = m' }) small single' in
      (
        m,
        rw (plain, ends) dropped,
        λ c lt.
            cluster_map-same m' m
              (λ q lt'.
                rest q (omega arith) ∙ clear-below m' (buf_entry i) entry_size q (omega arith))
              c lt
            ∙ at c,
        λ q le ne. rest q ne ∙ clear-agree m' fs.driver (buf_entry i) entry_size q (above q le),
      )

-- How `delete` leaves a file: the table of clusters has its chain free, and the rest as it was; its
-- entry is unused, and the other entries behind entry 0 are as they were; the directory's table and
-- the table of clusters are on the medium.
pub record HasDeleted (rq : Request) (fs fs' : Fs) (j : ℕ) (cs : List ℕ) : Type 0 where
  pub freed :
      (c : ℕ)
      → c < 512
      → cluster_map fs'.driver c ≡ (if has c cs then 0 else cluster_map fs.driver c)
  pub unused : undelete fs'.driver (buf_entry j) ≡ false
  pub others :
      (i k : ℕ)
      → 1 ≤ i
      → i ≢ j
      → k < entry_size
      → fs'.driver (buf_entry i + k) ≡ fs.driver (buf_entry i + k)
  pub table_saved : IsSaved fs' dir_table_buf rq.parent_cluster_number
  pub fat_saved : IsSaved fs' fat_table 1

pub save_fat-IsSaved : (fs : Fs) → IsSaved (save_fat fs) fat_table 1
unfolding save_fat
save_fat-IsSaved fs i lt = write_clusters_at fs.disk fs.driver fat_table 1 1 i (omega arith) lt

pub save_fat-IsSaved_dir :
    (fs : Fs) (p : ℕ) → p ≢ 1 → IsSaved fs dir_table_buf p → IsSaved (save_fat fs) dir_table_buf p
unfolding save_fat
save_fat-IsSaved_dir fs p ne saved i lt =
    write_clusters_at fs.disk fs.driver fat_table 1 p i (omega arith) lt
    ∙ rw (ne→== p 1 ne) (saved i lt)

cleared_unused : (m : Bytes) (e : ℕ) → clear m e entry_size (e + 13) ≡ 0
unfolding clear
cleared_unused m e = ground arith

cleared_other :
    (m : Bytes) (i j k : ℕ)
    → i ≢ j
    → k < entry_size
    → clear m (buf_entry j) entry_size (buf_entry i + k) ≡ m (buf_entry i + k)
unfolding clear
cleared_other m i j k ne lt = ground arith

module _ (fuel : ℕ) {rq : Request} {fs : Fs} {j : ℕ} {cs : List ℕ} (h : HoldsFile rq fs j cs)
    (not_table : rq.parent_cluster_number ≢ 1) (enough : length cs ≤ suc fuel)
    (before : (i : ℕ) → 1 ≤ i → i < j → matches rq fs.driver (buf_entry i) ≡ false) where
  abbrev place : Place
  place = record { fs = fs; current = rq.parent_cluster_number }

  delete_entry-HasDeleted :
      (fs' : Fs) × (delete_entry (suc fuel) rq j place ≡ return (0, fs'))
      × HasDeleted rq fs fs' j cs
  unfolding delete_entry save_fat save_dir undelete
  delete_entry-HasDeleted =
      let (name, used, plain, ext) = named h in
      let (m, dropped, freed, rest) =
        delete_found-return fuel rq fs j h.small h.single h.chain h.inside h.apart enough plain in
      let dropped_fs = record fs { driver = m } in
      (
        save_fat (save_dir dropped_fs rq.parent_cluster_number),
        rw (name, used, ext, dropped),
        record {
          freed = freed;
          unused = rw (
            rest (buf_entry j + 13) (omega arith) (omega (arith, h.low)),
            cleared_unused fs.driver (buf_entry j),
          );
          others = λ i k lo ne lt.
              rest (buf_entry i + k) (omega arith) (omega arith)
              ∙ cleared_other fs.driver i j k ne lt;
          table_saved =
              save_fat-IsSaved_dir (save_dir dropped_fs rq.parent_cluster_number)
                rq.parent_cluster_number not_table
                (save_dir-IsSaved dropped_fs rq.parent_cluster_number (omega (arith, h.small)));
          fat_saved = save_fat-IsSaved (save_dir dropped_fs rq.parent_cluster_number);
        },
      )

  delete_table-HasDeleted :
      (fs' : Fs) × (delete_table (suc fuel) rq place ≡ return (0, fs')) × HasDeleted rq fs fs' j cs
  unfolding delete_table
  delete_table-HasDeleted =
      let (fs', found, has_deleted) = delete_entry-HasDeleted in
      let n = j - 1 in
      let k = 63 - j in
      let total : n + suc k ≡ 63 = omega (arith, h.low, h.high) in
      let at : 1 + n ≡ j = omega (arith, h.low) in
      let skipped = for_loop_skip (delete_entry (suc fuel) rq) n (suc k) 1 place (λ x lt.
        delete_entry-skip (suc fuel) rq place (1 + x)
          (before (1 + x) (omega arith) (omega arith))) in
      let loop =
        rw (total, at) at skipped
        ∙ for_loop-return (delete_entry (suc fuel) rq) k j place (0, fs') found in
      (fs', rw loop, has_deleted)

-- A file that the directory holds, with no other entry in use of its name and extension before it, is
-- deleted: with fuel for its clusters `delete` answers 0, its clusters are free and its entry unused,
-- nothing else of the two tables has changed behind entry 0 of the directory, and both are on the
-- medium. The directory is not at the cluster of the table.
pub delete-HoldsFile :
    (fuel : ℕ) (rq : Request) (fs : Fs) (j : ℕ) (cs : List ℕ)
    → HoldsFile rq fs j cs
    → rq.parent_cluster_number ≢ 1
    → length cs ≤ suc fuel
    → ((i : ℕ) → 1 ≤ i → i < j → matches rq fs.driver (buf_entry i) ≡ false)
    → (fs' : Fs) × (delete (suc fuel) rq fs ≡ some (0, fs')) × HasDeleted rq fs fs' j cs
unfolding delete while_loop
delete-HoldsFile fuel rq fs j cs h not_table enough before =
    let (fs', ends, has_deleted) = delete_table-HasDeleted fuel h not_table enough before in
    (
      fs',
      rw (
        load_dir-IsSaved fs rq.parent_cluster_number (omega (arith, h.small)) h.table_saved,
        load_fat-IsSaved fs h.fat_saved,
        eq→== _ attr_subdirectory h.directory,
        ends,
      ),
      has_deleted,
    )
