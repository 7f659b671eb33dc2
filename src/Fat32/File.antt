-- ===== src/Fat32/File.antt =====
-- `write` and `read` (src/fat32.c) of one file, through the directory.
use if2230_2023_oshiete.Common.{
  length, ℕ, suc, ◌+◌, ◌*◌, ◌≤◌, ◌<◌, ◌≡◌, ◌≢◌, refl, sym, ap, subst, ◌∙◌, arith, Bytes, IsBytes,
  List, Bool, true, false, ◌&&◌, not, ◌==◌, some, Bool-cases, inl, inr, if◌then◌else◌,
}
use if2230_2023_oshiete.Fat32.Layout.{
  cluster_size, end_of_file, attr_subdirectory, attribute, undelete, filesize, entry_cluster,
  cluster_map,
}
use if2230_2023_oshiete.Fat32.Driver.{Fs, Request, load_fat, load_dir, save_dir}
use if2230_2023_oshiete.Fat32.Directory.{buf_entry, same_name, same_ext}
use if2230_2023_oshiete.Fat32.Read.{read}
use if2230_2023_oshiete.Fat32.Write.{Slot, Chain, fill_entry, write}
use if2230_2023_oshiete.Fat32.Free.{IsChain, has}
use if2230_2023_oshiete.Fat32.Space.{free_count, find_empty_cluster-IsFree}
use if2230_2023_oshiete.Fat32.Store.{Stored}
use if2230_2023_oshiete.Fat32.Room.{HasRoom, slot_at}
use if2230_2023_oshiete.Fat32.Create.{file_start, fill_entry-below, cluster_map-same, write-file}
use if2230_2023_oshiete.Fat32.Entry
use if2230_2023_oshiete.Fat32.Reload.{save_dir-IsSaved, save_dir-IsSaved_fat, save_dir-other}
use if2230_2023_oshiete.Fat32.Chain.{Holds-agree}
use if2230_2023_oshiete.Fat32.Find.{is_file, HoldsFile, HasRead, Holds-frame, has-ne, read-HasRead}

-- A request for a file of n clusters can be met: its directory, once loaded, is a directory of one
-- table, in a cluster of the table that is not the table's own, with entry j to take; and n clusters are
-- free.
pub record CanMake (rq : Request) (loaded : Fs) (j n : ℕ) : Type 0 where
  pub parent : rq.parent_cluster_number < 512
  pub not_table : rq.parent_cluster_number ≢ 1
  pub directory : attribute loaded.driver (buf_entry 0) ≡ attr_subdirectory
  pub single : cluster_map loaded.driver rq.parent_cluster_number ≡ end_of_file
  pub room : HasRoom false rq loaded.driver j
  pub above : n * cluster_size < rq.buffer_size + cluster_size
  pub below : rq.buffer_size ≤ n * cluster_size
  pub some_left : 0 < n
  pub counts : n ≤ 256
  pub space : n ≤ free_count loaded.driver
  pub name : IsBytes rq.name
  pub ext : IsBytes rq.ext

is_file-not_taken :
    (name used dir ext : Bool)
    → (name && ext && used) ≡ false
    → (name && used && not dir && ext) ≡ false
is_file-not_taken false used dir ext h = refl
is_file-not_taken true false dir ext h = refl
is_file-not_taken true true true ext h = refl
is_file-not_taken true true false false h = refl
is_file-not_taken true true false true h = absurd (ground arith)

module _ {rq : Request} {loaded : Fs} {j n : ℕ} (can : CanMake rq loaded j n) {c : Chain}
    {cs : List ℕ} (stored : Stored (file_start rq (slot_at rq loaded j)) c cs) where
  abbrev slot : Slot
  slot = slot_at rq loaded j

  abbrev filled : Bytes
  filled = (fill_entry rq slot).driver

  abbrev parent : ℕ
  parent = rq.parent_cluster_number

  parent_filled : cluster_map filled parent ≡ end_of_file
  parent_filled =
      cluster_map-same loaded.driver filled (fill_entry-below rq slot) parent can.parent
      ∙ can.single

  apart : has parent cs ≡ false
  apart = elim (Bool-cases (has parent cs)) [
    | inr out ↦ out
    | inl inside ↦ absurd (omega (arith, (stored.fresh parent inside).empty, parent_filled))
  ]

  single : cluster_map c.fs.driver parent ≡ end_of_file
  single = stored.table parent apart ∙ parent_filled

  pub entry_agrees : (i k : ℕ) → k < 32 → c.fs.driver (buf_entry i + k) ≡ filled (buf_entry i + k)
  entry_agrees i k lt = stored.above (buf_entry i + k) (omega arith)

  before_agrees :
      (i k : ℕ)
      → 1 ≤ i
      → i < j
      → k < 32
      → c.fs.driver (buf_entry i + k) ≡ loaded.driver (buf_entry i + k)
  before_agrees i k lo hi lt =
      entry_agrees i k lt
      ∙ Entry.fill_before rq slot can.room.low can.name can.ext (buf_entry i + k) (omega arith)
          (omega arith)

  -- No entry before the new one is in use under the name and the extension.
  pub not_taken :
      (i : ℕ)
      → 1 ≤ i
      → i < j
      → (same_name c.fs.driver (buf_entry i) rq
          && same_ext c.fs.driver (buf_entry i) rq
          && undelete c.fs.driver (buf_entry i))
        ≡ false
  not_taken i lo hi =
      let e = buf_entry i in
      let agree = λ (k : ℕ) (lt : k < 32). before_agrees i k lo hi lt in
      rw
        (
          Entry.same_name-agree loaded.driver c.fs.driver e rq agree,
          Entry.same_ext-agree loaded.driver c.fs.driver e rq agree,
          Entry.undelete-agree loaded.driver c.fs.driver e rq agree,
        )
        (can.room.other i lo (omega (arith, can.room.high)))

  before : (i : ℕ) → 1 ≤ i → i < j → is_file c.fs.driver (buf_entry i) rq ≡ false
  before i lo hi =
      let e = buf_entry i in
      is_file-not_taken (same_name c.fs.driver e rq) (undelete c.fs.driver e)
        (attribute c.fs.driver e == attr_subdirectory) (same_ext c.fs.driver e rq)
        (not_taken i lo hi)

  named : is_file c.fs.driver (buf_entry j) rq ≡ true
  named =
      let e = buf_entry j in
      let agree = entry_agrees j in
      rw (
        Entry.same_name-agree filled c.fs.driver e rq agree,
        Entry.same_ext-agree filled c.fs.driver e rq agree,
        Entry.undelete-agree filled c.fs.driver e rq agree,
        Entry.attribute-agree filled c.fs.driver e rq agree,
        Entry.fill_same_name rq slot can.room.low can.name can.ext,
        Entry.fill_same_ext rq slot can.room.low can.name can.ext,
        Entry.fill_used rq slot can.room.low can.name can.ext,
        Entry.fill_plain rq slot can.room.low can.name can.ext,
      )

  -- Taking the file's chain out again gives the table as it was.
  pub table_again :
      (i : ℕ)
      → i < 512
      → (if has i cs then 0 else cluster_map c.fs.driver i) ≡ cluster_map loaded.driver i
  table_again i lt =
      let same = cluster_map-same loaded.driver filled (fill_entry-below rq slot) i lt in
      elim (Bool-cases (has i cs)) [
        | inl inside ↦ rw inside (sym (stored.fresh i inside).empty ∙ same)
        | inr out ↦ rw out (stored.table i out ∙ same)
      ]

  -- What is left once `write` has put the directory's table on the medium.
  abbrev pub written : Fs
  written = save_dir c.fs parent

  module _ (size : ℕ) (b : Bytes) where
    abbrev again_rq : Request
    again_rq = record rq { buffer_size = size }

    pub written-HoldsFile : HoldsFile again_rq (record written { buf = b }) j cs
    unfolding save_dir same_name same_ext
    written-HoldsFile = record {
      small = can.parent;
      table_saved = save_dir-IsSaved c.fs parent (omega (arith, can.parent));
      fat_saved =
          save_dir-IsSaved_fat c.fs parent (omega (arith, can.parent)) can.not_table
            (λ i lt. stored.saved i lt ∙ ap c.fs.driver (omega arith));
      directory =
          Entry.attribute-agree filled c.fs.driver (buf_entry 0) rq (entry_agrees 0)
          ∙ Entry.fill_first rq slot can.room.low can.name can.ext
          ∙ can.directory;
      single = single;
      low = can.room.low;
      high = can.room.high;
      named = named;
      before = before;
      chain = subst (λ x. IsChain c.fs.driver x cs) (sym at_first) stored.chain;
      inside = λ i e. (stored.fresh i e).high;
      apart = apart;
    }
      where
        at_first : entry_cluster c.fs.driver (buf_entry j) ≡ slot.cluster_index
        at_first =
            Entry.entry_cluster-agree filled c.fs.driver (buf_entry j) rq (entry_agrees j)
            ∙ Entry.fill_cluster rq slot can.room.low can.name can.ext
                (find_empty_cluster-IsFree loaded.driver
                  (omega (arith, can.space, can.some_left))).high

    written_size : filesize written.driver (buf_entry j) ≡ rq.buffer_size
    unfolding save_dir
    written_size =
        Entry.filesize-agree filled c.fs.driver (buf_entry j) rq (entry_agrees j)
        ∙ Entry.fill_size rq slot can.room.low can.name can.ext
            (omega (arith, can.below, can.counts))

    -- The clusters are where the file's bytes are, whatever the directory's table.
    same_bytes :
        (fs' : Fs)
        → length cs ≡ n
        → HasRead again_rq (record written { buf = b }) fs' cs
        → (q : ℕ) → q < rq.buffer_size
        → fs'.buf q ≡ loaded.buf q
    unfolding fill_entry
    same_bytes fs' count has_read q lt =
        let first : 0 + q ≡ q = omega arith in
        sym (
          rw first at (
            Holds-agree c.fs.disk loaded.buf fs'.buf (0 * cluster_size) 0 cs stored.holds
              (Holds-frame c.fs.disk written.disk fs'.buf 0 cs
                (λ d i inside lt'.
                  save_dir-other c.fs parent d i (omega (arith, can.parent))
                    (has-ne d parent cs inside apart) lt')
                has_read.holds)
              q (omega (arith, count, can.below))))

-- A file that is written is read back. Where a request for a file of n clusters, 1 to 256, can be
-- met, `write` answers 0; and `read` with the same name, extension and directory, from the state that
-- `write` leaves, but with a buffer of its own, of a cluster at least and of the file's size, and
-- whatever it holds, answers 0 and fills the buffer with the bytes of the request. Fuel for n + 1
-- rounds is enough for both.
pub read-write :
    (fuel n : ℕ) (rq : Request) (fs : Fs) (j room : ℕ) (b : Bytes)
    → CanMake rq (load_dir (load_fat fs) rq.parent_cluster_number) j n
    → n < suc fuel
    → cluster_size ≤ room
    → rq.buffer_size ≤ room
    → (fs1 fs2 : Fs) × (write (suc fuel) rq fs ≡ some (0, fs1))
      × (read (suc fuel) (record rq { buffer_size = room }) (record fs1 { buf = b })
          ≡ some (0, fs2))
      × ((q : ℕ) → q < rq.buffer_size → fs2.buf q ≡ fs.buf q)
unfolding load_dir load_fat
read-write fuel n rq fs j room b can enough wide fits =
    let (c, cs, written, count, stored) =
      write-file fuel n rq fs j can.directory can.single can.room can.above can.below can.some_left
        can.counts can.space enough in
    let (fs2, answer, has_read) =
      read-HasRead fuel (record rq { buffer_size = room })
        (record (save_dir c.fs rq.parent_cluster_number) { buf = b }) j cs
        (written-HoldsFile can stored room b) wide
        (omega (arith, written_size can stored room b, fits)) (omega (arith, count)) in
    (
      save_dir c.fs rq.parent_cluster_number,
      fs2,
      written,
      answer,
      same_bytes can stored room b fs2 count has_read,
    )
