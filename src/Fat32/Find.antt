-- ===== src/Fat32/Find.antt =====
-- What `read` (src/fat32.c) does with a file that the directory holds.
use if2230_2023_oshiete.Common.{
  length, ℕ, zero, suc, ◌+◌, ◌-◌, ◌*◌, ◌≤◌, ◌<◌, ◌≡◌, ◌≢◌, refl, ap, subst, ◌∙◌, arith, Bytes, List,
  [], ◌∷◌, Bool, true, false, ◌&&◌, not, ◌==◌, some, Step, again, leave, for_loop, for_loop-again,
  for_loop-leave, while_loop, eq→==, le→ltb, if◌then◌else◌, put16, get16,
}
use if2230_2023_oshiete.Fat32.Layout.{
  cluster_size, end_of_file, attr_subdirectory, table_length, fat_table, dir_table_buf, attribute,
  undelete, filesize, entry_cluster, cluster_map,
}
use if2230_2023_oshiete.Fat32.Driver.{Fs, Request, Result, save_dir, stamp_access}
use if2230_2023_oshiete.Fat32.Directory.{
  Search, Copy, buf_entry, same_name, same_ext, touch_entry, next_table, copy_cluster,
}
use if2230_2023_oshiete.Fat32.Read.{read_file, read_entry, read_table, read}
use if2230_2023_oshiete.Fat32.Free.{IsChain, IsChain-frame, has}
use if2230_2023_oshiete.Fat32.Chain.{Holds, AreClusters, while_loop-Copied}
use if2230_2023_oshiete.Fat32.Create.{cluster_map-same}
use if2230_2023_oshiete.Fat32.Reload.{IsSaved, load_dir-IsSaved, load_fat-IsSaved, save_dir-other}

-- The entry e is a file in use under the name and the extension of the request.
abbrev pub is_file : Bytes → ℕ → Request → Bool
is_file m e rq =
    same_name m e rq && undelete m e && not (attribute m e == attr_subdirectory) && same_ext m e rq

-- The driver and the medium are in step, the directory of the request has one table, and in it entry
-- j is the first file with the request's name and extension; its clusters are those of the list.
pub record HoldsFile (rq : Request) (fs : Fs) (j : ℕ) (cs : List ℕ) : Type 0 where
  pub small : rq.parent_cluster_number < 512
  pub table_saved : IsSaved fs dir_table_buf rq.parent_cluster_number
  pub fat_saved : IsSaved fs fat_table 1
  pub directory : attribute fs.driver (buf_entry 0) ≡ attr_subdirectory
  pub single : cluster_map fs.driver rq.parent_cluster_number ≡ end_of_file
  pub low : 1 ≤ j
  pub high : j < table_length
  pub named : is_file fs.driver (buf_entry j) rq ≡ true
  pub before : (i : ℕ) → 1 ≤ i → i < j → is_file fs.driver (buf_entry i) rq ≡ false
  pub chain : IsChain fs.driver (entry_cluster fs.driver (buf_entry j)) cs
  pub inside : (i : ℕ) → has i cs ≡ true → i < 512
  pub apart : has rq.parent_cluster_number cs ≡ false

pub has-ne : (d p : ℕ) (cs : List ℕ) → has d cs ≡ true → has p cs ≡ false → d ≢ p
has-ne d p cs inside outside same =
    let here : has p cs ≡ true = subst (λ x. has x cs ≡ true) same inside in ground arith

AreClusters-inside : (cs : List ℕ) → ((i : ℕ) → has i cs ≡ true → i < 512) → AreClusters cs
AreClusters-inside [] h = tt
AreClusters-inside (c ∷ cs) h =
    (omega (arith, h c (ground arith)), AreClusters-inside cs λ i e. h i (ground arith))

-- Two media with the same bytes in the clusters hold the same there.
pub Holds-frame :
    (disk disk' b : Bytes) (p : ℕ) (cs : List ℕ)
    → ((c i : ℕ)
        → has c cs ≡ true
        → i < cluster_size
        → disk' (c * cluster_size + i) ≡ disk (c * cluster_size + i))
    → Holds disk' b p cs
    → Holds disk b p cs
Holds-frame disk disk' b p [] same h = tt
Holds-frame disk disk' b p (c ∷ cs) same h = (
  λ j lt. h.0 j lt ∙ same c j (ground arith) lt,
  Holds-frame disk disk' b (p + cluster_size) cs (λ d i e lt. same d i (ground arith) lt) h.1,
)

-- A round on an entry that is not the file changes at most the code.
skip_branches :
    (s : Search) (other : Step Search Result) (name used dir ext : Bool)
    → (name && used && not dir && ext) ≡ false
    → (r : ℕ) × ((if name && used
          then (if dir then again (record s { ret = 1 }) else (if ext then other else again s))
          else again s)
        ≡ again (record s { ret = r }))
skip_branches s other false used dir ext h = (s.ret, refl)
skip_branches s other true false dir ext h = (s.ret, refl)
skip_branches s other true true true ext h = (1, refl)
skip_branches s other true true false false h = (s.ret, refl)
skip_branches s other true true false true h = absurd (ground arith)

module _ (fuel : ℕ) (rq : Request) where
  read_entry-skip :
      (i : ℕ) (s : Search)
      → is_file s.fs.driver (buf_entry i) rq ≡ false
      → (r : ℕ) × (read_entry fuel rq i s ≡ again (record s { ret = r }))
  unfolding read_entry
  read_entry-skip i s h =
      let m = s.fs.driver in
      skip_branches s _ (same_name m (buf_entry i) rq) (undelete m (buf_entry i))
        (attribute m (buf_entry i) == attr_subdirectory) (same_ext m (buf_entry i) rq) h

  for_loop-skip :
      (n k i : ℕ) (s : Search)
      → ((x : ℕ) → i ≤ x → x < i + n → is_file s.fs.driver (buf_entry x) rq ≡ false)
      → (r : ℕ) × (for_loop (read_entry fuel rq) (n + k) i s
          ≡ for_loop (read_entry fuel rq) k (i + n) (record s { ret = r }))
  for_loop-skip zero k i s h =
      let e : i + 0 ≡ i = omega arith in let e' : 0 + k ≡ k = omega arith in (s.ret, rw (e, e'))
  for_loop-skip (suc n) k i s h =
      let (r, first) = read_entry-skip i s (h i (omega arith) (omega arith)) in
      let (r', rest) =
        for_loop-skip n k (suc i) (record s { ret = r })
          (λ x lo hi. h x (omega arith) (omega arith)) in
      let e : suc n + k ≡ suc (n + k) = omega arith in
      let e' : i + suc n ≡ suc i + n = omega arith in
      (
        r',
        rw (e, e')
            (for_loop-again (read_entry fuel rq) (n + k) i s (record s { ret = r }) first ∙ rest),
      )

module _ (fs : Fs) (rq : Request) (j : ℕ) where
  abbrev touched : Fs
  touched = touch_entry fs rq j

  touch_entry-below : (q : ℕ) → q < 2048 → touched.driver q ≡ fs.driver q
  unfolding touch_entry save_dir stamp_access put16
  touch_entry-below q lt = ground arith

  touch_entry-cluster :
      entry_cluster touched.driver (buf_entry j) ≡ entry_cluster fs.driver (buf_entry j)
  unfolding touch_entry save_dir stamp_access put16 entry_cluster get16
  touch_entry-cluster = ground arith

  touch_entry-disk :
      (d i : ℕ)
      → rq.parent_cluster_number < 512
      → d ≢ rq.parent_cluster_number
      → i < cluster_size
      → touched.disk (d * cluster_size + i) ≡ fs.disk (d * cluster_size + i)
  unfolding touch_entry
  touch_entry-disk d i small ne lt =
      save_dir-other _ rq.parent_cluster_number d i (omega arith) ne lt

-- How a read of the file ends: the buffer holds the clusters, and only the table of the directory
-- may have changed on the medium.
pub record HasRead (rq : Request) (fs fs' : Fs) (cs : List ℕ) : Type 0 where
  pub holds : Holds fs.disk fs'.buf 0 cs
  pub table : (q : ℕ) → q < 2048 → fs'.driver q ≡ fs.driver q
  pub medium :
      (d i : ℕ)
      → d ≢ rq.parent_cluster_number
      → i < cluster_size
      → fs'.disk (d * cluster_size + i) ≡ fs.disk (d * cluster_size + i)

module _ {rq : Request} {fs : Fs} {j : ℕ} {cs : List ℕ} (h : HoldsFile rq fs j cs) where
  -- The four tests of the entry, one by one.
  pub named :
      (same_name fs.driver (buf_entry j) rq ≡ true)
      × (undelete fs.driver (buf_entry j) ≡ true)
      × ((attribute fs.driver (buf_entry j) == attr_subdirectory) ≡ false)
      × (same_ext fs.driver (buf_entry j) rq ≡ true)
  named =
      parts (same_name fs.driver (buf_entry j) rq) (undelete fs.driver (buf_entry j))
        (attribute fs.driver (buf_entry j) == attr_subdirectory)
        (same_ext fs.driver (buf_entry j) rq) h.named
    where
      parts :
          (a b c d : Bool)
          → (a && b && not c && d) ≡ true
          → (a ≡ true) × (b ≡ true) × (c ≡ false) × (d ≡ true)
      parts true true false true e = (refl, refl, refl, refl)
      parts true true false false e = absurd (ground arith)
      parts true true true d e = absurd (ground arith)
      parts true false c d e = absurd (ground arith)
      parts false b c d e = absurd (ground arith)

module _ (fuel : ℕ) {rq : Request} {fs : Fs} {j : ℕ} {cs : List ℕ} (h : HoldsFile rq fs j cs)
    (enough : length cs ≤ fuel) where
  abbrev first_cluster : ℕ
  first_cluster = entry_cluster fs.driver (buf_entry j)

  abbrev copying : ℕ → Copy
  copying size = record {
    fs = record (touched fs rq j) { found = first_cluster };
    cluster = first_cluster;
    size = size;
    fragment_ctr = 0;
  }

  abbrev searching : ℕ → Search
  searching r = record {
    fs = fs;
    parent = rq.parent_cluster_number;
    ret = r;
    buffer_size = rq.buffer_size;
  }

  copying-HasRead :
      (size : ℕ)
      → (c : Copy) × (while_loop copy_cluster fuel (copying size) ≡ leave c) × HasRead rq fs c.fs cs
  copying-HasRead size =
      let chain = IsChain-frame h.chain (λ i e.
        cluster_map-same fs.driver (touched fs rq j).driver (touch_entry-below fs rq j) i
          (h.inside i e)) in
      let (c, ends, same, below, holds) =
        while_loop-Copied fuel (copying size) first_cluster refl chain
          (AreClusters-inside cs h.inside) enough in
      (
        c,
        ends,
        record {
          holds =
              Holds-frame fs.disk (touched fs rq j).disk c.fs.buf 0 cs
                (λ d i e lt.
                  touch_entry-disk fs rq j d i h.small
                    (has-ne d rq.parent_cluster_number cs e h.apart) lt)
                holds;
          table = λ q lt. ap (λ (f : Fs). f.driver q) same ∙ touch_entry-below fs rq j q lt;
          medium = λ d i ne lt.
              ap (λ (f : Fs). f.disk (d * cluster_size + i)) same
              ∙ touch_entry-disk fs rq j d i h.small ne lt;
        },
      )

  read_file-HasRead :
      (r : ℕ)
      → (s : Search) × (read_file fuel rq j (searching r) ≡ leave s)
        × (s.ret ≡ 0)
        × (s.parent ≡ rq.parent_cluster_number)
        × HasRead rq fs s.fs cs
  unfolding read_file
  read_file-HasRead r =
      let (c, ends, has_read) = copying-HasRead rq.buffer_size in
      (
        record { fs = c.fs; parent = rq.parent_cluster_number; ret = 0; buffer_size = c.size },
        rw (load_fat-IsSaved fs h.fat_saved, touch_entry-cluster fs rq j, ends),
        refl,
        refl,
        has_read,
      )

  read_entry-HasRead :
      (r : ℕ)
      → filesize fs.driver (buf_entry j) ≤ rq.buffer_size
      → (s : Search) × (read_entry fuel rq j (searching r) ≡ leave s)
        × (s.ret ≡ 0)
        × (s.parent ≡ rq.parent_cluster_number)
        × HasRead rq fs s.fs cs
  unfolding read_entry
  read_entry-HasRead r room =
      let (name, used, plain, ext) = named h in
      let (s, ends, code, parent, has_read) = read_file-HasRead r in
      (
        s,
        rw (name, used, plain, ext, le→ltb rq.buffer_size (filesize fs.driver (buf_entry j)) room)
            ends,
        code,
        parent,
        has_read,
      )

  read_table-HasRead :
      filesize fs.driver (buf_entry j) ≤ rq.buffer_size
      → (s : Search) × (read_table fuel rq (searching 3) ≡ leave s)
        × (s.ret ≡ 0)
        × HasRead rq fs s.fs cs
  unfolding read_table next_table
  read_table-HasRead room =
      let n = j - 1 in
      let k = 63 - j in
      let (r, skipped) =
        for_loop-skip fuel rq n (suc k) 1 (searching 3)
          (λ x lo hi. h.before x lo (omega (arith, h.low))) in
      let (s, found, zero_code, parent, has_read) = read_entry-HasRead r room in
      let total : n + suc k ≡ 63 = omega (arith, h.low, h.high) in
      let at : 1 + n ≡ j = omega (arith, h.low) in
      let loop =
        rw (total, at) at skipped ∙ for_loop-leave (read_entry fuel rq) k j (searching r) s found in
      (
        record s { parent = end_of_file },
        rw (
          loop,
          parent,
          cluster_map-same fs.driver s.fs.driver has_read.table rq.parent_cluster_number h.small
              ∙ h.single,
        ),
        zero_code,
        has_read,
      )

-- The read of a file whose last cluster may reach behind the size of the request's buffer.
pub read-HasRead :
    (fuel : ℕ) (rq : Request) (fs : Fs) (j : ℕ) (cs : List ℕ)
    → HoldsFile rq fs j cs
    → cluster_size ≤ rq.buffer_size
    → filesize fs.driver (buf_entry j) ≤ rq.buffer_size
    → length cs ≤ suc fuel
    → (fs' : Fs) × (read (suc fuel) rq fs ≡ some (0, fs')) × HasRead rq fs fs' cs
unfolding read while_loop
read-HasRead fuel rq fs j cs h wide room enough =
    let (s, ends, code, has_read) = read_table-HasRead (suc fuel) h enough room in
    (
      s.fs,
      rw (
        load_dir-IsSaved fs rq.parent_cluster_number (omega (arith, h.small)) h.table_saved,
        le→ltb rq.buffer_size cluster_size wide,
        eq→== _ attr_subdirectory h.directory,
        ends,
        code,
      ),
      has_read,
    )

-- A file that the directory holds is read: where the size of the request's buffer has room for a
-- cluster, for the file's size and for the whole clusters of its chain, and with fuel for the
-- clusters, `read` answers 0, the buffer holds the clusters of the file in order, and of the
-- medium only the directory's table may have changed.
pub read-HoldsFile :
    (fuel : ℕ) (rq : Request) (fs : Fs) (j : ℕ) (cs : List ℕ)
    → HoldsFile rq fs j cs
    → cluster_size ≤ rq.buffer_size
    → filesize fs.driver (buf_entry j) ≤ rq.buffer_size
    → length cs * cluster_size ≤ rq.buffer_size
    → length cs ≤ suc fuel
    → (fs' : Fs) × (read (suc fuel) rq fs ≡ some (0, fs')) × HasRead rq fs fs' cs
read-HoldsFile fuel rq fs j cs h wide room whole = read-HasRead fuel rq fs j cs h wide room
