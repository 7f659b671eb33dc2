-- ===== src/Fat32/Entry.antt =====
-- The entry that `write` (src/fat32.c) fills in for a file, field by field, and the entries that it
-- leaves alone.
use if2230_2023_oshiete.Common.{
  ℕ, ◌+◌, ◌-◌, ◌/◌, ◌%◌, ◌^◌, ◌≤◌, ◌<◌, ◌≡◌, ap, eq→==, arith, Bytes, IsBytes, copy, put8, put16,
  put32, get16, get32, ◌==◌, ltb, if◌then◌else◌, true,
}
use if2230_2023_oshiete.Mem.Laws.{memcpy-copy, memcmp-zero_iff, memcmp-agree}
use if2230_2023_oshiete.Fat32.Layout.{
  set_entry_cluster, entry_cluster, filesize, attribute, undelete,
}
use if2230_2023_oshiete.Fat32.Driver.{Request, stamp_create}
use if2230_2023_oshiete.Fat32.Directory.{buf_entry, same_name, same_ext}
use if2230_2023_oshiete.Fat32.Write.{Slot, fill_entry}

module _ (rq : Request) (s : Slot) (low : 1 ≤ s.entry) (name : IsBytes rq.name)
    (ext : IsBytes rq.ext) where
  abbrev filled : Bytes
  filled = (fill_entry rq s).driver

  pub fill_at :
      (k : ℕ)
      → k < 32
      → filled (buf_entry s.entry + k) ≡ (
          if ltb k 8
          then rq.name k
          else (if ltb k 11
              then rq.ext (k - 8)
              else (if k == 11 then 0 else filled (buf_entry s.entry + k))))
  unfolding fill_entry stamp_create set_entry_cluster put8 put16 put32 copy
  fill_at k lt =
      rw
        (
          memcpy-copy s.fs.driver (buf_entry s.entry) rq.name 0 8 name,
          memcpy-copy (copy s.fs.driver (buf_entry s.entry) rq.name 0 8) (buf_entry s.entry + 8)
              rq.ext 0 3 ext,
        )
        (ground arith)

  pub fill_used : undelete filled (buf_entry s.entry) ≡ true
  unfolding undelete fill_entry stamp_create set_entry_cluster put8 put16 put32 copy
  fill_used = ground arith

  pub fill_plain : attribute filled (buf_entry s.entry) ≡ 0
  unfolding attribute fill_entry stamp_create set_entry_cluster put8 put16 put32 copy
  fill_plain = ground arith

  pub fill_size_bytes :
      (filled (buf_entry s.entry + 28) ≡ rq.buffer_size % 256)
      × (filled (buf_entry s.entry + 28 + 1) ≡ rq.buffer_size / 256 % 256)
      × (filled (buf_entry s.entry + 28 + 2) ≡ rq.buffer_size / 65536 % 256)
      × (filled (buf_entry s.entry + 28 + 3) ≡ rq.buffer_size / 16777216 % 256)
  unfolding fill_entry stamp_create set_entry_cluster put8 put16 put32 copy
  fill_size_bytes = (ground arith, ground arith, ground arith, ground arith)

  pub fill_size : rq.buffer_size < 2 ^ 32 → filesize filled (buf_entry s.entry) ≡ rq.buffer_size
  unfolding filesize get32
  fill_size h = let (b0, b1, b2, b3) = fill_size_bytes in rw (b0, b1, b2, b3) (omega arith)

  pub fill_cluster_bytes :
      (filled (buf_entry s.entry + 20) ≡ s.cluster_index / 65536 % 256)
      × (filled (buf_entry s.entry + 20 + 1) ≡ s.cluster_index / 65536 / 256 % 256)
      × (filled (buf_entry s.entry + 26) ≡ s.cluster_index % 65536 % 256)
      × (filled (buf_entry s.entry + 26 + 1) ≡ s.cluster_index % 65536 / 256 % 256)
  unfolding fill_entry stamp_create set_entry_cluster put8 put16 put32 copy
  fill_cluster_bytes = (ground arith, ground arith, ground arith, ground arith)

  pub fill_cluster :
      s.cluster_index < 512 → entry_cluster filled (buf_entry s.entry) ≡ s.cluster_index
  unfolding entry_cluster get16
  fill_cluster h = let (b0, b1, b2, b3) = fill_cluster_bytes in rw (b0, b1, b2, b3) (omega arith)

  -- From entry 1 up to the one filled in.
  pub fill_before : (q : ℕ) → 2080 ≤ q → q < buf_entry s.entry → filled q ≡ s.fs.driver q
  unfolding fill_entry stamp_create set_entry_cluster put8 put16 put32 copy
  fill_before q lo hi =
      rw
        (
          memcpy-copy s.fs.driver (buf_entry s.entry) rq.name 0 8 name,
          memcpy-copy (copy s.fs.driver (buf_entry s.entry) rq.name 0 8) (buf_entry s.entry + 8)
              rq.ext 0 3 ext,
        )
        (ground arith)

  -- The first entry, whose mark is set.
  pub fill_first : attribute filled (buf_entry 0) ≡ attribute s.fs.driver (buf_entry 0)
  unfolding attribute fill_entry stamp_create set_entry_cluster put8 put16 put32 copy
  fill_first =
      rw
        (
          memcpy-copy s.fs.driver (buf_entry s.entry) rq.name 0 8 name,
          memcpy-copy (copy s.fs.driver (buf_entry s.entry) rq.name 0 8) (buf_entry s.entry + 8)
              rq.ext 0 3 ext,
        )
        (ground arith)

  pub fill_same_name : same_name filled (buf_entry s.entry) rq ≡ true
  unfolding same_name
  fill_same_name = eq→== _ 0 (
      (memcmp-zero_iff filled (buf_entry s.entry) rq.name 0 8).1
        (λ k lt. ground (arith, fill_at k (omega arith))))

  pub fill_same_ext : same_ext filled (buf_entry s.entry) rq ≡ true
  unfolding same_ext
  fill_same_ext = eq→== _ 0 (
      (memcmp-zero_iff filled (buf_entry s.entry + 8) rq.ext 0 3).1
        (λ k lt. ground (arith, fill_at (8 + k) (omega arith))))

-- Two memories with the same bytes in an entry answer the same of it.
module _ (m w : Bytes) (e : ℕ) (rq : Request)
    (agree : (k : ℕ) → k < 32 → w (e + k) ≡ m (e + k)) where
  pub same_name-agree : same_name w e rq ≡ same_name m e rq
  unfolding same_name
  same_name-agree =
      ap (λ (x : ℕ). x == 0) (memcmp-agree m w e rq.name 0 8 (λ k lt. agree k (omega arith)))

  pub same_ext-agree : same_ext w e rq ≡ same_ext m e rq
  unfolding same_ext
  same_ext-agree =
      ap (λ (x : ℕ). x == 0)
        (memcmp-agree m w (e + 8) rq.ext 0 3 (λ k lt.
          let here : e + 8 + k ≡ e + (8 + k) = omega arith in
          rw here (agree (8 + k) (omega arith))))

  pub undelete-agree : undelete w e ≡ undelete m e
  unfolding undelete
  undelete-agree = rw (agree 13 (omega arith))

  pub attribute-agree : attribute w e ≡ attribute m e
  unfolding attribute
  attribute-agree = agree 11 (omega arith)

  pub entry_cluster-agree : entry_cluster w e ≡ entry_cluster m e
  unfolding entry_cluster get16
  entry_cluster-agree = rw (
    agree 26 (omega arith),
    at_next 20 (omega arith),
    at_next 26 (omega arith),
    agree 20 (omega arith),
  )
    where
      at_next : (k : ℕ) → k < 31 → w (e + k + 1) ≡ m (e + k + 1)
      at_next k lt =
          let next : e + k + 1 ≡ e + (k + 1) = omega arith in rw next (agree (k + 1) (omega arith))

  pub filesize-agree : filesize w e ≡ filesize m e
  unfolding filesize get32
  filesize-agree = rw (
    agree 28 (omega arith),
    at_byte 1 (omega arith),
    at_byte 2 (omega arith),
    at_byte 3 (omega arith),
  )
    where
      at_byte : (k : ℕ) → k < 4 → w (e + 28 + k) ≡ m (e + 28 + k)
      at_byte k lt =
          let next : e + 28 + k ≡ e + (28 + k) = omega arith in
          rw next (agree (28 + k) (omega arith))
