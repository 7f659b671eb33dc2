-- ===== src/Fat32/Store/Round.antt =====
-- One round of the loop of `write` (src/fat32.c) over the clusters of a file.
use if2230_2023_oshiete.Common.{
  ℕ, ◌+◌, ◌*◌, ◌≤◌, ◌<◌, ◌≡◌, ◌≢◌, refl, ◌∙◌, arith, Bytes, Option, none, some, put32, ◌==◌, eq→==,
  ne→==, if◌then◌else◌,
}
use native.Mathlib.Decide.{ℕ_discrete}
use if2230_2023_oshiete.Fat32.Layout.{cluster_size, end_of_file, cluster_map, set_cluster_map}
use if2230_2023_oshiete.Fat32.Driver.{write_clusters, save_fat}
use if2230_2023_oshiete.Fat32.Write.{Chain, link_previous, write_fragment}
use if2230_2023_oshiete.Fat32.Allocate.{cluster_map-set_cluster_map}
use if2230_2023_oshiete.Fat32.Transfer.{write_clusters_at}
use if2230_2023_oshiete.Fat32.Space.{IsFree, Takes}

-- The entry i once the previous cluster, if there is one, is linked to cluster c.
abbrev pub linked : Bytes → Option ℕ → ℕ → ℕ → ℕ
linked m none c i = cluster_map m i
linked m (some p) c i = if i == p then c else cluster_map m i

-- The previous cluster is one of the table, and in use.
abbrev pub IsTaken : Bytes → Option ℕ → Type 0
IsTaken m none = Unit
IsTaken m (some p) = (p < 512) × (cluster_map m p ≢ 0)

cluster_map-link_previous :
    (m : Bytes) (prev : Option ℕ) (c i : ℕ)
    → c < 512
    → cluster_map (link_previous m prev c) i ≡ linked m prev c i
cluster_map-link_previous m none c i h = refl
cluster_map-link_previous m (some p) c i h = cluster_map-set_cluster_map m p i c (omega arith)

-- A link makes no cluster free and takes none.
linked_empty :
    (m : Bytes) (prev : Option ℕ) (c j : ℕ)
    → c ≢ 0
    → IsTaken m prev
    → (linked m prev c j == 0) ≡ (cluster_map m j == 0)
linked_empty m none c j h t = refl
linked_empty m (some p) c j h (_, used) = elim (ℕ_discrete j p) [
  | yes e ↦ rw (e, eq→== p p refl, ne→== c 0 h, ne→== (cluster_map m p) 0 used)
  | no ne ↦ rw (ne→== j p ne)
]

pub set_cluster_map_above :
    (m : Bytes) (i v q : ℕ) → i < 512 → 2048 ≤ q → set_cluster_map m i v q ≡ m q
unfolding set_cluster_map put32
set_cluster_map_above m i v q h le = ground arith

link_previous_above :
    (m : Bytes) (prev : Option ℕ) (c q : ℕ)
    → IsTaken m prev
    → 2048 ≤ q
    → link_previous m prev c q ≡ m q
link_previous_above m none c q t le = refl
link_previous_above m (some p) c q t le = set_cluster_map_above m p c q t.0 le

module _ (c : Chain) where
  -- The table behind the round.
  abbrev pub map_after : Bytes
  map_after =
      set_cluster_map (link_previous c.fs.driver c.previous c.cluster_index) c.cluster_index
        end_of_file

  pub driver-write_fragment : (write_fragment c).driver ≡ map_after
  unfolding write_fragment save_fat
  driver-write_fragment = refl

  -- Nothing but the table and the medium changes.
  pub rest-write_fragment :
      write_fragment c
      ≡ record (c.fs) { driver = (write_fragment c).driver; disk = (write_fragment c).disk }
  unfolding write_fragment save_fat
  rest-write_fragment = refl

  module _ (free : IsFree c.fs.driver c.cluster_index) where
    pub cluster_map-map_after :
        (i : ℕ)
        → cluster_map map_after i ≡ (
            if i == c.cluster_index
            then end_of_file
            else linked c.fs.driver c.previous c.cluster_index i)
    cluster_map-map_after i =
        rw
          (cluster_map-set_cluster_map (link_previous c.fs.driver c.previous c.cluster_index)
            c.cluster_index i end_of_file (omega arith))
          (rw (cluster_map-link_previous c.fs.driver c.previous c.cluster_index i free.high))

    pub map_after_above :
        (q : ℕ) → IsTaken c.fs.driver c.previous → 2048 ≤ q → map_after q ≡ c.fs.driver q
    map_after_above q t le =
        set_cluster_map_above _ c.cluster_index end_of_file q free.high le
        ∙ link_previous_above c.fs.driver c.previous c.cluster_index q t le

    pub Takes-map_after :
        IsTaken c.fs.driver c.previous → Takes c.fs.driver c.cluster_index map_after
    Takes-map_after t = record {
      before = free.empty;
      after =
          rw (cluster_map-map_after c.cluster_index, eq→== c.cluster_index c.cluster_index refl)
            (omega arith);
      others = λ j ne.
          rw (cluster_map-map_after j, ne→== j c.cluster_index ne)
            (linked_empty c.fs.driver c.previous c.cluster_index j (omega (arith, free.low)) t);
    }

    -- The medium behind the round, cluster by cluster.
    pub disk-write_fragment :
        (d i : ℕ)
        → i < cluster_size
        → (write_fragment c).disk (d * cluster_size + i) ≡ (
            if d == c.cluster_index
            then c.fs.buf (c.fragment_ctr * cluster_size + i)
            else (if d == 1 then map_after i else c.fs.disk (d * cluster_size + i)))
    unfolding write_fragment save_fat
    disk-write_fragment d i lt =
        rw
          (write_clusters_at (write_clusters c.fs.disk map_after 0 1 1) c.fs.buf
            (c.fragment_ctr * cluster_size) c.cluster_index d i (omega (arith, free.high)) lt)
          (rw (write_clusters_at c.fs.disk map_after 0 1 d i (omega arith) lt)
            (let e : 0 + i ≡ i = omega arith in rw e))
