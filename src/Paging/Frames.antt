-- ===== src/Paging/Frames.antt =====
-- What src/paging.c maps: which entries change, and which frames they get.
use if2230_2023_oshiete.Common.{
  length, ℕ, suc, ◌+◌, ◌*◌, ◌<◌, ◌≡◌, ◌≢◌, refl, sym, subst, ◌∙◌, arith, List, [], ◌∷◌, eq→==,
  ne→==,
}
use if2230_2023_oshiete.Paging.{
  Paging, PageDirectoryEntry, page_frame_size, flags, page_index, update_page_directory_entry,
  allocate_single_user_page_frame,
}

-- A sequence of allocations at the given addresses, one after another.
unfoldable pub allocate_all : Paging → List ℕ → Paging
allocate_all p [] = p
allocate_all p (v ∷ vs) = allocate_all (allocate_single_user_page_frame p v).1 vs

-- The page of v is the page of no address of the list.
abbrev pub Elsewhere : ℕ → List ℕ → Type 0
Elsewhere v [] = Unit
Elsewhere v (w ∷ ws) = (page_index v ≢ page_index w) × Elsewhere v ws

-- The entry e is a page of 4 MiB, present, writable and the user's, at frame n.
pub record IsUserPage (e : PageDirectoryEntry) (n : ℕ) : Type 0 where
  pub at_frame : e.lower_address ≡ n
  pub with_flags : e.flag ≡ flags 1 1 1 1

-- The pages of the addresses are at the frames n, n + 1 and so on; of two addresses in one page, it
-- is the later one that counts.
abbrev pub AreMapped : (ℕ → PageDirectoryEntry) → ℕ → List ℕ → Type 0
AreMapped table n [] = Unit
AreMapped table n (v ∷ vs) =
    (Elsewhere v vs → IsUserPage (table (page_index v)) n) × AreMapped table (suc n) vs

allocate-other :
    (p : Paging) (v w : ℕ)
    → page_index v ≢ page_index w
    → (allocate_single_user_page_frame p w).1.table (page_index v) ≡ p.table (page_index v)
unfolding allocate_single_user_page_frame update_page_directory_entry
allocate-other p v w ne = rw (ne→== (page_index v) (page_index w) ne)

allocate_all-Elsewhere :
    (p : Paging) (vs : List ℕ) (v : ℕ)
    → Elsewhere v vs
    → (allocate_all p vs).table (page_index v) ≡ p.table (page_index v)
unfolding allocate_all
allocate_all-Elsewhere p [] v h = refl
allocate_all-Elsewhere p (w ∷ ws) v (ne, h) =
    allocate_all-Elsewhere (allocate_single_user_page_frame p w).1 ws v h ∙ allocate-other p v w ne

frame-page_index : (n : ℕ) → n < 1024 → page_index (n * page_frame_size) ≡ n
unfolding page_index
frame-page_index n h = omega arith

allocate-IsUserPage :
    (p : Paging) (n v : ℕ)
    → n < 1024
    → p.last_available_physical_addr ≡ n * page_frame_size
    → IsUserPage ((allocate_single_user_page_frame p v).1.table (page_index v)) n
unfolding allocate_single_user_page_frame update_page_directory_entry
allocate-IsUserPage p n v h at = record {
  at_frame = rw (eq→== (page_index v) (page_index v) refl, at) (frame-page_index n h);
  with_flags = rw (eq→== (page_index v) (page_index v) refl);
}

next_frame :
    (p : Paging) (n v : ℕ)
    → p.last_available_physical_addr ≡ n * page_frame_size
    → suc n < 1024
    → (allocate_single_user_page_frame p v).1.last_available_physical_addr ≡ suc n * page_frame_size
unfolding allocate_single_user_page_frame update_page_directory_entry
next_frame p n v at h = omega arith

all-AreMapped :
    (p : Paging) (n : ℕ) (vs : List ℕ)
    → p.last_available_physical_addr ≡ n * page_frame_size
    → n + length vs < 1024
    → AreMapped (allocate_all p vs).table n vs
unfolding allocate_all
all-AreMapped p n [] at h = tt
all-AreMapped p n (v ∷ vs) at h =
    let p' = (allocate_single_user_page_frame p v).1 in
    (
      λ other.
          subst (λ e. IsUserPage e n) (sym (allocate_all-Elsewhere p' vs v other))
            (allocate-IsUserPage p n v (omega arith) at),
      all-AreMapped p' (suc n) vs (next_frame p n v at (omega arith)) (omega arith),
    )

-- From a state whose next frame is number n, allocating a frame for each of the addresses, with
-- frames left below number 1024, maps their pages to the frames n, n + 1, ... as pages of the user;
-- every page of another address keeps its entry.
pub allocate_all-AreMapped :
    (p : Paging) (n : ℕ) (vs : List ℕ)
    → p.last_available_physical_addr ≡ n * page_frame_size
    → n + length vs < 1024
    → AreMapped (allocate_all p vs).table n vs
      × ((v : ℕ)
          → Elsewhere v vs
          → (allocate_all p vs).table (page_index v) ≡ p.table (page_index v))
allocate_all-AreMapped p n vs at h = (all-AreMapped p n vs at h, allocate_all-Elsewhere p vs)
