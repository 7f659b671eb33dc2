-- ===== src/User/Mkdir/Named.antt =====
-- mkdir (src/commands/mkdir.c) with a path that is one name.
use if2230_2023_oshiete.Common.{
  ℕ, zero, suc, ◌+◌, ◌-◌, ◌^◌, ◌≤◌, ◌<◌, ◌≡◌, ◌≢◌, refl, sym, ◌∙◌, arith, Bytes, IsBytes, put8,
  put32, get32, clear, copy, ◌&&◌, ltb, leb, if◌then◌else◌, Option, some, ◌>>=◌, ne→==, le→ltb,
}
use if2230_2023_oshiete.Str.{strlen}
use if2230_2023_oshiete.Str.Laws.{IsString, strlen-IsString, strcpy-copy}
use if2230_2023_oshiete.Str.Token.{IsToken}
use if2230_2023_oshiete.Fat32.Driver.{Fs, Request}
use if2230_2023_oshiete.Fat32.Write.{write}
use if2230_2023_oshiete.Fat32.Init.{zeros}
use if2230_2023_oshiete.Syscall.{request_at}
use if2230_2023_oshiete.User.{CurrentWorkingDirectory, top_cluster}
use if2230_2023_oshiete.User.Mkdir.{
  after_slash, take_name, from_root, folder_struct, make_folder, make_at, mkdir,
}

after_slash-IsToken :
    (m : Bytes) (p n : ℕ) → ((i : ℕ) → i < n → m (p + i) ≢ b'/') → after_slash m p n ≡ 0
unfolding after_slash
after_slash-IsToken m p zero no_slash = refl
after_slash-IsToken m p (suc i) no_slash =
    rw (ne→== (m (p + i)) b'/' (no_slash i (omega arith)))
      (after_slash-IsToken m p i λ j lt. no_slash j (omega arith))

-- With start 0: the bytes from i on, k of them, are taken.
take_name_lem :
    (m folder : Bytes) (p k i : ℕ)
    → IsBytes m
    → ((q : ℕ)
        → (take_name m folder p 0 k i).0 q
          ≡ (if leb i q && ltb q (i + k) then m (p + q) else folder q))
      × ((q : ℕ)
          → (take_name m folder p 0 k i).1 q
            ≡ (if leb (p + i) q && ltb q (p + i + k) then 0 else m q))
unfolding take_name put8
take_name_lem m folder p zero i bytes = (λ q. ground arith, λ q. ground arith)
take_name_lem m folder p (suc k) i bytes =
    let rest =
      take_name_lem (put8 m (p + i) 0) (put8 folder (i - 0) (m (p + i))) p k (suc i)
        (λ a. ground (arith, bytes a)) in
    (λ q. rest.0 q ∙ ground (arith, bytes (p + i)), λ q. rest.1 q ∙ ground arith)

-- At the address lies a name of 1 to 7 bytes, none of them a slash.
pub record IsFolderName (m : Bytes) (p k : ℕ) : Type 0 where
  pub low : 1 ≤ k
  pub high : k < 8
  pub token : IsToken m p k b'/'
  pub ends : m (p + k) ≡ 0

-- The request for the folder of k bytes that are those at p of m, in the directory.
pub record AsksFolder (rq : Request) (m : Bytes) (p k cluster : ℕ) : Type 0 where
  pub name : (q : ℕ) → q < 8 → rq.name q ≡ (if ltb q k then m (p + q) else 0)
  pub ext : (q : ℕ) → q < 3 → rq.ext q ≡ 0
  pub parent : rq.parent_cluster_number ≡ cluster
  pub size : rq.buffer_size ≡ 0

-- The folder_name that holds the name.
record IsFolder (folder m : Bytes) (p k : ℕ) : Type 0 where
  bytes : IsBytes folder
  string : IsString folder 0 k
  name : (q : ℕ) → q < 8 → folder q ≡ (if ltb q k then m (p + q) else 0)

abbrev struct_of : ℕ → Bytes
struct_of cluster = put32 (put32 zeros 15 cluster) 19 0

struct_of-IsString : (cluster : ℕ) → IsString (struct_of cluster) 4 0
unfolding put32
struct_of-IsString cluster = record { ends = refl; no_zero = λ i lt. absurd (omega arith) }

folder_struct-copy :
    (fuel : ℕ) (folder m : Bytes) (p k cluster : ℕ)
    → IsFolder folder m p k
    → k < fuel
    → folder_struct fuel folder cluster ≡ some (copy (struct_of cluster) 4 folder 0 (suc k))
unfolding folder_struct
folder_struct-copy fuel folder m p k cluster h enough =
    strcpy-copy fuel (struct_of cluster) 4 folder 0 0 k h.bytes (struct_of-IsString cluster)
      h.string (omega arith) enough

request_at-AsksFolder :
    (folder m : Bytes) (p k cluster : ℕ)
    → IsFolder folder m p k
    → k < 8
    → cluster < 2 ^ 32
    → AsksFolder (request_at (copy (struct_of cluster) 4 folder 0 (suc k)) 0) m p k cluster
unfolding request_at copy put32 get32
request_at-AsksFolder folder m p k cluster h short word = record {
  name = λ q lt. ground (arith, h.name q lt);
  ext = λ q lt. ground arith;
  parent = ground arith;
  size = ground arith;
}

taken-IsFolder :
    (m unset : Bytes) (p k : ℕ)
    → IsBytes m
    → IsBytes unset
    → IsFolderName m p k
    → IsFolder (take_name m (clear unset 0 8) p 0 k 0).0 m p k
unfolding clear
taken-IsFolder m unset p k bytes other name =
    let taken = (take_name_lem m (clear unset 0 8) p k 0 bytes).0 in
    record {
      bytes = λ q. rw (taken q) (ground (arith, bytes (p + q), other q));
      string = record {
        ends = taken (0 + k) ∙ ground (arith, name.high);
        no_zero = λ i lt e. (name.token i lt).0 (sym (taken (0 + i) ∙ ground arith) ∙ e);
      };
      name = λ q lt. taken q ∙ ground arith;
    }

mkdir-start :
    (fuel : ℕ) (cwd : CurrentWorkingDirectory) (m : Bytes) (p : ℕ) (unset : Bytes) (next : Option ℕ)
    (fs : Fs) (k : ℕ)
    → strlen fuel m p ≡ some k
    → after_slash m p k ≡ 0
    → k < 8
    → mkdir fuel cwd m p unset next fs
      ≡ make_at fuel
          (take_name m (clear unset 0 8) p 0 k 0).0
          (take_name m (clear unset 0 8) p 0 k 0).1
          p
          cwd
          unset
          next
          fs
unfolding mkdir from_root
mkdir-start fuel cwd m p unset next fs k long start short =
    let all : k - 0 ≡ k = omega arith in rw (long, start, all, le→ltb 8 k (omega arith)) refl

-- A path that is a name of 1 to 7 bytes, without a slash: with fuel for 10 bytes and more, mkdir
-- makes the folder of that name in the directory on top of the stack: it is `write` with a request
-- for it, and comes to an end as that does.
pub mkdir-AsksFolder :
    (fuel : ℕ) (cwd : CurrentWorkingDirectory) (m : Bytes) (p : ℕ) (unset : Bytes) (next : Option ℕ)
    (fs : Fs) (k : ℕ)
    → IsBytes m
    → IsBytes unset
    → IsFolderName m p k
    → top_cluster cwd < 2 ^ 32
    → 9 < fuel
    → (rq : Request) × AsksFolder rq m p k (top_cluster cwd)
      × (mkdir fuel cwd m p unset next fs ≡ (write fuel rq fs >>= λ answer. some answer.1))
unfolding make_at make_folder
mkdir-AsksFolder fuel cwd m p unset next fs k bytes other name word enough =
    let folder = (take_name m (clear unset 0 8) p 0 k 0).0 in
    let left = (take_name m (clear unset 0 8) p 0 k 0).1 in
    let is_folder = taken-IsFolder m unset p k bytes other name in
    let empty : IsString left p 0 = record {
      ends = (take_name_lem m (clear unset 0 8) p k 0 bytes).1 (p + 0) ∙ ground (arith, name.low);
      no_zero = λ i lt. absurd (omega arith);
    } in
    let string : IsString m p k = record {
      ends = name.ends;
      no_zero = λ i lt. (name.token i lt).0;
    } in
    (
      request_at (copy (struct_of (top_cluster cwd)) 4 folder 0 (suc k)) 0,
      request_at-AsksFolder folder m p k (top_cluster cwd) is_folder name.high word,
      mkdir-start fuel cwd m p unset next fs k
            (strlen-IsString fuel m p k string (omega (arith, name.high)))
            (after_slash-IsToken m p k λ i lt. (name.token i lt).1) name.high
          ∙ rw
              (
                strlen-IsString fuel left p 0 empty (omega arith),
                folder_struct-copy fuel folder m p k (top_cluster cwd) is_folder
                    (omega (arith, name.high)),
              )
              refl,
    )
