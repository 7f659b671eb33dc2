-- ===== src/User/Cat/Shown.antt =====
-- cat (src/commands/cat.c) of a file with a name without an extension.
use if2230_2023_oshiete.Common.{
  ℕ, ◌+◌, ◌-◌, ◌*◌, ◌%◌, ◌≤◌, ◌<◌, ◌≡◌, ◌≢◌, refl, sym, ap, ◌∙◌, arith, fun_ext, Bytes, IsBytes, [],
  ◌∷◌, ◌&&◌, ltb, leb, if◌then◌else◌, Option, some, le→ltb, lt→ltb,
}
use native.Mathlib.Decide.{dec_lt}
use if2230_2023_oshiete.Mem.{memcpy}
use if2230_2023_oshiete.Mem.Laws.{memcpy_lem}
use if2230_2023_oshiete.Str.Parse.Rows.{IsPath, final}
use if2230_2023_oshiete.Framebuffer.{Screen, puts_buff}
use if2230_2023_oshiete.Fat32.Layout.{cluster_size}
use if2230_2023_oshiete.Fat32.Driver.{Fs, Request}
use if2230_2023_oshiete.Fat32.Read.{read}
use if2230_2023_oshiete.Fat32.Init.{zeros}
use if2230_2023_oshiete.Syscall.{put_view}
use if2230_2023_oshiete.User.{CurrentWorkingDirectory, top_cluster}
use if2230_2023_oshiete.User.Name.{IsName, name_of, IsRow, read_path-name}
use if2230_2023_oshiete.User.Filename.{Filename}
use if2230_2023_oshiete.User.Filename.Pieces.{Holds, separate_filename-null}
use if2230_2023_oshiete.User.Cat.{vga_color_white, file_request, show_file, cat}
use if2230_2023_oshiete.User.Cat.Text.{texts, low_bytes, show_answer-texts}

-- The request for the file of that name, without an extension, and a buffer of 8 clusters.
abbrev pub plain_request : Bytes → ℕ → ℕ → ℕ → Request
plain_request text p k cluster = record {
  name = name_of text p k;
  ext = zeros;
  parent_cluster_number = cluster;
  buffer_size = 8 * cluster_size;
}

-- A buffer of which the first n bytes are those of v, which ends there, is v, once copied.
memcpy-same :
    (buf v : Bytes) (n : ℕ)
    → IsBytes v
    → ((q : ℕ) → q < n → buf q ≡ v q)
    → ((q : ℕ) → n ≤ q → v q ≡ 0)
    → memcpy zeros 0 buf 0 n ≡ v
memcpy-same buf v n bytes same end = fun_ext λ q. memcpy_lem zeros 0 buf 0 n q ∙ at q
  where
    at : (q : ℕ) → (if leb 0 q && ltb q (0 + n) then buf (0 + (q - 0)) % 256 else 0) ≡ v q
    at q = elim (dec_lt q n) [
      | yes lt ↦
          let e : 0 + (q - 0) ≡ q = omega arith in
          rw (lt→ltb q (0 + n) (omega arith), e, same q lt) (ground (arith, bytes q))
      | no ge ↦ ground (arith, end q (omega arith))
    ]

put_view-at :
    (unset new_dir text : Bytes) (p k local : ℕ)
    → IsRow 12 new_dir text p k
    → (q : ℕ) → q < 12
    → put_view unset local new_dir (local + q) ≡ name_of text p k q
unfolding put_view
put_view-at unset new_dir text p k local row q lt =
    let e : local + q - local ≡ q = omega arith in
    let here : put_view unset local new_dir (local + q) ≡ new_dir q = rw e (ground arith) in
    here ∙ row q lt

pub local-IsPath :
    (unset new_dir text : Bytes) (p k local : ℕ)
    → IsRow 12 new_dir text p k
    → IsName text p k
    → ((i : ℕ) → i < k → text (p + i) ≢ b'.')
    → IsPath (put_view unset local new_dir) b'.' local (k ∷ [])
local-IsPath unset new_dir text p k local row name plain =
    let at : (i : ℕ) → i < k → put_view unset local new_dir (local + i) ≡ text (p + i) = λ i lt.
      put_view-at unset new_dir text p k local row i (omega (arith, name.high))
      ∙ rw (lt→ltb i k lt) refl in
    final (omega (arith, name.high))
      (λ i lt. (λ z. (name.token i lt).0 (sym (at i lt) ∙ z), λ z. plain i lt (sym (at i lt) ∙ z)))
      (put_view-at unset new_dir text p k local row k (omega (arith, name.high))
        ∙ rw (le→ltb k k (omega arith)) refl)

pub put_view-IsBytes :
    (unset new_dir : Bytes) (local : ℕ)
    → IsBytes unset
    → IsBytes new_dir
    → IsBytes (put_view unset local new_dir)
unfolding put_view
put_view-IsBytes unset new_dir local other bytes q = ground (arith, other q, bytes (q - local))

pub name_of-IsBytes : (text : Bytes) (p k : ℕ) → IsBytes text → IsBytes (name_of text p k)
name_of-IsBytes text p k bytes q = ground (arith, bytes (p + q))

-- What separate_filename leaves of the name makes the request for it.
pub file_request-name :
    (f : Filename) (unset new_dir text : Bytes) (p k local c : ℕ)
    → IsBytes text
    → k ≤ 8
    → IsRow 12 new_dir text p k
    → Holds 8 f.name (put_view unset local new_dir) local k
    → Holds 3 f.ext (put_view unset local new_dir) 0 0
    → file_request f c ≡ plain_request text p k c
unfolding file_request
file_request-name f unset new_dir text p k local c bytes high row name ext =
    ap
      (λ n. record {
        name = n;
        ext = memcpy zeros 0 f.ext 0 3;
        parent_cluster_number = c;
        buffer_size = 8 * cluster_size;
      })
      (memcpy-same f.name (name_of text p k) 8 (name_of-IsBytes text p k bytes) copied
        (λ q le. rw (le→ltb q k (omega arith)) refl))
    ∙ ap
        (λ e. record {
          name = name_of text p k;
          ext = e;
          parent_cluster_number = c;
          buffer_size = 8 * cluster_size;
        })
        (memcpy-same f.ext zeros 3 (λ a. omega arith)
          (λ q lt. ext q lt ∙ rw (le→ltb q 0 (omega arith)) refl) (λ q le. refl))
  where
    copied : (q : ℕ) → q < 8 → f.name q ≡ name_of text p k q
    copied q lt = name q lt ∙ (elim (dec_lt q k) [
      | yes below ↦ rw (lt→ltb q k below) (
          put_view-at unset new_dir text p k local row q (omega arith) ∙ rw (lt→ltb q k below) refl)
      | no above ↦ rw (le→ltb q k (omega arith)) refl
    ])

-- For a path that is a name of 1 to 8 bytes, without a slash and without a dot, and not "..", with
-- fuel for 128 bytes and more: where read answers 0 for that name, without an extension, in the
-- directory on top of the stack, with a buffer of 8 clusters, cat comes to an end, and the screen is
-- what one call of puts_buff in white makes of the first five clusters in the buffer, each up to its
-- first zero. The local buffer of the name is not at the addresses 0 to 2.
pub cat-texts :
    (fuel : ℕ) (cwd : CurrentWorkingDirectory) (text : Bytes) (p local : ℕ) (unset : Bytes)
    (next : Option ℕ) (fs : Fs) (screen : Screen) (k : ℕ) (fs' : Fs)
    → IsBytes text
    → IsBytes unset
    → IsName text p k
    → ((i : ℕ) → i < k → text (p + i) ≢ b'.')
    → 129 < fuel
    → 3 ≤ local
    → read fuel (plain_request text p k (top_cluster cwd)) (record fs { buf = unset; found = 0 })
      ≡ some (0, fs')
    → cat fuel cwd text p local unset next fs screen
      ≡ some (puts_buff screen (texts (low_bytes fs'.buf) 5 0) vga_color_white, fs')
unfolding cat show_file
cat-texts fuel cwd text p local unset next fs screen k fs' bytes other name plain enough high e =
    let (new_dir, next', answer, row, new_bytes) =
      read_path-name fuel text p cwd unset next fs k bytes name enough in
    let names : Filename = record {
      memory = put_view unset local new_dir;
      name = zeros;
      ext = zeros;
      next = next';
    } in
    let (s, _) =
      separate_filename-null fuel local k names
        (put_view-IsBytes unset new_dir local other (new_bytes other))
        (local-IsPath unset new_dir text p k local row name plain) enough high in
    let request =
      file_request-name s.result unset new_dir text p k local (top_cluster cwd) bytes name.high row
        (s.name name.high (omega arith)) (s.ext name.high (omega arith)) in
    rw
      (
        answer,
        s.answer,
        le→ltb 8 k name.high,
        request,
        e,
        show_answer-texts fuel unset screen fs' (omega arith),
      )
      refl
