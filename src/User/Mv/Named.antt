-- ===== src/User/Mv/Named.antt =====
-- mv (src/commands/mv.c) where both paths are names without an extension.
use if2230_2023_oshiete.Common.{
  ℕ, ◌+◌, ◌≤◌, ◌<◌, ◌≡◌, refl, ◌∙◌, arith, Bytes, IsBytes, Bool, true, false, ◌==◌, ◌&&◌,
  if◌then◌else◌, Option, some, if-some,
}
use if2230_2023_oshiete.Fat32.Driver.{Fs, Request}
use if2230_2023_oshiete.Fat32.Write.{write}
use if2230_2023_oshiete.Fat32.Delete.{delete}
use if2230_2023_oshiete.Fat32.Init.{zeros}
use if2230_2023_oshiete.User.{top_cluster}
use if2230_2023_oshiete.User.Messages.{is_message, complain-is_message, shown}
use if2230_2023_oshiete.User.Plain.{IsPlain, target, find_path-plain, separate-plain}
use if2230_2023_oshiete.User.Plain.Copies.{strcmp-plain, cut_text-plain}
use if2230_2023_oshiete.User.Target.{
  Run, Caller, probe, Kind, directory, file, absent, is_absent, ends, ends_there, with_buf,
  look_up_dest,
}
use if2230_2023_oshiete.User.Mv.{
  move_file_failed, rename_file_failed, replace_failed, settle, write_then_delete, replace_file,
  dispatch, move_to, move_from, split_dest, split_source, mv,
}

-- The state behind a command, with a message of n bytes for any code but 0.
abbrev pub told : ℕ → Bytes → ℕ → Run → Run
told code message n run = if code == 0 then run else shown message n run

settle-told :
    (fuel : ℕ) (message : Bytes) (n : ℕ) (run : Run) (code : ℕ) (fs : Fs)
    → is_message message n ≡ true
    → n < fuel
    → settle fuel message run (code, fs) ≡ some (told code message n (record run { fs = fs }))
unfolding settle
settle-told fuel message n run code fs e enough =
    rw (complain-is_message fuel message n (record run { fs = fs }) e enough)
      (if-some (code == 0) _ _)

-- A write that fails is followed by no delete.
write_then_delete-told :
    (fuel : ℕ) (message : Bytes) (n : ℕ) (new_req prev_req : Request) (run : Run) (code : ℕ)
    (fs1 : Fs) (code' : ℕ) (fs2 : Fs)
    → is_message message n ≡ true
    → n < fuel
    → write fuel new_req run.fs ≡ some (code, fs1)
    → delete fuel prev_req fs1 ≡ some (code', fs2)
    → write_then_delete fuel message new_req prev_req run
      ≡ some (
          if code == 0
          then told code' message n (record run { fs = fs2 })
          else shown message n (record run { fs = fs1 }))
unfolding write_then_delete
write_then_delete-told fuel message n new_req prev_req run code fs1 code' fs2 e enough w d =
    rw
      (
        w,
        d,
        settle-told fuel message n (record run { fs = fs1 }) code' fs2 e enough,
        complain-is_message fuel message n (record run { fs = fs1 }) e enough,
      )
      (if-some (code == 0) _ _)

replace_file-told :
    (fuel : ℕ) (buf : Bytes) (src_req dest_req : Request) (run : Run) (c1 : ℕ) (fs1 : Fs) (c2 : ℕ)
    (fs2 : Fs) (c3 : ℕ) (fs3 : Fs)
    → 129 < fuel
    → delete fuel src_req run.fs ≡ some (c1, fs1)
    → delete fuel dest_req fs1 ≡ some (c2, fs2)
    → write fuel dest_req (with_buf fs2 buf) ≡ some (c3, fs3)
    → replace_file fuel buf src_req dest_req run
      ≡ some (
          if c1 == 0 && c2 == 0
          then told c3 replace_failed 38 (record run { fs = fs3 })
          else shown replace_failed 38 (record run { fs = fs2 }))
unfolding replace_file
replace_file-told fuel buf src_req dest_req run c1 fs1 c2 fs2 c3 fs3 enough d1 d2 w =
    rw
      (
        d1,
        d2,
        w,
        settle-told fuel replace_failed 38 (record run { fs = fs2 }) c3 fs3 refl (omega arith),
        complain-is_message fuel replace_failed 38 (record run { fs = fs2 }) refl (omega arith),
      )
      (both (c1 == 0) (c2 == 0) _ _)
  where
    both :
        (a b : Bool) (x y : Run)
        → (if a then (if b then some x else some y) else some y) ≡ some (if a && b then x else y)
    both true true x y = refl
    both true false x y = refl
    both false b x y = refl

module _ (fuel : ℕ) (caller : Caller) (text : Bytes) (src k dest l : ℕ) (run : Run)
    (bytes : IsBytes text) (other : IsBytes caller.unset) (plain : IsPlain text src k)
    (plain_dest : IsPlain text dest l) (enough : 129 < fuel) (high : 3 ≤ caller.local) where
  -- The two paths are found, and the names are taken from them.
  mv-named :
      (next : Option ℕ) × (mv fuel caller text src dest run
        ≡ move_from fuel caller text dest
            (target caller text src k)
            (target caller text dest l)
            (record run { fs = record (run.fs) { buf = zeros }; next = next }))
  unfolding mv split_source split_dest
  mv-named =
      let f = find_path-plain fuel caller text src k run bytes other plain enough in
      let run' = record run { fs = record (run.fs) { buf = zeros }; next = f.next } in
      let g = find_path-plain fuel caller text dest l run' bytes other plain_dest enough in
      let s =
        separate-plain fuel caller caller.unset f.to_find g.next text src k bytes other f.bytes
          plain f.row enough high in
      let d =
        separate-plain fuel (record caller { local = caller.local + 12 }) s.names.memory g.to_find
          s.names.next text dest l bytes s.bytes g.bytes plain_dest g.row enough (omega arith) in
      (
        d.names.next,
        rw
            (
              f.answer,
              cut_text-plain fuel caller text src k run.next plain enough,
              g.answer,
              cut_text-plain fuel caller text dest l f.next plain_dest enough,
              s.answer,
              d.answer,
              s.request (top_cluster caller.cwd),
              d.request (top_cluster caller.cwd),
            )
            refl,
      )

  -- What the two names lead to.
  module _ (fs1 fs2 : Fs)
      (e1 : probe fuel caller (target caller text src k) (record (run.fs) { buf = zeros })
        ≡ some (record { kind = file; fs = fs1 })) where
    mv-probed :
        (kind : Kind)
        → probe fuel caller (target caller text dest l) fs1
          ≡ some (record { kind = kind; fs = fs2 })
        → (next : Option ℕ) × (mv fuel caller text src dest run
            ≡ dispatch fuel caller
                (record {
                  src_req = target caller text src k;
                  dest_req = target caller text dest l;
                  src_type = file;
                  dest_type = kind;
                  src_buf = fs1.buf;
                  dest_cluster_number = fs2.found;
                })
                file
                kind
                (record { screen = run.screen; fs = fs2; next = next }))
    unfolding move_from move_to is_absent look_up_dest ends_there ends
    mv-probed kind e2 =
        (mv-named.0, mv-named.1 ∙ rw (e1, strcmp-plain fuel text dest l plain_dest enough, e2) refl)

    abbrev left : Fs → Option ℕ → Run
    left fs next = record { screen = run.screen; fs = fs; next = next }

    -- A file goes into a directory: system call 2 is made with the file's name, the cluster of the
    -- directory, and the buffer of 8 clusters that the file was read into. Where it answers an error,
    -- nothing is deleted, and the message is shown. Where it answers 0, system call 3 is made for the
    -- old place, and the message is shown where that answers an error.
    pub mv-into :
        (code : ℕ) (fs3 : Fs) (code' : ℕ) (fs4 : Fs)
        → probe fuel caller (target caller text dest l) fs1
          ≡ some (record { kind = directory; fs = fs2 })
        → write fuel
            (record (target caller text src k) { parent_cluster_number = fs2.found })
            (with_buf fs2 fs1.buf)
          ≡ some (code, fs3)
        → delete fuel (target caller text src k) fs3 ≡ some (code', fs4)
        → (next : Option ℕ) × (mv fuel caller text src dest run
            ≡ some (
                if code == 0
                then told code' move_file_failed 27 (left fs4 next)
                else shown move_file_failed 27 (left fs3 next)))
    unfolding dispatch
    mv-into code fs3 code' fs4 e2 w d =
        let (next, answer) = mv-probed directory e2 in
        (
          next,
          answer
              ∙ write_then_delete-told fuel move_file_failed 27
                  (record (target caller text src k) { parent_cluster_number = fs2.found })
                  (target caller text src k) (left (with_buf fs2 fs1.buf) next) code fs3 code' fs4
                  refl (omega arith) w d,
        )

    -- A file gets a name that nothing has: system call 2 is made with the new name, and then, if it
    -- answers 0, system call 3 with the old one, with the messages as above.
    pub mv-rename :
        (code : ℕ) (fs3 : Fs) (code' : ℕ) (fs4 : Fs)
        → probe fuel caller (target caller text dest l) fs1
          ≡ some (record { kind = absent; fs = fs2 })
        → write fuel (target caller text dest l) (with_buf fs2 fs1.buf) ≡ some (code, fs3)
        → delete fuel (target caller text src k) fs3 ≡ some (code', fs4)
        → (next : Option ℕ) × (mv fuel caller text src dest run
            ≡ some (
                if code == 0
                then told code' rename_file_failed 29 (left fs4 next)
                else shown rename_file_failed 29 (left fs3 next)))
    unfolding dispatch
    mv-rename code fs3 code' fs4 e2 w d =
        let (next, answer) = mv-probed absent e2 in
        (
          next,
          answer
              ∙ write_then_delete-told fuel rename_file_failed 29 (target caller text dest l)
                  (target caller text src k) (left (with_buf fs2 fs1.buf) next) code fs3 code' fs4
                  refl (omega arith) w d,
        )

    -- A file takes the place of another: system call 3 is made for both, before system call 2 for the
    -- new content, so that where only that answers an error both files are deleted. The state is
    -- that behind it, or behind the two calls where one of them answers an error.
    pub mv-replace :
        (c1 : ℕ) (fs3 : Fs) (c2 : ℕ) (fs4 : Fs) (c3 : ℕ) (fs5 : Fs)
        → probe fuel caller (target caller text dest l) fs1
          ≡ some (record { kind = file; fs = fs2 })
        → delete fuel (target caller text src k) fs2 ≡ some (c1, fs3)
        → delete fuel (target caller text dest l) fs3 ≡ some (c2, fs4)
        → write fuel (target caller text dest l) (with_buf fs4 fs1.buf) ≡ some (c3, fs5)
        → (next : Option ℕ) × (mv fuel caller text src dest run
            ≡ some (
                if c1 == 0 && c2 == 0
                then told c3 replace_failed 38 (left fs5 next)
                else shown replace_failed 38 (left fs4 next)))
    unfolding dispatch
    mv-replace c1 fs3 c2 fs4 c3 fs5 e2 d1 d2 w =
        let (next, answer) = mv-probed file e2 in
        (
          next,
          answer
              ∙ replace_file-told fuel fs1.buf (target caller text src k)
                  (target caller text dest l) (left fs2 next) c1 fs3 c2 fs4 c3 fs5 enough d1 d2 w,
        )
