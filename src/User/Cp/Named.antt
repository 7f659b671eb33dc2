-- ===== src/User/Cp/Named.antt =====
-- cp (src/commands/cp.c) where both paths are names without an extension.
use if2230_2023_oshiete.Common.{
  ℕ, suc, ◌+◌, ◌≤◌, ◌<◌, ◌≡◌, refl, ◌∙◌, arith, Bytes, IsBytes, Bool, true, ◌==◌, if◌then◌else◌,
  Option, some, if-some,
}
use if2230_2023_oshiete.Fat32.Driver.{Fs}
use if2230_2023_oshiete.Fat32.Write.{write}
use if2230_2023_oshiete.Fat32.Init.{zeros}
use if2230_2023_oshiete.User.{top_cluster}
use if2230_2023_oshiete.User.Messages.{complain-is_message, shown}
use if2230_2023_oshiete.User.Plain.{IsPlain, target, find_path-plain, separate-plain}
use if2230_2023_oshiete.User.Plain.Copies.{copy_path-plain, strcmp-plain}
use if2230_2023_oshiete.User.Target.{
  Run, Caller, probe, file, absent, is_absent, ends, ends_there, with_buf, look_up_dest,
}
use if2230_2023_oshiete.User.Cp.{
  copy_failed, already_exists, request_into, write_copy, copy_file, copy_target, copy_to, copy_from,
  copy_split_dest, copy_split_source, cp_at, cp,
}

module _ (depth fuel : ℕ) (caller : Caller) (src_text : Bytes) (src k : ℕ) (dest_text : Bytes)
    (dest l : ℕ) (is_recursive : Bool) (run : Run) (bytes : IsBytes src_text)
    (bytes_dest : IsBytes dest_text) (other : IsBytes caller.unset) (plain : IsPlain src_text src k)
    (plain_dest : IsPlain dest_text dest l) (enough : 129 < fuel) (high : 3 ≤ caller.local) where
  -- The two paths are found, and the names are taken from them.
  cp-named :
      (full_src : Bytes) × (full_dest : Bytes) × (next : Option ℕ) × (cp
          (suc depth)
          fuel
          caller
          src_text
          src
          dest_text
          dest
          is_recursive
          true
          run
        ≡ copy_from fuel caller
            (λ path to. cp depth fuel caller path 0 to 0 true)
            (record {
              text = dest_text;
              dest = dest;
              full_src = full_src;
              full_dest = full_dest;
              is_recursive = is_recursive;
              is_root = true;
            })
            (target caller src_text src k)
            (target caller dest_text dest l)
            (record run { fs = record (run.fs) { buf = zeros }; next = next }))
  unfolding cp cp_at copy_split_source copy_split_dest
  cp-named =
      let a = copy_path-plain fuel caller src_text src k bytes other plain enough in
      let b = copy_path-plain fuel caller dest_text dest l bytes_dest other plain_dest enough in
      let f = find_path-plain fuel caller a.full 0 k run a.bytes other a.plain enough in
      let run' = record run { fs = record (run.fs) { buf = zeros }; next = f.next } in
      let g = find_path-plain fuel caller b.full 0 l run' b.bytes other b.plain enough in
      let s =
        separate-plain fuel caller caller.unset f.to_find g.next a.full 0 k a.bytes other f.bytes
          a.plain f.row enough high in
      let d =
        separate-plain fuel (record caller { local = caller.local + 12 }) s.names.memory g.to_find
          s.names.next b.full 0 l b.bytes s.bytes g.bytes b.plain g.row enough (omega arith) in
      (
        a.full,
        b.full,
        d.names.next,
        rw
            (
              a.answer,
              b.answer,
              f.answer,
              g.answer,
              s.answer,
              d.answer,
              s.request (top_cluster caller.cwd),
              d.request (top_cluster caller.cwd),
              a.request (top_cluster caller.cwd),
              b.request (top_cluster caller.cwd),
            )
            refl,
      )

  abbrev left : Fs → Option ℕ → Run
  left fs next = record { screen = run.screen; fs = fs; next = next }

  -- What the two names lead to, and that the source stays where it is: system calls 1 and 0 are the
  -- only ones before that of the copy.
  module _ (fs1 fs2 : Fs)
      (e1 : probe fuel caller (target caller src_text src k) (record (run.fs) { buf = zeros })
        ≡ some (record { kind = file; fs = fs1 })) where
    -- A file is copied to a name that nothing has: system call 2 is made with that name and the
    -- source's buffer, but for 4 bytes, whatever the size of the source. The message is shown where
    -- it answers an error. The depth does not matter, nor does -r.
    pub cp-file :
        (code : ℕ) (fs3 : Fs)
        → probe fuel caller (target caller dest_text dest l) fs1
          ≡ some (record { kind = absent; fs = fs2 })
        → write fuel
            (record (target caller dest_text dest l) { buffer_size = 4 })
            (with_buf fs2 fs1.buf)
          ≡ some (code, fs3)
        → (next : Option ℕ) × (cp
              (suc depth)
              fuel
              caller
              src_text
              src
              dest_text
              dest
              is_recursive
              true
              run
            ≡ some (if code == 0 then left fs3 next else shown copy_failed 28 (left fs3 next)))
    unfolding copy_from copy_to is_absent look_up_dest ends_there ends copy_target copy_file
        write_copy request_into
    cp-file code fs3 e2 w =
        let (full_src, full_dest, next, answer) = cp-named in
        (
          next,
          answer
              ∙ rw
                  (
                    e1,
                    strcmp-plain fuel dest_text dest l plain_dest enough,
                    e2,
                    w,
                    complain-is_message fuel copy_failed 28 (left fs3 next) refl (omega arith),
                  )
                  (if-some (code == 0) _ _),
        )

    -- A file that has the destination's name stays: the message is shown, and neither system call 2
    -- nor system call 3 is made.
    pub cp-exists :
        probe fuel caller (target caller dest_text dest l) fs1
          ≡ some (record { kind = file; fs = fs2 })
        → (next : Option ℕ) × (cp
              (suc depth)
              fuel
              caller
              src_text
              src
              dest_text
              dest
              is_recursive
              true
              run
            ≡ some (shown already_exists 55 (left fs2 next)))
    unfolding copy_from copy_to is_absent look_up_dest ends_there ends copy_target copy_file
    cp-exists e2 =
        let (full_src, full_dest, next, answer) = cp-named in
        (
          next,
          answer
              ∙ rw (e1, strcmp-plain fuel dest_text dest l plain_dest enough, e2)
                  (complain-is_message fuel already_exists 55 (left fs2 next) refl (omega arith)),
        )
