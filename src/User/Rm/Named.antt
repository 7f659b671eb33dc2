-- ===== src/User/Rm/Named.antt =====
-- rm (src/commands/rm.c) of a path that is one name without an extension.
use if2230_2023_oshiete.Common.{
  ℕ, suc, ◌≤◌, ◌<◌, ◌≡◌, ◌≢◌, refl, ◌∙◌, arith, Bytes, IsBytes, Bool, true, false, ◌==◌,
  if◌then◌else◌, Option, some, if-some, ne→==, eq→==,
}
use if2230_2023_oshiete.Fat32.Layout.{user_attribute, uattr_not_empty}
use if2230_2023_oshiete.Fat32.Driver.{Fs}
use if2230_2023_oshiete.Fat32.Read.{read}
use if2230_2023_oshiete.Fat32.Delete.{delete}
use if2230_2023_oshiete.Fat32.Init.{zeros}
use if2230_2023_oshiete.User.{top_cluster, call_read_directory}
use if2230_2023_oshiete.User.Target.{Run, Caller, probe, as_file}
use if2230_2023_oshiete.User.Messages.{complain-is_message, shown}
use if2230_2023_oshiete.User.Plain.{IsPlain, target, find_path-plain, separate-plain}
use if2230_2023_oshiete.User.Plain.Copies.{copy_path-plain}
use if2230_2023_oshiete.User.Rm.{
  delete_failed, not_specified, delete_target, remove_directory, remove, remove_named,
  remove_separated, remove_found, rm_at, rm,
}

module _ (depth fuel : ℕ) (caller : Caller) (text : Bytes) (p k : ℕ) (is_recursive is_root : Bool)
    (run : Run) (bytes : IsBytes text) (other : IsBytes caller.unset) (plain : IsPlain text p k)
    (enough : 129 < fuel) (high : 3 ≤ caller.local) where
  -- The path is found, and the name is taken from it.
  rm-named :
      (full : Bytes) × (next : Option ℕ) × (rm
          (suc depth)
          fuel
          caller
          text
          p
          is_recursive
          is_root
          run
        ≡ remove_named fuel caller
            (λ path. rm depth fuel caller path 0 true false)
            full
            is_recursive
            (target caller text p k)
            (record run { fs = record (run.fs) { buf = zeros }; next = next }))
  unfolding rm rm_at remove_found remove_separated
  rm-named =
      let c = copy_path-plain fuel caller text p k bytes other plain enough in
      let f = find_path-plain fuel caller c.full 0 k run c.bytes other c.plain enough in
      let s =
        separate-plain fuel caller caller.unset f.to_find f.next c.full 0 k c.bytes other f.bytes
          c.plain f.row enough high in
      (
        c.full,
        s.names.next,
        rw
            (
              c.answer,
              f.answer,
              s.answer,
              s.request (top_cluster caller.cwd),
              c.request (top_cluster caller.cwd),
            )
            refl,
      )

  -- A name that leads to a file, and to no directory: system call 3 is made for that name, and for no
  -- other, behind the calls that look for it. Where it answers 0, the screen stays; where it answers
  -- an error, the message is shown. The depth does not matter, nor does -r.
  pub rm-file :
      (c code : ℕ) (fs1 fs2 fs3 : Fs)
      → call_read_directory fuel (target caller text p k) (record (run.fs) { buf = zeros })
        ≡ some (c, fs1)
      → c ≢ 0
      → read fuel (target caller text p k) (record fs1 { buf = caller.unset }) ≡ some (0, fs2)
      → delete fuel (target caller text p k) fs2 ≡ some (code, fs3)
      → (next : Option ℕ) × (rm (suc depth) fuel caller text p is_recursive is_root run
          ≡ some (
              if code == 0
              then record { screen = run.screen; fs = fs3; next = next }
              else shown delete_failed 21 (record { screen = run.screen; fs = fs3; next = next })))
  unfolding remove_named probe as_file remove delete_target
  rm-file c code fs1 fs2 fs3 e1 ne e2 e3 =
      let (full, next, answer) = rm-named in
      (
        next,
        answer
            ∙ rw
                (
                  e1,
                  ne→== c 0 ne,
                  e2,
                  e3,
                  complain-is_message fuel delete_failed 21
                      (record { screen = run.screen; fs = fs3; next = next }) refl (omega arith),
                )
                (if-some (code == 0) _ _),
      )

  -- A directory in use, without -r: the screen shows that -r is missing, and the file system is the one
  -- that system call 1, which looks for the name, has left.
  pub rm-in_use :
      (fs1 : Fs)
      → is_recursive ≡ false
      → call_read_directory fuel (target caller text p k) (record (run.fs) { buf = zeros })
        ≡ some (0, fs1)
      → user_attribute fs1.buf 0 ≡ uattr_not_empty
      → (next : Option ℕ) × (rm (suc depth) fuel caller text p is_recursive is_root run
          ≡ some (shown not_specified 25 (record { screen = run.screen; fs = fs1; next = next })))
  unfolding remove_named probe remove remove_directory
  rm-in_use fs1 plain_rm e1 used = (rm-named.1, rm-named.2 ∙ refused rm-named.0 rm-named.1)
    where
      refused :
          (full : Bytes) (next : Option ℕ)
          → remove_named fuel caller
              (λ path. rm depth fuel caller path 0 true false)
              full
              is_recursive
              (target caller text p k)
              (record { screen = run.screen; fs = record (run.fs) { buf = zeros }; next = next })
            ≡ some (shown not_specified 25 (record { screen = run.screen; fs = fs1; next = next }))
      refused full next =
          rw (e1, eq→== _ uattr_not_empty used, plain_rm)
            (complain-is_message fuel not_specified 25
              (record { screen = run.screen; fs = fs1; next = next }) refl (omega arith))
