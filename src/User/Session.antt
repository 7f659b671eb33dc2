-- ===== src/User/Session.antt =====
-- The stack of directories in a session of the shell (src/user-shell.c).
use if2230_2023_oshiete.Common.{
  ℕ, suc, ◌≡◌, refl, arith, Bytes, Bool, leb, true, false, AllOf, AllOf-bind, AllOf-if, AllOf-then,
  Option, none, some,
}
use if2230_2023_oshiete.Str.{strcmp}
use if2230_2023_oshiete.Framebuffer.{Screen}
use if2230_2023_oshiete.Fat32.Driver.{Fs}
use if2230_2023_oshiete.User.{CurrentWorkingDirectory}
use if2230_2023_oshiete.User.Cat.{cat}
use if2230_2023_oshiete.User.Cd.{Moved, cd}
use if2230_2023_oshiete.User.Ls.{ls}
use if2230_2023_oshiete.User.Mkdir.{mkdir}
use if2230_2023_oshiete.User.Mv.{mv}
use if2230_2023_oshiete.User.Cp.{cp}
use if2230_2023_oshiete.User.Rm.{rm}
use if2230_2023_oshiete.User.Touch.{touch}
use if2230_2023_oshiete.User.Whereis.{whereis}
use if2230_2023_oshiete.User.Target.{complain}
use if2230_2023_oshiete.User.Reach.{Reaches}
use if2230_2023_oshiete.User.Moves.{cd-Reaches}
use if2230_2023_oshiete.User.Commands.{
  Shell, Frame, caller_of, run_of, unknown_command, word_r, word_cat, word_cd, word_ls, word_mkdir,
  word_mv, word_whereis, word_touch, word_rm, word_cp, word, on_word, with_run, with_shown,
  with_moved, run_cat, run_cd, run_ls, run_mkdir, run_mv, run_whereis, run_touch, run_rm, run_cp,
  refuse_command, execute_cp, execute_rm, execute_touch, execute_whereis, execute_mv, execute_mkdir,
  execute,
}

-- The stack of the second shell is within reach of that of the first.
abbrev pub Steps : ℕ → Shell → Shell → Type 0
Steps n sh sh' = Reaches n sh.cwd sh'.cwd

pub same-Steps : (sh sh' : Shell) → sh'.cwd ≡ sh.cwd → Steps 128 sh sh'
same-Steps sh sh' e = record {
  bottom = rw e refl;
  height = rw e (omega arith);
  inside = λ le. rw e le;
}

on_word-AllOf :
    (P : Shell → Type 0) (fuel : ℕ) (command : Bytes) (i : ℕ) (name : Bytes)
    (taken other : Option Shell)
    → AllOf P taken
    → AllOf P other
    → AllOf P (on_word fuel command i name taken other)
unfolding on_word
on_word-AllOf P fuel command i name taken other ht ho =
    AllOf-then P (strcmp fuel command (word i) name 0) _ λ same. AllOf-if P same taken other ht ho

cd-AllOf :
    (fuel : ℕ) (cwd : CurrentWorkingDirectory) (text : Bytes) (path : ℕ) (unset : Bytes)
    (next : Option ℕ) (fs : Fs) (screen : Screen)
    → AllOf
        (λ (r : Moved × Screen). Reaches 128 cwd r.0.cwd)
        (cd fuel cwd text path unset next fs screen)
cd-AllOf fuel cwd text path unset next fs screen =
    all (cd fuel cwd text path unset next fs screen)
      λ moved shown e. cd-Reaches fuel cwd text path unset next fs screen moved shown e
  where
    all :
        (o : Option (Moved × Screen))
        → ((moved : Moved) (shown : Screen) → o ≡ some (moved, shown) → Reaches 128 cwd moved.cwd)
        → AllOf (λ (r : Moved × Screen). Reaches 128 cwd r.0.cwd) o
    all none h = tt
    all (some (moved, shown)) h = h moved shown refl

module _ (depth fuel : ℕ) (frame : Frame) (command : Bytes) (args : ℕ) (sh : Shell) where
  refuse_command-Steps : AllOf (Steps 128 sh) (refuse_command fuel sh)
  unfolding refuse_command with_run
  refuse_command-Steps =
      AllOf-then (Steps 128 sh) (complain fuel unknown_command (run_of sh)) _
        λ run. same-Steps sh (with_run sh run) refl

  run_cat-Steps : AllOf (Steps 128 sh) (run_cat fuel frame command sh)
  unfolding run_cat with_shown
  run_cat-Steps =
      AllOf-then (Steps 128 sh)
        (cat fuel sh.cwd command (word 1) frame.local frame.unset sh.next sh.sys.fs sh.sys.screen) _
        λ r. same-Steps sh (with_shown sh r) refl

  run_ls-Steps : AllOf (Steps 128 sh) (run_ls fuel frame command sh)
  unfolding run_ls with_shown
  run_ls-Steps =
      AllOf-then (Steps 128 sh)
        (ls fuel sh.cwd command (word 1) frame.unset sh.next sh.sys.fs sh.sys.screen) _
        λ r. same-Steps sh (with_shown sh r) refl

  run_mkdir-Steps : AllOf (Steps 128 sh) (run_mkdir fuel frame command sh)
  unfolding run_mkdir with_shown
  run_mkdir-Steps =
      AllOf-then (Steps 128 sh) (mkdir fuel sh.cwd command (word 1) frame.unset sh.next sh.sys.fs) _
        λ fs. same-Steps sh (with_shown sh (sh.sys.screen, fs)) refl

  run_mv-Steps : AllOf (Steps 128 sh) (run_mv fuel frame command sh)
  unfolding run_mv with_run
  run_mv-Steps =
      AllOf-then (Steps 128 sh) (mv fuel (caller_of frame sh) command (word 1) (word 2) (run_of sh))
        _ λ run. same-Steps sh (with_run sh run) refl

  run_whereis-Steps : AllOf (Steps 128 sh) (run_whereis depth fuel frame command sh)
  unfolding run_whereis with_shown
  run_whereis-Steps =
      AllOf-then (Steps 128 sh)
        (whereis depth fuel command (word 1) frame.unset sh.next sh.sys.fs sh.sys.screen) _
        λ s. same-Steps sh (with_shown sh (s.screen, s.fs)) refl

  run_touch-Steps : AllOf (Steps 128 sh) (run_touch fuel frame command sh)
  unfolding run_touch with_run
  run_touch-Steps =
      AllOf-then (Steps 128 sh) (touch fuel (caller_of frame sh) command (run_of sh)) _
        λ run. same-Steps sh (with_run sh run) refl

  run_rm-Steps :
      (i : ℕ) (is_recursive : Bool)
      → AllOf (Steps 128 sh) (run_rm depth fuel frame command i is_recursive sh)
  unfolding run_rm with_run
  run_rm-Steps i is_recursive =
      AllOf-then (Steps 128 sh)
        (rm depth fuel (caller_of frame sh) command (word i) is_recursive true (run_of sh)) _
        λ run. same-Steps sh (with_run sh run) refl

  run_cp-Steps :
      (i : ℕ) (is_recursive : Bool)
      → AllOf (Steps 128 sh) (run_cp depth fuel frame command i is_recursive sh)
  unfolding run_cp with_run
  run_cp-Steps i is_recursive =
      AllOf-then (Steps 128 sh)
        (cp depth fuel (caller_of frame sh) command (word i) command (word (suc i)) is_recursive
          true (run_of sh))
        _ λ run. same-Steps sh (with_run sh run) refl

  run_cd-Steps : AllOf (Steps 128 sh) (run_cd fuel frame command sh)
  unfolding run_cd with_moved
  run_cd-Steps =
      AllOf-bind (λ (r : Moved × Screen). Reaches 128 sh.cwd r.0.cwd) (Steps 128 sh)
        (cd fuel sh.cwd command (word 1) frame.unset sh.next sh.sys.fs sh.sys.screen) _
        (cd-AllOf fuel sh.cwd command (word 1) frame.unset sh.next sh.sys.fs sh.sys.screen)
        λ r h. record { bottom = h.bottom; height = h.height; inside = h.inside }

  execute_cp-Steps : AllOf (Steps 128 sh) (execute_cp depth fuel frame command args sh)
  unfolding execute_cp
  execute_cp-Steps =
      on_word-AllOf (Steps 128 sh) fuel command 0 word_cp _ _
        (AllOf-if (Steps 128 sh) (leb 3 args) _ _
          (on_word-AllOf (Steps 128 sh) fuel command 1 word_r _ _ (run_cp-Steps 2 true)
            (run_cp-Steps 1 false))
          refuse_command-Steps)
        refuse_command-Steps

  execute_rm-Steps : AllOf (Steps 128 sh) (execute_rm depth fuel frame command args sh)
  unfolding execute_rm
  execute_rm-Steps =
      on_word-AllOf (Steps 128 sh) fuel command 0 word_rm _ _
        (AllOf-if (Steps 128 sh) (leb 2 args) _ _
          (on_word-AllOf (Steps 128 sh) fuel command 1 word_r _ _ (run_rm-Steps 2 true)
            (run_rm-Steps 1 false))
          execute_cp-Steps)
        execute_cp-Steps

  execute_touch-Steps : AllOf (Steps 128 sh) (execute_touch depth fuel frame command args sh)
  unfolding execute_touch
  execute_touch-Steps =
      on_word-AllOf (Steps 128 sh) fuel command 0 word_touch _ _
        (AllOf-if (Steps 128 sh) (leb 2 args) _ _ run_touch-Steps (same-Steps sh sh refl))
        execute_rm-Steps

  execute_whereis-Steps : AllOf (Steps 128 sh) (execute_whereis depth fuel frame command args sh)
  unfolding execute_whereis
  execute_whereis-Steps =
      on_word-AllOf (Steps 128 sh) fuel command 0 word_whereis _ _
        (AllOf-if (Steps 128 sh) (leb 2 args) _ _ run_whereis-Steps (same-Steps sh sh refl))
        execute_touch-Steps

  execute_mv-Steps : AllOf (Steps 128 sh) (execute_mv depth fuel frame command args sh)
  unfolding execute_mv
  execute_mv-Steps =
      on_word-AllOf (Steps 128 sh) fuel command 0 word_mv _ _
        (AllOf-if (Steps 128 sh) (leb 3 args) _ _ run_mv-Steps execute_whereis-Steps)
        execute_whereis-Steps

  execute_mkdir-Steps : AllOf (Steps 128 sh) (execute_mkdir depth fuel frame command args sh)
  unfolding execute_mkdir
  execute_mkdir-Steps =
      on_word-AllOf (Steps 128 sh) fuel command 0 word_mkdir _ _
        (AllOf-if (Steps 128 sh) (leb 2 args) _ _ run_mkdir-Steps (same-Steps sh sh refl))
        execute_mv-Steps

  pub execute-Steps : AllOf (Steps 128 sh) (execute depth fuel frame command args sh)
  unfolding execute
  execute-Steps = on_word-AllOf (Steps 128 sh) fuel command 0 word_cat _ _ run_cat-Steps (
      on_word-AllOf (Steps 128 sh) fuel command 0 word_cd _ _ run_cd-Steps
        (on_word-AllOf (Steps 128 sh) fuel command 0 word_ls _ _ run_ls-Steps execute_mkdir-Steps))
