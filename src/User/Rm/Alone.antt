-- ===== src/User/Rm/Alone.antt =====
-- rm (src/commands/rm.c) without -r: no call for what lies below.
use if2230_2023_oshiete.Common.{
  ℕ, suc, Bytes, Bool, true, false, ◌≡◌, refl, ap, fun_ext, Option, ◌>>=◌, ◌&&◌, ◌==◌,
  if◌then◌else◌,
}
use if2230_2023_oshiete.Fat32.Driver.{Request}
use if2230_2023_oshiete.User.{FoundPath, top_cluster}
use if2230_2023_oshiete.User.Filename.{Filename}
use if2230_2023_oshiete.User.Cat.{file_request}
use if2230_2023_oshiete.User.Target.{
  Run, complain, Caller, copy_path, find_path, separate, Kind, directory, file, absent, probe,
}
use if2230_2023_oshiete.User.Rm.{
  source_not_valid, source_out_of_constraints, remove_directory, remove, remove_named,
  remove_separated, remove_found, rm_at, rm,
}

module _ (fuel : ℕ) (caller : Caller) (below below' : Bytes → Run → Option Run) (full : Bytes) where
  remove-alone :
      (rq : Request) (kind : Kind) (run : Run)
      → remove fuel caller below full false rq kind run
        ≡ remove fuel caller below' full false rq kind run
  unfolding remove remove_directory
  remove-alone rq directory run = refl
  remove-alone rq file run = refl
  remove-alone rq absent run = refl

  remove_named-alone :
      (rq : Request) (run : Run)
      → remove_named fuel caller below full false rq run
        ≡ remove_named fuel caller below' full false rq run
  unfolding remove_named
  remove_named-alone rq run =
      ap (λ f. probe fuel caller rq run.fs >>= f)
        (fun_ext λ p. remove-alone rq p.kind (record run { fs = p.fs }))

  remove_separated-alone :
      (f : FoundPath) (run : Run) (r : ℕ × Filename)
      → remove_separated fuel caller below full false f run r
        ≡ remove_separated fuel caller below' full false f run r
  unfolding remove_separated
  remove_separated-alone f run (code, names) =
      ap
        (λ named.
          if code == 3
          then complain fuel source_out_of_constraints (record run { next = names.next })
          else named)
        (remove_named-alone (file_request names (top_cluster f.cwd))
          (record run { next = names.next }))

  remove_found-alone :
      (is_root : Bool) (f : FoundPath) (run : Run)
      → remove_found fuel caller below full false is_root f run
        ≡ remove_found fuel caller below' full false is_root f run
  unfolding remove_found
  remove_found-alone is_root f run =
      ap
        (λ g.
          if f.code == 3 && is_root
          then complain fuel source_not_valid run
          else separate fuel caller caller.unset f.to_find f.next >>= g)
        (fun_ext (remove_separated-alone f run))

-- Without -r, whatever the path and the medium: one call is enough. A greater depth gives the same
-- result, so that rm makes no call of itself.
pub rm-alone :
    (depth fuel : ℕ) (caller : Caller) (text : Bytes) (src : ℕ) (is_root : Bool) (run : Run)
    → rm (suc depth) fuel caller text src false is_root run
      ≡ rm 1 fuel caller text src false is_root run
unfolding rm rm_at
rm-alone depth fuel caller text src is_root run =
    ap (λ f. copy_path fuel caller text src >>= f)
      (fun_ext λ full.
        ap (λ f. copy_path fuel caller text src >>= f)
          (fun_ext λ changeable.
            ap (λ f. find_path fuel caller changeable 0 run >>= f)
              (fun_ext λ f.
                remove_found-alone fuel caller (λ path. rm depth fuel caller path 0 true false)
                  (λ path. rm 0 fuel caller path 0 true false) full is_root f
                  (record run { fs = f.fs; next = f.next }))))
