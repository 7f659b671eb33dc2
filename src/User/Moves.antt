-- ===== src/User/Moves.antt =====
-- Where cd (src/commands/cd.c) can take the stack of directories.
use if2230_2023_oshiete.Common.{
  ℕ, zero, suc, ◌+◌, ◌-◌, ◌*◌, ◌≤◌, ◌≡◌, refl, arith, Bytes, ◌&&◌, ◌||◌, ◌==◌, ltb, not,
  if◌then◌else◌, AllOf, AllOf-bind, AllOf-if, AllOf-then, AllOf-some, Bool-cases, inl, inr, clear,
  Option, none, some, for_loop,
}
use if2230_2023_oshiete.Str.{strlen}
use if2230_2023_oshiete.Str.Token.{strtok}
use if2230_2023_oshiete.Str.Parse.{
  table_size, Parse, parse_token, parse_round, parse_loop, strparse, row_length,
}
use if2230_2023_oshiete.Framebuffer.{Screen}
use if2230_2023_oshiete.Fat32.Driver.{Fs, Result}
use if2230_2023_oshiete.Fat32.Init.{zeros}
use if2230_2023_oshiete.User.{
  CurrentWorkingDirectory, Walk, FoundPath, top_cluster, push, slash, path_not_found, walk_part,
  after_walk, walk_parts, read_path, call_read_directory, directory_request,
}
use if2230_2023_oshiete.User.Cd.{Moved, enter_last, resolve, report, cd}
use if2230_2023_oshiete.User.Reach.{
  Reaches, stay, push-Reaches, for_loop-Reaches, after_walk-Reaches, path-weaken,
}

-- strparse counts to 128 at most.
parse_round-count :
    (n fuel : ℕ) (delim : Bytes) (rest : Parse → Option Parse) (s : Parse) (token : Option ℕ)
    → s.count ≤ n
    → ((t : Parse) → t.count ≡ s.count + 1 → AllOf (λ d. d.count ≤ n) (rest t))
    → AllOf (λ d. d.count ≤ n) (parse_round fuel delim rest s token)
unfolding parse_round parse_token
parse_round-count n fuel delim rest s none le more = le
parse_round-count n fuel delim rest s (some t) le more =
    AllOf-bind (λ (d : Parse). d.count ≡ s.count + 1) (λ d. d.count ≤ n)
      (parse_token fuel delim s t) rest
      (AllOf-then (λ (d : Parse). d.count ≡ s.count + 1) (strlen fuel s.text t) _
        λ k.
          AllOf-then (λ (d : Parse). d.count ≡ s.count + 1) (strtok fuel s.text none delim s.next) _
            λ c.
              AllOf-if (λ (t : Parse). t.count ≡ s.count + 1)
                (ltb 11 s.count || ltb table_size (s.count * row_length + k)) none _ tt refl)
      more

parse_loop-count :
    (k n fuel : ℕ) (delim : Bytes) (s : Parse)
    → s.count + k ≤ n
    → AllOf (λ d. d.count ≤ n) (parse_loop k fuel delim s)
unfolding parse_loop
parse_loop-count zero n fuel delim s le = omega arith
parse_loop-count (suc k) n fuel delim s le =
    parse_round-count n fuel delim (parse_loop k fuel delim) s s.token (omega arith)
      λ t e. parse_loop-count k n fuel delim t (omega (arith, e))

strparse-count :
    (fuel : ℕ) (text : Bytes) (str : ℕ) (command delim : Bytes) (next : Option ℕ)
    → AllOf (λ d. d.count ≤ 128) (strparse fuel text str command delim next)
unfolding strparse
strparse-count fuel text str command delim next =
    AllOf-then (λ (d : Parse). d.count ≤ 128) (strtok fuel text (some str) delim next) _
      λ c.
        parse_loop-count 128 128 fuel delim
          (record {
            token = c.0;
            text = c.1.0;
            next = c.1.1;
            command = clear command 0 1536;
            count = 0;
          })
          (omega arith)

read_path-Reaches :
    (fuel : ℕ) (text : Bytes) (str : ℕ) (cwd : CurrentWorkingDirectory) (to_find unset : Bytes)
    (next : Option ℕ) (fs : Fs)
    → AllOf (λ f. Reaches 127 cwd f.cwd) (read_path fuel text str cwd to_find unset next fs)
unfolding read_path walk_parts
read_path-Reaches fuel text str cwd to_find unset next fs =
    AllOf-bind (λ (d : Parse). d.count ≤ 128) (λ (f : FoundPath). Reaches 127 cwd f.cwd)
      (strparse fuel text str unset slash next) _ (strparse-count fuel text str unset slash next)
      λ dirs few.
        let start : Walk = record {
          cwd = cwd;
          cluster = top_cluster cwd;
          fs = record fs { buf = zeros };
        } in
        let same : Reaches 127 cwd cwd = record {
          bottom = refl;
          height = omega arith;
          inside = λ le. le;
        } in
        let walked = for_loop (walk_part fuel dirs.command) (dirs.count - 1) 0 start in
        let walks =
          path-weaken cwd (0 + (dirs.count - 1)) 127
            (after_walk fuel dirs.command ((dirs.count - 1) * row_length) to_find dirs.next walked)
            (omega arith)
            (after_walk-Reaches cwd (0 + (dirs.count - 1)) fuel dirs.command
              ((dirs.count - 1) * row_length) to_find dirs.next walked
              (for_loop-Reaches cwd fuel dirs.command (dirs.count - 1) 0 0 start
                (record { bottom = refl; height = omega arith; inside = λ le. le }))) in
        elim (Bool-cases (dirs.count == 0)) [ inl e ↦ rw e same | inr e ↦ rw e walks ]

enter_last-Reaches :
    (cwd : CurrentWorkingDirectory) (f : FoundPath) (r : Result)
    → Reaches 127 cwd f.cwd
    → AllOf (λ m. Reaches 128 cwd m.cwd) (enter_last f r)
unfolding enter_last
enter_last-Reaches cwd f (code, fs) h =
    AllOf-bind (Reaches 128 cwd) (λ (m : Moved). Reaches 128 cwd m.cwd)
      (if code == 0 then push f.cwd fs.found f.to_find 0 else some f.cwd) _
      (AllOf-if (Reaches 128 cwd) (code == 0) _ _
        (push-Reaches cwd 127 f.cwd fs.found f.to_find 0 h) (stay cwd 127 f.cwd h))
      λ c reached. reached

resolve-Reaches :
    (fuel : ℕ) (cwd : CurrentWorkingDirectory) (f : FoundPath) (n : ℕ)
    → Reaches 127 cwd f.cwd
    → AllOf (λ m. Reaches 128 cwd m.cwd) (resolve fuel f n)
unfolding resolve
resolve-Reaches fuel cwd f n h =
    let entered =
      AllOf-then (λ (m : Moved). Reaches 128 cwd m.cwd)
        (call_read_directory fuel (directory_request f.to_find 0 (top_cluster f.cwd))
          (record f.fs { buf = zeros }))
        (enter_last f) λ r. enter_last-Reaches cwd f r h in
    elim (Bool-cases
      ((if ltb 8 n then path_not_found else f.code) == 0 && not (f.to_find 0 == 0))) [
        | inl e ↦ rw e entered
        | inr e ↦ rw e (stay cwd 127 f.cwd h)
      ]

-- Whatever the path, the file system and the answers of the kernel are: where cd comes to an end, the
-- bottom of the stack is the same, and the stack has at most 128 more directories.
pub cd-Reaches :
    (fuel : ℕ) (cwd : CurrentWorkingDirectory) (text : Bytes) (path : ℕ) (unset : Bytes)
    (next : Option ℕ) (fs : Fs) (screen : Screen) (moved : Moved) (shown : Screen)
    → cd fuel cwd text path unset next fs screen ≡ some (moved, shown)
    → Reaches 128 cwd moved.cwd
unfolding cd
cd-Reaches fuel cwd text path unset next fs screen moved shown e =
    AllOf-some (λ (r : Moved × Screen). Reaches 128 cwd r.0.cwd)
      (cd fuel cwd text path unset next fs screen) (moved, shown) e
      (AllOf-bind (λ (f : FoundPath). Reaches 127 cwd f.cwd)
        (λ (r : Moved × Screen). Reaches 128 cwd r.0.cwd)
        (read_path fuel text path cwd (clear unset 0 12) unset next fs) _
        (read_path-Reaches fuel text path cwd (clear unset 0 12) unset next fs)
        λ f h.
          AllOf-then (λ (r : Moved × Screen). Reaches 128 cwd r.0.cwd) (strlen fuel f.to_find 0) _
            λ n.
              AllOf-bind (λ (m : Moved). Reaches 128 cwd m.cwd)
                (λ (r : Moved × Screen). Reaches 128 cwd r.0.cwd) (resolve fuel f n) _
                (resolve-Reaches fuel cwd f n h)
                λ m reached.
                  AllOf-then (λ (r : Moved × Screen). Reaches 128 cwd r.0.cwd)
                    (report fuel screen m.code) _ λ s. reached)
