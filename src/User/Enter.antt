-- ===== src/User/Enter.antt =====
-- cd (src/commands/cd.c) with a path that is one name.
use if2230_2023_oshiete.Common.{
  ℕ, ◌+◌, ◌*◌, ◌<◌, ◌≡◌, ◌≢◌, refl, sym, ap, ◌∙◌, arith, Bytes, IsBytes, Bool, true, false, ◌==◌,
  not, if◌then◌else◌, Option, some, ◌>>=◌, every, every-at, ne→==, le→ltb, lt→ltb,
}
use if2230_2023_oshiete.Str.Laws.{IsString, strlen-IsString}
use if2230_2023_oshiete.Framebuffer.{Screen, puts_buff}
use if2230_2023_oshiete.Fat32.Driver.{Fs}
use if2230_2023_oshiete.Fat32.Directory.{read_directory}
use if2230_2023_oshiete.Fat32.Init.{zeros}
use if2230_2023_oshiete.Syscall.{bytes_at}
use if2230_2023_oshiete.User.{
  CurrentWorkingDirectory, top_cluster, push, pushed, call_read_directory, puts,
}
use if2230_2023_oshiete.User.Cd.{
  Moved, enter_last, resolve, report, cd, no_such_file, unknown_error, vga_color_red,
}
use if2230_2023_oshiete.User.Name.{
  IsName, name_of, name_request, IsRow, IsRow-IsString, memcpy-IsRow, request-IsRow, read_path-name,
}

-- The screen behind the code of the last step.
abbrev pub told : Screen → ℕ → Screen
told screen code =
    if code == 0
    then screen
    else (if code == 1
        then puts_buff screen (bytes_at no_such_file 0 29) vga_color_red
        else (if code == 3
            then puts_buff screen (bytes_at no_such_file 0 29) vga_color_red
            else puts_buff screen (bytes_at unknown_error 0 25) vga_color_red))

message-IsString :
    (m : Bytes) (n : ℕ) → m (0 + n) ≡ 0 → every (λ i. not (m i == 0)) n 0 ≡ true → IsString m 0 n
message-IsString m n ends all = record {
  ends = ends;
  no_zero = λ i lt e.
      let at : not (m i == 0) ≡ true =
        every-at (λ i. not (m i == 0)) n 0 i all (omega arith) (omega arith) in
      let first : 0 + i ≡ i = omega arith in
      let zero_at : m i ≡ 0 = ap m (sym first) ∙ e in ground arith;
}

choose :
    {A : Type 0} (b c d : Bool) (x y z w : A)
    → (if b then some x else (if c then some y else (if d then some z else some w)))
      ≡ some (if b then x else (if c then y else (if d then z else w)))
choose true c d x y z w = refl
choose false true d x y z w = refl
choose false false true x y z w = refl
choose false false false x y z w = refl

report-told :
    (fuel : ℕ) (screen : Screen) (code : ℕ)
    → 129 < fuel
    → report fuel screen code ≡ some (told screen code)
unfolding report puts
report-told fuel screen code enough =
    rw
      (
        strlen-IsString fuel no_such_file 0 29 (message-IsString no_such_file 29 refl refl)
            (omega arith),
        strlen-IsString fuel unknown_error 0 25 (message-IsString unknown_error 25 refl refl)
            (omega arith),
      )
      (choose (code == 0) (code == 1) (code == 3) screen
        (puts_buff screen (bytes_at no_such_file 0 29) vga_color_red)
        (puts_buff screen (bytes_at no_such_file 0 29) vga_color_red)
        (puts_buff screen (bytes_at unknown_error 0 25) vga_color_red))

-- What cd makes of the answer of the file system for the name.
abbrev pub entered : CurrentWorkingDirectory → Bytes → ℕ → ℕ → ℕ → Fs → Moved
entered cwd text p k code fs = record {
  code = code;
  cwd = if code == 0 then pushed cwd fs.found (name_of text p k) 0 else cwd;
  fs = fs;
}

pushed-IsRow :
    (cwd : CurrentWorkingDirectory) (c : ℕ) (row text : Bytes) (p k : ℕ)
    → IsRow 12 row text p k
    → pushed cwd c row 0 ≡ pushed cwd c (name_of text p k) 0
unfolding pushed
pushed-IsRow cwd c row text p k same =
    ap
      (λ names. record {
        clusters_stack = λ i. if i == cwd.top + 1 then c else cwd.clusters_stack i;
        dir_names = names;
        top = cwd.top + 1;
      })
      (memcpy-IsRow cwd.dir_names ((cwd.top + 1) * 8) row text p k same)

resolve-name :
    (fuel : ℕ) (cwd : CurrentWorkingDirectory) (fs : Fs) (new_dir : Bytes) (next : Option ℕ)
    (text : Bytes) (p k code : ℕ) (fs' : Fs)
    → IsBytes text
    → IsName text p k
    → IsRow 12 new_dir text p k
    → cwd.top < 511
    → read_directory fuel
        (name_request text p k (top_cluster cwd))
        (record fs { buf = zeros; found = 0 })
      ≡ some (code, fs')
    → resolve fuel
        (record {
          code = 0;
          cwd = cwd;
          fs = record fs { buf = zeros };
          to_find = new_dir;
          next = next;
        })
        k
      ≡ some (entered cwd text p k code fs')
unfolding resolve call_read_directory enter_last push
resolve-name fuel cwd fs new_dir next text p k code fs' bytes name row room e =
    let not_empty : new_dir 0 ≢ 0 = λ z.
      (name.token 0 name.low).0 (sym (row 0 (omega arith) ∙ rw (lt→ltb 0 k name.low) refl) ∙ z) in
    rw
      (
        le→ltb 8 k name.high,
        ne→== (new_dir 0) 0 not_empty,
        request-IsRow new_dir text p k (top_cluster cwd) bytes name.high row,
        e,
        lt→ltb cwd.top 511 room,
        pushed-IsRow cwd fs'.found new_dir text p k row,
      )
      (moved (code == 0))
  where
    moved :
        (b : Bool)
        → ◌>>=◌ {B = Moved}
            (if b then some (pushed cwd fs'.found (name_of text p k) 0) else some cwd)
            (λ c. some (record { code = code; cwd = c; fs = fs' }))
          ≡ some (record {
            code = code;
            cwd = if b then pushed cwd fs'.found (name_of text p k) 0 else cwd;
            fs = fs';
          })
    moved true = refl
    moved false = refl

pub cd-name :
    (fuel : ℕ) (cwd : CurrentWorkingDirectory) (text : Bytes) (p : ℕ) (unset : Bytes)
    (next : Option ℕ) (fs : Fs) (screen : Screen) (k code : ℕ) (fs' : Fs)
    → IsBytes text
    → IsName text p k
    → 129 < fuel
    → cwd.top < 511
    → read_directory fuel
        (name_request text p k (top_cluster cwd))
        (record fs { buf = zeros; found = 0 })
      ≡ some (code, fs')
    → cd fuel cwd text p unset next fs screen
      ≡ some (entered cwd text p k code fs', told screen code)
unfolding cd
cd-name fuel cwd text p unset next fs screen k code fs' bytes name enough room e =
    let (new_dir, next', answer, row, _) =
      read_path-name fuel text p cwd unset next fs k bytes name enough in
    let long =
      strlen-IsString fuel new_dir 0 k (IsRow-IsString 12 new_dir text p k row (omega arith) name)
        (omega (arith, name.high)) in
    rw
      (
        answer,
        long,
        resolve-name fuel cwd fs new_dir next' text p k code fs' bytes name row room e,
        report-told fuel screen code enough,
      )
      refl
