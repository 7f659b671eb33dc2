-- ===== src/User/Plain.antt =====
-- A path that is one name without an extension, in the commands of src/commands/.
pub mod Copies
use if2230_2023_oshiete.Common.{
  ℕ, zero, suc, ◌+◌, ◌-◌, ◌*◌, ◌%◌, ◌≤◌, ◌<◌, ◌≡◌, ◌≢◌, refl, sym, ap, ◌∙◌, arith, fun_ext, Bytes,
  IsBytes, clear, copy, put8, ◌&&◌, ◌||◌, ◌==◌, ltb, leb, if◌then◌else◌, [], ◌∷◌, Bool-cases, inl,
  inr, Option, none, some, ◌>>=◌, AllOf, AllOf-bind, AllOf-then, AllOf-some, le→ltb, lt→ltb,
}
use native.Mathlib.Decide.{dec_lt}
use if2230_2023_oshiete.Mem.{memcpy}
use if2230_2023_oshiete.Mem.Laws.{memcpy_lem}
use if2230_2023_oshiete.Str.{strlen}
use if2230_2023_oshiete.Str.Laws.{IsString, strcpy-copy}
use if2230_2023_oshiete.Str.Token.{IsToken, strtok, find_delimiter, cut}
use if2230_2023_oshiete.Fat32.Layout.{cluster_size}
use if2230_2023_oshiete.Fat32.Driver.{Fs, Request}
use if2230_2023_oshiete.Fat32.Init.{zeros}
use if2230_2023_oshiete.Syscall.{put_view}
use if2230_2023_oshiete.User.{FoundPath, top_cluster, read_path}
use if2230_2023_oshiete.User.Name.{IsName, name_of, IsRow, read_path-name}
use if2230_2023_oshiete.User.Filename.{
  Filename, dot, address, without_ext, check_names, fill_names, separate_filename,
}
use if2230_2023_oshiete.User.Filename.Pieces.{separate_filename-null}
use if2230_2023_oshiete.User.Cat.{file_request}
use if2230_2023_oshiete.User.Cat.Shown.{
  plain_request, local-IsPath, put_view-IsBytes, file_request-name,
}
use if2230_2023_oshiete.User.Target.{Run, Caller, copy_path, find_path, separate}

-- A name of 1 to 8 bytes, without a slash and without a dot.
pub record IsPlain (text : Bytes) (p k : ℕ) : Type 0 where
  pub name : IsName text p k
  pub no_dot : (i : ℕ) → i < k → text (p + i) ≢ b'.'

-- The request for the name, in the directory on top of the stack.
abbrev pub target : Caller → Bytes → ℕ → ℕ → Request
target caller text p k = plain_request text p k (top_cluster caller.cwd)

-- The path leads nowhere else, and its name is what there is to find.
pub record FindsPlain (fuel : ℕ) (caller : Caller) (text : Bytes) (p k : ℕ) (run : Run)
    : Type 0 where
  pub to_find : Bytes
  pub next : Option ℕ
  pub answer :
      find_path fuel caller text p run
      ≡ some (record {
        code = 0;
        cwd = caller.cwd;
        fs = record (run.fs) { buf = zeros };
        to_find = to_find;
        next = next;
      })
  pub row : IsRow 12 to_find text p k
  pub bytes : IsBytes to_find

pub find_path-plain :
    (fuel : ℕ) (caller : Caller) (text : Bytes) (p k : ℕ) (run : Run)
    → IsBytes text
    → IsBytes caller.unset
    → IsPlain text p k
    → 129 < fuel
    → FindsPlain fuel caller text p k run
unfolding find_path
find_path-plain fuel caller text p k run bytes other plain enough =
    let (to_find, next, answer, row, new_bytes) =
      read_path-name fuel text p caller.cwd caller.unset run.next run.fs k bytes plain.name
        enough in
    record { to_find = to_find; next = next; answer = answer; row = row; bytes = new_bytes other }

-- The memory stays one of bytes.
cut-IsBytes : (m : Bytes) (t : ℕ) (p : Option ℕ) → IsBytes m → IsBytes (cut m t p).1.0
unfolding cut put8
cut-IsBytes m t none bytes = bytes
cut-IsBytes m t (some p) bytes = λ q. ground (arith, bytes q)

strtok-IsBytes :
    (fuel : ℕ) (m : Bytes) (str : Option ℕ) (delim : Bytes) (next : Option ℕ)
    → IsBytes m
    → AllOf (λ t. IsBytes t.1.0) (strtok fuel m str delim next)
unfolding strtok
strtok-IsBytes fuel m (some str) delim next bytes =
    AllOf-then (λ t. IsBytes t.1.0) (find_delimiter fuel m delim str) _
      λ p. cut-IsBytes m str p bytes
strtok-IsBytes fuel m none delim none bytes = bytes
strtok-IsBytes fuel m none delim (some t) bytes =
    AllOf-then (λ t. IsBytes t.1.0) (find_delimiter fuel m delim t) _ λ p. cut-IsBytes m t p bytes

without_ext-IsBytes : (m : Bytes) (e : Option ℕ) → IsBytes m → IsBytes (without_ext m e)
unfolding without_ext
without_ext-IsBytes m none bytes = λ q. rw (memcpy_lem m 0 zeros 0 3 q) (ground (arith, bytes q))
without_ext-IsBytes m (some p) bytes = bytes

check_names-IsBytes :
    (fuel : ℕ) (f : Filename) (n e : ℕ)
    → IsBytes f.memory
    → AllOf (λ r. IsBytes r.1.memory) (check_names fuel f n e)
unfolding check_names fill_names
check_names-IsBytes fuel f n e bytes =
    AllOf-then (λ r. IsBytes r.1.memory) (strlen fuel f.memory n) _
      λ a.
        AllOf-then (λ r. IsBytes r.1.memory) (strlen fuel f.memory e) _
          λ b. elim (Bool-cases (ltb 8 a || ltb 3 b)) [
            | inl long ↦ rw long bytes
            | inr fits ↦ rw fits bytes
          ]

separate_filename-IsBytes :
    (fuel p : ℕ) (f : Filename)
    → IsBytes f.memory
    → AllOf (λ r. IsBytes r.1.memory) (separate_filename fuel p f)
unfolding separate_filename
separate_filename-IsBytes fuel p f bytes =
    AllOf-bind (λ t. IsBytes t.1.0) (λ r. IsBytes r.1.memory)
      (strtok fuel f.memory (some p) dot f.next) _
      (strtok-IsBytes fuel f.memory (some p) dot f.next bytes)
      λ first h.
        AllOf-bind (λ t. IsBytes t.1.0) (λ r. IsBytes r.1.memory)
          (strtok fuel first.1.0 none dot first.1.1) _
          (strtok-IsBytes fuel first.1.0 none dot first.1.1 h)
          λ second g.
            check_names-IsBytes fuel
              (record f { memory = without_ext second.1.0 second.0; next = second.1.1 })
              (address first.0) (address second.0) (without_ext-IsBytes second.1.0 second.0 g)

-- The name makes a request without an extension.
pub record SplitsPlain (fuel : ℕ) (caller : Caller) (m to_find : Bytes) (next : Option ℕ)
    (text : Bytes) (p k : ℕ) : Type 0 where
  pub names : Filename
  pub answer : separate fuel caller m to_find next ≡ some (0, names)
  pub request : (c : ℕ) → file_request names c ≡ plain_request text p k c
  pub bytes : IsBytes names.memory

pub separate-plain :
    (fuel : ℕ) (caller : Caller) (m to_find : Bytes) (next : Option ℕ) (text : Bytes) (p k : ℕ)
    → IsBytes text
    → IsBytes m
    → IsBytes to_find
    → IsPlain text p k
    → IsRow 12 to_find text p k
    → 129 < fuel
    → 3 ≤ caller.local
    → SplitsPlain fuel caller m to_find next text p k
unfolding separate
separate-plain fuel caller m to_find next text p k bytes other found plain row enough high =
    let names : Filename = record {
      memory = put_view m caller.local to_find;
      name = zeros;
      ext = zeros;
      next = next;
    } in
    let memory = put_view-IsBytes m to_find caller.local other found in
    let (s, _) =
      separate_filename-null fuel caller.local k names memory
        (local-IsPath m to_find text p k caller.local row plain.name plain.no_dot) enough high in
    let answer : separate_filename fuel caller.local names ≡ some (0, s.result) =
      s.answer ∙ rw (le→ltb 8 k plain.name.high) refl in
    record {
      names = s.result;
      answer = answer;
      request = λ c.
          file_request-name s.result m to_find text p k caller.local c bytes plain.name.high row
            (s.name plain.name.high (omega arith)) (s.ext plain.name.high (omega arith));
      bytes =
          AllOf-some (λ (r : ℕ × Filename). IsBytes r.1.memory)
            (separate_filename fuel caller.local names) (0, s.result) answer
            (separate_filename-IsBytes fuel caller.local names memory);
    }
