-- ===== src/User/Whereis/Kept.antt =====
-- What the search of whereis (src/commands/whereis.c) keeps of its stack of directories.
use if2230_2023_oshiete.Common.{
  ℕ, zero, suc, ◌+◌, ◌-◌, ◌*◌, ◌≤◌, ◌<◌, ◌≡◌, refl, ◌∙◌, arith, Bytes, ◌==◌, if◌then◌else◌, ltb,
  none, Option, some, ◌>>=◌, AllOf, AllOf-bind, AllOf-if, AllOf-then,
}
use if2230_2023_oshiete.Str.{strlen, strcpy}
use if2230_2023_oshiete.Str.Below.{IsSameBelow, strcpy-below}
use if2230_2023_oshiete.Fat32.Layout.{entry_at, attribute, entry_cluster, attr_subdirectory}
use if2230_2023_oshiete.Fat32.Directory.{read_directory}
use if2230_2023_oshiete.Fat32.Init.{zeros}
use if2230_2023_oshiete.User.Cat.{vga_color_white}
use if2230_2023_oshiete.User.Ls.{is_listed}
use if2230_2023_oshiete.User.{CurrentWorkingDirectory, puts}
use if2230_2023_oshiete.User.Whereis.{
  Seeking, Wanted, two_spaces, put_stack, put_extension, is_wanted, search_directory, search_file,
  search_entry, search_entries, put_found, top_request, search_util,
}

-- The height of the stack is the same, and so are the clusters and the names up to its top.
pub record Kept (cwd cwd' : CurrentWorkingDirectory) : Type 0 where
  pub height : cwd'.top ≡ cwd.top
  pub clusters : (i : ℕ) → i ≤ cwd.top → cwd'.clusters_stack i ≡ cwd.clusters_stack i
  pub names : (q : ℕ) → q < (cwd.top + 1) * 8 → cwd'.dir_names q ≡ cwd.dir_names q

same-Kept : (cwd : CurrentWorkingDirectory) → Kept cwd cwd
same-Kept cwd = record { height = refl; clusters = λ i le. refl; names = λ q lt. refl }

then-Kept : (a b c : CurrentWorkingDirectory) → Kept a b → Kept b c → Kept a c
then-Kept a b c h g = record {
  height = g.height ∙ h.height;
  clusters = λ i le. g.clusters i (omega (arith, h.height)) ∙ h.clusters i le;
  names = λ q lt. g.names q (omega (arith, h.height)) ∙ h.names q lt;
}

-- A search keeps the stack.
abbrev pub Keeps : Seeking → Seeking → Type 0
Keeps s s' = Kept s.cwd s'.cwd

kept-bind :
    (s : Seeking) (o : Option Seeking) (f : Seeking → Option Seeking)
    → AllOf (Keeps s) o
    → ((s' : Seeking) → AllOf (Keeps s') (f s'))
    → AllOf (Keeps s) (o >>= f)
kept-bind s none f h more = tt
kept-bind s (some s') f h more = after (f s') (more s')
  where
    after : (o : Option Seeking) → AllOf (Keeps s') o → AllOf (Keeps s) o
    after none g = tt
    after (some s'') g = then-Kept s.cwd s'.cwd s''.cwd h g

put_found-Keeps :
    (fuel : ℕ) (w : Wanted) (table : Bytes) (e : ℕ) (s : Seeking)
    → AllOf (Keeps s) (put_found fuel w table e s)
unfolding put_found
put_found-Keeps fuel w table e s =
    let P = Keeps s in
    AllOf-then P (put_stack fuel s.cwd (s.cwd.top + 1) 0 s.screen) _ λ screen.
      AllOf-then P (puts fuel screen w.name 0 vga_color_white) _ λ screen.
        AllOf-then P (if table (e + 8) == 0 then some screen else put_extension fuel table e screen)
          _
          λ screen.
            AllOf-then P (puts fuel screen two_spaces 0 vga_color_white) _ λ screen. same-Kept s.cwd

search_file-Keeps :
    (fuel : ℕ) (w : Wanted) (table : Bytes) (e : ℕ) (s : Seeking)
    → AllOf (Keeps s) (search_file fuel w table e s)
unfolding search_file
search_file-Keeps fuel w table e s = AllOf-then (Keeps s) (strlen fuel w.name 0) _ λ n.
    AllOf-if (Keeps s) (is_wanted w n table e) _ _ (put_found-Keeps fuel w table e s)
      (same-Kept s.cwd)

-- The stack with one directory more, whose names are the same up to the top of the first.
entered : Seeking → Bytes → ℕ → Bytes → CurrentWorkingDirectory
entered s table e names = record {
  clusters_stack =
      λ i. if i == s.cwd.top + 1 then entry_cluster table e else s.cwd.clusters_stack i;
  dir_names = names;
  top = s.cwd.top + 1;
}

-- Behind the search below, the directory leaves the stack.
left-Kept :
    (s s' : Seeking) (table : Bytes) (e : ℕ) (names : Bytes)
    → IsSameBelow ((s.cwd.top + 1) * 8) s.cwd.dir_names names
    → Kept (entered s table e names) s'.cwd
    → Kept s.cwd (record (s'.cwd) { top = s'.cwd.top - 1 })
unfolding entered
left-Kept s s' table e names same h = record {
  height = omega (arith, h.height);
  clusters = λ i le. h.clusters i (omega arith) ∙ ground arith;
  names = λ q lt. h.names q (omega arith) ∙ same q lt;
}

module _ (fuel : ℕ) (below : Seeking → Option Seeking)
    (kept : (s : Seeking) → AllOf (Keeps s) (below s)) where
  search_directory-Keeps :
      (table : Bytes) (e : ℕ) (s : Seeking)
      → AllOf (Keeps s) (search_directory fuel below table e s)
  unfolding search_directory entered
  search_directory-Keeps table e s = AllOf-then (Keeps s) (strlen fuel table e) _ λ n.
      AllOf-bind (IsSameBelow ((s.cwd.top + 1) * 8) s.cwd.dir_names) (Keeps s)
        (if ltb ((s.cwd.top + 1) * 8 + n) 4096
          then strcpy fuel s.cwd.dir_names ((s.cwd.top + 1) * 8) table e
          else none)
        _
        (AllOf-if (IsSameBelow ((s.cwd.top + 1) * 8) s.cwd.dir_names)
          (ltb ((s.cwd.top + 1) * 8 + n) 4096) _ none
          (strcpy-below fuel s.cwd.dir_names ((s.cwd.top + 1) * 8) table e) tt)
        λ names same.
          AllOf-bind (λ (s' : Seeking). Kept (entered s table e names) s'.cwd) (Keeps s)
            (below (record s { cwd = entered s table e names })) _
            (kept (record s { cwd = entered s table e names }))
            λ s' h. left-Kept s s' table e names same h

  search_entry-Keeps :
      (w : Wanted) (table : Bytes) (e : ℕ) (s : Seeking)
      → AllOf (Keeps s) (search_entry fuel below w table e s)
  unfolding search_entry
  search_entry-Keeps w table e s =
      AllOf-if (Keeps s) (is_listed table e) _ _
        (AllOf-if (Keeps s) (attribute table e == attr_subdirectory) _ _
          (search_directory-Keeps table e s) (search_file-Keeps fuel w table e s))
        (same-Kept s.cwd)

  search_entries-Keeps :
      (w : Wanted) (table : Bytes) (k i : ℕ) (s : Seeking)
      → AllOf (Keeps s) (search_entries fuel below w table k i s)
  unfolding search_entries
  search_entries-Keeps w table zero i s = same-Kept s.cwd
  search_entries-Keeps w table (suc k) i s =
      kept-bind s (search_entry fuel below w table (entry_at 0 i) s) _
        (search_entry-Keeps w table (entry_at 0 i) s) (search_entries-Keeps w table k (suc i))

-- Whatever the medium holds and however deep its directories are: where the search of a directory
-- comes to an end, the stack is as high as before, and its clusters and names up to the top are the
-- same.
pub search_util-Keeps :
    (depth fuel : ℕ) (w : Wanted) (s : Seeking) → AllOf (Keeps s) (search_util depth fuel w s)
unfolding search_util
search_util-Keeps zero fuel w s = tt
search_util-Keeps (suc depth) fuel w s = AllOf-then (Keeps s) (top_request fuel s.cwd) _ λ rq.
    AllOf-then (Keeps s) (read_directory fuel rq (record (s.fs) { buf = zeros; found = 0 })) _ λ d.
      search_entries-Keeps fuel (search_util depth fuel w) (search_util-Keeps depth fuel w) w
        d.1.buf 511 1 (record s { fs = d.1 })
