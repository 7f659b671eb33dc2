-- ===== src/User/Whereis/Tests.antt =====
-- whereis (src/commands/whereis.c) at a concrete state.
use if2230_2023_oshiete.Common.{AllOf, ◌==◌, if◌then◌else◌}
use if2230_2023_oshiete.Fat32.Init.{zeros}
use if2230_2023_oshiete.User.Sample.{at_root, start, words}
use if2230_2023_oshiete.User.Whereis.{Wanted, Seeking, search_util}
use if2230_2023_oshiete.User.Whereis.Kept.{Keeps, search_util-Keeps}

abbrev wanted : Wanted
wanted = record { name = words; ext = zeros }

-- The directory "d" of the root is on the stack.
abbrev seeking : Seeking
seeking = record {
  cwd = record at_root { top = 1; dir_names = λ q. if q == 8 then b'd' else 0 };
  fs = start.fs;
  screen = start.screen;
}

search_util-Keeps_example : AllOf (Keeps seeking) (search_util 2 130 wanted seeking)
search_util-Keeps_example = search_util-Keeps 2 130 wanted seeking
