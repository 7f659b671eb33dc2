-- ===== src/User/Rounds.antt =====
-- The rounds of the shell's loop (src/user-shell.c), and what they keep.
use if2230_2023_oshiete.Common.{ℕ, suc, ◌*◌, ◌≤◌, ◌≡◌, List, [], ◌∷◌}
use if2230_2023_oshiete.Fat32.Layout.{root_cluster_number}
use if2230_2023_oshiete.Syscall.{Keys}
use if2230_2023_oshiete.User.Commands.{Shell}

-- The number of lines.
abbrev pub lines : List Keys → ℕ
lines [] = 0
lines (keys ∷ rest) = suc (lines rest)

abbrev Rooted : ℕ → Shell → Type 0
Rooted n sh =
    (sh.cwd.clusters_stack 0 ≡ root_cluster_number) × (sh.cwd.top ≤ 128 * n) × (sh.cwd.top ≤ 511)
