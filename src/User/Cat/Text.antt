-- ===== src/User/Cat/Text.antt =====
-- What cat (src/commands/cat.c) puts on the screen.
use if2230_2023_oshiete.Common.{
  ℕ, zero, suc, ◌+◌, ◌-◌, ◌*◌, ◌≤◌, ◌<◌, ◌≡◌, ◌≢◌, refl, ap, ◌∙◌, arith, Bytes, ◌%◌, List, [], ◌∷◌,
  ◌++◌, ◌==◌, if◌then◌else◌, some, ne→==, eq→==,
}
use native.Mathlib.Decide.{ℕ_discrete}
use if2230_2023_oshiete.Mem.{memcpy}
use if2230_2023_oshiete.Mem.Laws.{memcpy_lem}
use if2230_2023_oshiete.Str.Laws.{IsString, strlen-IsString}
use if2230_2023_oshiete.Framebuffer.{Screen, put_char, puts_buff}
use if2230_2023_oshiete.Fat32.Layout.{cluster_size}
use if2230_2023_oshiete.Fat32.Driver.{Fs}
use if2230_2023_oshiete.Fat32.Init.{bytes_of}
use if2230_2023_oshiete.Syscall.{bytes_at}
use if2230_2023_oshiete.User.{puts}
use if2230_2023_oshiete.User.Cat.{
  vga_color_white, put_byte, show_cluster, show_clusters, show_answer,
}

-- The bytes from p on, up to a zero or to k bytes.
abbrev pub text_at : Bytes → ℕ → ℕ → List ℕ
text_at m p zero = []
text_at m p (suc k) = let rest = text_at m (suc p) k in if m p == 0 then [] else m p ∷ rest

-- The texts at the start of k clusters, from cluster i on.
abbrev pub texts : Bytes → ℕ → ℕ → List ℕ
texts m zero i = []
texts m (suc k) i = text_at m (i * cluster_size) cluster_size ++ texts m k (suc i)

puts_buff-append :
    (s : Screen) (xs ys : List ℕ) (fg : ℕ)
    → puts_buff s (xs ++ ys) fg ≡ puts_buff (puts_buff s xs fg) ys fg
unfolding puts_buff
puts_buff-append s [] ys fg = refl
puts_buff-append s (x ∷ xs) ys fg = puts_buff-append (put_char s fg x) xs ys fg

letter-IsString : (c : ℕ) → c ≢ 0 → IsString (bytes_of (c ∷ [])) 0 1
letter-IsString c ne = record { ends = refl; no_zero = no_zero }
  where
    no_zero : (i : ℕ) → i < 1 → bytes_of (c ∷ []) (0 + i) ≢ 0
    no_zero zero lt = ne
    no_zero (suc i) lt = absurd (omega arith)

put_byte_lem :
    (fuel : ℕ) (screen : Screen) (c : ℕ)
    → c ≢ 0
    → 1 < fuel
    → put_byte fuel screen c ≡ some (puts_buff screen (c ∷ []) vga_color_white)
unfolding put_byte puts bytes_at
put_byte_lem fuel screen c ne enough =
    rw (strlen-IsString fuel (bytes_of (c ∷ [])) 0 1 (letter-IsString c ne) enough) refl

show_cluster_lem :
    (fuel : ℕ) (m : Bytes) (p k : ℕ) (screen : Screen)
    → 1 < fuel
    → show_cluster fuel m p k screen ≡ some (puts_buff screen (text_at m p k) vga_color_white)
unfolding show_cluster puts_buff
show_cluster_lem fuel m p zero screen enough = refl
show_cluster_lem fuel m p (suc k) screen enough = elim (ℕ_discrete (m p) 0) [
  | yes e ↦ rw (eq→== (m p) 0 e) refl
  | no ne ↦
      rw (ne→== (m p) 0 ne, put_byte_lem fuel screen (m p) ne enough)
        (show_cluster_lem fuel m (suc p) k (puts_buff screen (m p ∷ []) vga_color_white) enough)
]

show_clusters-texts :
    (fuel : ℕ) (m : Bytes) (k i : ℕ) (screen : Screen)
    → 1 < fuel
    → show_clusters fuel m k i screen ≡ some (puts_buff screen (texts m k i) vga_color_white)
unfolding show_clusters puts_buff
show_clusters-texts fuel m zero i screen enough = refl
show_clusters-texts fuel m (suc k) i screen enough =
    rw
      (
        show_cluster_lem fuel m (i * cluster_size) cluster_size screen enough,
        puts_buff-append screen (text_at m (i * cluster_size) cluster_size) (texts m k (suc i))
            vga_color_white,
      )
      (show_clusters-texts fuel m k (suc i)
        (puts_buff screen (text_at m (i * cluster_size) cluster_size) vga_color_white) enough)

text_at-agree :
    (m w : Bytes) (p k : ℕ)
    → ((q : ℕ) → p ≤ q → q < p + k → w q ≡ m q)
    → text_at w p k ≡ text_at m p k
text_at-agree m w p zero same = refl
text_at-agree m w p (suc k) same =
    rw
      (
        same p (omega arith) (omega arith),
        text_at-agree m w (suc p) k λ q lo hi. same q (omega arith) (omega arith),
      )
      refl

texts-agree :
    (m w : Bytes) (k i : ℕ)
    → ((q : ℕ) → q < (i + k) * cluster_size → w q ≡ m q)
    → texts w k i ≡ texts m k i
texts-agree m w zero i same = refl
texts-agree m w (suc k) i same =
    rw
      (
        text_at-agree m w (i * cluster_size) cluster_size (λ q lo hi. same q (omega arith)),
        texts-agree m w k (suc i) (λ q lt. same q (omega arith)),
      )
      refl

-- The bytes of the cells.
abbrev pub low_bytes : Bytes → Bytes
low_bytes m q = m q % 256

-- Where the read of a file has answered 0, cat shows, character by character, what one call of
-- puts_buff in white shows of the first five clusters in the buffer, each up to its first zero; and it
-- comes to an end, with fuel for two bytes.
pub show_answer-texts :
    (fuel : ℕ) (unset : Bytes) (screen : Screen) (fs : Fs)
    → 1 < fuel
    → show_answer fuel unset screen 0 fs
      ≡ some (puts_buff screen (texts (low_bytes fs.buf) 5 0) vga_color_white)
unfolding show_answer
show_answer-texts fuel unset screen fs enough =
    let shown = memcpy unset 0 fs.buf 0 10240 in
    show_clusters-texts fuel shown 5 0 screen enough
    ∙ ap (λ t. some (puts_buff screen t vga_color_white))
        (texts-agree (low_bytes fs.buf) shown 5 0 λ q lt.
          memcpy_lem unset 0 fs.buf 0 10240 q
          ∙ (let e : 0 + (q - 0) ≡ q = omega arith in rw e (ground arith)))
