-- ===== src/User/Mkdir/Tests.antt =====
-- mkdir (src/commands/mkdir.c) with a concrete path.
use if2230_2023_oshiete.Common.{
  zero, suc, ◌≡◌, refl, arith, Bytes, IsBytes, [], ◌∷◌, none, some, ◌>>=◌, ◌==◌, if◌then◌else◌,
}
use if2230_2023_oshiete.Fat32.Driver.{Request}
use if2230_2023_oshiete.Fat32.Write.{write}
use if2230_2023_oshiete.Fat32.Init.{zeros, bytes_of}
use if2230_2023_oshiete.Fat32.Tests.{booted}
use if2230_2023_oshiete.Str.Token.{IsToken}
use if2230_2023_oshiete.User.{CurrentWorkingDirectory}
use if2230_2023_oshiete.User.Mkdir.{mkdir}
use if2230_2023_oshiete.User.Mkdir.Named.{IsFolderName, AsksFolder, mkdir-AsksFolder}

abbrev at_root : CurrentWorkingDirectory
at_root = record { clusters_stack = λ i. if i == 0 then 2 else 0; dir_names = zeros; top = 0 }

abbrev letter : Bytes
letter = bytes_of (b'd' ∷ [])

letter-IsBytes : IsBytes letter
letter-IsBytes zero = omega arith
letter-IsBytes (suc a) = omega arith

letter-IsFolderName : IsFolderName letter 0 1
letter-IsFolderName = record { low = omega arith; high = omega arith; token = token; ends = refl }
  where
    token : IsToken letter 0 1 b'/'
    token zero lt = (λ e. absurd (omega arith), λ e. absurd (omega arith))
    token (suc i) lt = absurd (omega arith)

mkdir-AsksFolder_example :
    (rq : Request) × AsksFolder rq letter 0 1 2
    × (mkdir 10 at_root letter 0 zeros none booted
        ≡ (write 10 rq booted >>= λ answer. some answer.1))
mkdir-AsksFolder_example =
    mkdir-AsksFolder 10 at_root letter 0 zeros none booted 1 letter-IsBytes (λ a. omega arith)
      letter-IsFolderName (omega arith) (omega arith)
