-- ===== src/User/Filename.antt =====
-- separate_filename of src/syscall.c: the name and the extension of a file's name.
pub mod Pieces
mod Tests
use if2230_2023_oshiete.Common.{
  ℕ, Bytes, ltb, ◌||◌, if◌then◌else◌, Option, none, some, ◌>>=◌, [], ◌∷◌,
}
use if2230_2023_oshiete.Mem.{memcpy}
use if2230_2023_oshiete.Str.{strlen}
use if2230_2023_oshiete.Str.Token.{strtok}
use if2230_2023_oshiete.Fat32.Init.{zeros, bytes_of}

abbrev pub dot : Bytes
dot = bytes_of (b'.' ∷ [])

-- The program's memory, in which the file's name lies, the two buffers, and what strtok keeps.
pub record Filename : Type 0 where
  pub memory : Bytes
  pub name : Bytes
  pub ext : Bytes
  pub next : Option ℕ

-- The address of a pointer: the null pointer is 0.
unfoldable pub address : Option ℕ → ℕ
address none = 0
address (some p) = p

-- Where there is no extension, three zeros go to the null pointer, that is, to the program's own
-- address 0.
unfoldable pub without_ext : Bytes → Option ℕ → Bytes
without_ext m none = memcpy m 0 zeros 0 3
without_ext m (some p) = m

-- Behind the tests: the buffers are zeroed, and filled.
unfoldable pub fill_names : Filename → ℕ → ℕ → ℕ → ℕ → Filename
fill_names f new_name n new_ext x = record f {
  name = memcpy (memcpy f.name 0 zeros 0 8) 0 f.memory new_name n;
  ext = memcpy (memcpy f.ext 0 zeros 0 3) 0 f.memory new_ext x;
}

-- The tests on the lengths, and what stands behind them.
unfoldable pub check_names : ℕ → Filename → ℕ → ℕ → Option (ℕ × Filename)
check_names fuel f new_name new_ext = do
  n ← strlen fuel f.memory new_name
  x ← strlen fuel f.memory new_ext
  some (if ltb 8 n || ltb 3 x then (3, f) else (0, fill_names f new_name n new_ext x))

unfoldable pub separate_filename : ℕ → ℕ → Filename → Option (ℕ × Filename)
separate_filename fuel file_name f = do
  first ← strtok fuel f.memory (some file_name) dot f.next
  second ← strtok fuel first.1.0 none dot first.1.1
  check_names fuel (record f { memory = without_ext second.1.0 second.0; next = second.1.1 })
      (address first.0) (address second.0)
