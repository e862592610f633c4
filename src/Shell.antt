-- ===== src/Shell.antt =====
-- `ExecuteCommand` of inc/shell/shell.h and src/shell/shell.cpp. What `popen` opens and the bytes that come
-- out of it are an argument, and so is what `pclose` returns.
pub mod Output
mod Examples
use steam_deck_gyro_dsu_exte.Base.{
  ℕ, zero, suc, ◌+◌, ◌==◌, List, [], ◌∷◌, ◌++◌, Option, none, some, length, if◌then◌else◌,
}
use steam_deck_gyro_dsu_exte.Base.Int.{ℤ, pos, negsuc}

abbrev buffer_size : ℕ
buffer_size = 128

-- What `fgets` reads with room for `n` bytes beside the end, and what it leaves: up to a line feed.
unfoldable pub fgets : ℕ → List ℕ → List ℕ × List ℕ
fgets zero bytes = ([], bytes)
fgets (suc n) [] = ([], [])
fgets (suc n) (b ∷ bs) =
    let (line, rest) = fgets n bs in if b == 10 then (b ∷ [], bs) else (b ∷ line, rest)

-- The text that a buffer holds, up to its first byte of 0.
unfoldable pub c_string : List ℕ → List ℕ
c_string [] = []
c_string (b ∷ bs) = let rest = c_string bs in if b == 0 then [] else b ∷ rest

-- The loop, for at most `fuel` calls of `fgets`; `none`: there is more.
unfoldable pub read_output : ℕ → List ℕ → List ℕ → Option (List ℕ)
unfolding fgets c_string
read_output fuel [] out = some out
read_output zero (b ∷ bs) out = none
read_output (suc fuel) (b ∷ bs) out =
    let (line, rest) = fgets 127 (b ∷ bs) in read_output fuel rest (out ++ c_string line)

-- Every call of `fgets` takes at least a byte. The result is the exit code, and the text that `stdout` holds.
pub execute_command : Option (List ℕ) → ℤ → Option (ℤ × List ℕ)
unfolding read_output
execute_command none pclose = some (negsuc 0, [])
execute_command (some bytes) pclose = elim (read_output (length bytes) bytes []) [
  | none ↦ none
  | some out ↦ some (pclose, out)
]
