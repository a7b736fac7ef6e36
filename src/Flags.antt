-- ===== src/Flags.antt =====
-- The flags on the command line, src/common/utils/flags.cpp. The set of flags is the list of its
-- members.
pub mod Names
pub mod Tests
use w3m.Prelude.{
  ℕ, zero, suc, Bool, true, false, ◌||◌, List, [], ◌∷◌, Option, none, some, ◌==◌, if◌then◌else◌,
  bytes_eq,
}
use w3m.Text.{to_lower}

unfoldable pub contains : List ℕ → List (List ℕ) → Bool
contains text [] = false
contains text (flag ∷ flags) = bytes_eq text flag || contains text flags

unfoldable pub emplace : List ℕ → List (List ℕ) → List (List ℕ)
emplace flag flags = if contains flag flags then flags else flag ∷ flags

-- An empty argument has the zero at its end as its first character.
unfoldable pub add_flag : List ℕ → List (List ℕ) → List (List ℕ)
add_flag [] flags = flags
add_flag (c ∷ rest) flags = if c == 0x2d then emplace (to_lower rest) flags else flags

-- A null pointer stands behind the arguments.
unfoldable pub flags_loop : ℕ → List (Option (List ℕ)) → List (List ℕ) → List (List ℕ)
flags_loop zero argv flags = flags
flags_loop (suc n) [] flags = flags
flags_loop (suc n) (none ∷ argv) flags = flags
flags_loop (suc n) (some flag ∷ argv) flags = flags_loop n argv (add_flag flag flags)

unfoldable pub parse_flags : ℕ → Option (List (Option (List ℕ))) → List (List ℕ)
parse_flags argc none = []
parse_flags argc (some argv) = flags_loop argc argv []

unfoldable pub has_flag : List ℕ → List (List ℕ) → Bool
has_flag flag flags = contains (to_lower flag) flags
