-- ===== src/Flags/Tests.antt =====
-- A run of the flags of src/common/utils/flags.cpp.
use w3m.Prelude.{true, ◌≡◌, refl, [], ◌∷◌, none, some, bytes_eq}
use w3m.Text.{to_lower, tolower}
use w3m.Flags.Names.{named, has_flag-parse_flags}
use w3m.Flags.{contains, emplace, add_flag, flags_loop, parse_flags, has_flag}

-- The arguments `w3m` and `-NoS`, asked for `nos`.
no_steam :
    has_flag (0x6e ∷ 0x6f ∷ 0x73 ∷ []) (
      parse_flags 2
        (some (some (0x77 ∷ 0x33 ∷ 0x6d ∷ []) ∷ some (0x2d ∷ 0x4e ∷ 0x6f ∷ 0x53 ∷ []) ∷ none ∷ [])))
    ≡ true
unfolding has_flag parse_flags flags_loop add_flag emplace contains bytes_eq to_lower tolower
no_steam = refl

has_flag-parse_flags_example :
    has_flag (0x6e ∷ []) (parse_flags 1 (some (some (0x2d ∷ 0x4e ∷ []) ∷ none ∷ [])))
    ≡ named 1 (some (0x2d ∷ 0x4e ∷ []) ∷ none ∷ []) (to_lower (0x6e ∷ []))
has_flag-parse_flags_example =
    has_flag-parse_flags 1 (some (0x2d ∷ 0x4e ∷ []) ∷ none ∷ []) (0x6e ∷ [])
