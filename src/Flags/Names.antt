-- ===== src/Flags/Names.antt =====
-- Which flags of a command line there are, in src/common/utils/flags.cpp.
use mathlib.Core.Path.{subst}
use w3m.Prelude.{
  ℕ, zero, suc, ◌≡◌, refl, sym, ap, ◌∙◌, inl, inr, Bool, true, false, ◌&&◌, ◌||◌, List, [], ◌∷◌,
  Option, none, some, ◌==◌, bytes_eq, bytes_eq→eq, Bool-cases,
}
use w3m.Text.{to_lower}
use w3m.Flags.{contains, emplace, add_flag, flags_loop, parse_flags, has_flag}

-- A dash and a text whose small letters are those given.
abbrev pub names : List ℕ → List ℕ → Bool
names text [] = false
names text (c ∷ rest) = c == 0x2d && bytes_eq text (to_lower rest)

-- One of the first `n` arguments, in front of any null pointer, names the flag.
unfoldable pub named : ℕ → List (Option (List ℕ)) → List ℕ → Bool
named zero argv text = false
named (suc n) [] text = false
named (suc n) (none ∷ argv) text = false
named (suc n) (some arg ∷ argv) text = names text arg || named n argv text

or_false : (a : Bool) → (a || false) ≡ a
or_false true = refl
or_false false = refl

or_swap : (a b c : Bool) → ((a || b) || c) ≡ (b || (a || c))
or_swap true true c = refl
or_swap true false c = refl
or_swap false b c = refl

contains-emplace :
    (text flag : List ℕ) (flags : List (List ℕ))
    → contains text (emplace flag flags) ≡ (bytes_eq text flag || contains text flags)
unfolding contains emplace
contains-emplace text flag flags = elim (Bool-cases (contains flag flags)) [
  | inr missing ↦ rw missing refl
  | inl there ↦ rw there (elim (Bool-cases (bytes_eq text flag)) [
    | inl same ↦
        rw same (subst (λ t. contains t flags ≡ true) (sym (bytes_eq→eq text flag same)) there)
    | inr other ↦ rw other refl
  ])
]

contains-add_flag :
    (text flag : List ℕ) (flags : List (List ℕ))
    → contains text (add_flag flag flags) ≡ (names text flag || contains text flags)
unfolding add_flag
contains-add_flag text [] flags = refl
contains-add_flag text (c ∷ rest) flags = elim (Bool-cases (c == 0x2d)) [
  | inl dash ↦ rw dash (contains-emplace text (to_lower rest) flags)
  | inr other ↦ rw other refl
]

contains-flags_loop :
    (n : ℕ) (argv : List (Option (List ℕ))) (text : List ℕ) (flags : List (List ℕ))
    → contains text (flags_loop n argv flags) ≡ (contains text flags || named n argv text)
unfolding flags_loop named
contains-flags_loop zero argv text flags = sym (or_false (contains text flags))
contains-flags_loop (suc n) [] text flags = sym (or_false (contains text flags))
contains-flags_loop (suc n) (none ∷ argv) text flags = sym (or_false (contains text flags))
contains-flags_loop (suc n) (some flag ∷ argv) text flags =
    contains-flags_loop n argv text (add_flag flag flags)
    ∙ ap (λ b. b || named n argv text) (contains-add_flag text flag flags)
    ∙ or_swap (names text flag) (contains text flags) (named n argv text)

-- A flag is there exactly if one of the first `argc` arguments, in front of any null pointer, is a
-- dash and the flag, where large letters count as small ones.
pub has_flag-parse_flags :
    (argc : ℕ) (argv : List (Option (List ℕ))) (flag : List ℕ)
    → has_flag flag (parse_flags argc (some argv)) ≡ named argc argv (to_lower flag)
unfolding has_flag parse_flags contains
has_flag-parse_flags argc argv flag = contains-flags_loop argc argv (to_lower flag) []
