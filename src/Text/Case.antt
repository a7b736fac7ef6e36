-- ===== src/Text/Case.antt =====
-- Case conversion of src/common/utils/string.cpp.
use w3m.Prelude.{ℕ, ◌<◌, ◌≡◌, refl, List, [], ◌∷◌, arith, All}
use w3m.Prelude.Words.{IsByte}
use w3m.Text.{tolower, toupper, to_lower, to_upper, to_lower_wide}

tolower_idem : (c : ℕ) → tolower (tolower c) ≡ tolower c
unfolding tolower
tolower_idem c = ground arith

tolower-toupper : (c : ℕ) → tolower (toupper c) ≡ tolower c
unfolding tolower toupper
tolower-toupper c = ground arith

tolower-lt : (c : ℕ) → c < 256 → tolower c < 256
unfolding tolower
tolower-lt c h = ground arith

-- Lower case does not depend on the case of the text, so that names are compared without regard to
-- it: converting again, or after a conversion to upper case, gives the same text.
pub to_lower_canonical :
    (text : List ℕ)
    → (to_lower (to_lower text) ≡ to_lower text) × (to_lower (to_upper text) ≡ to_lower text)
unfolding to_lower to_upper
to_lower_canonical [] = (refl, refl)
to_lower_canonical (c ∷ text) =
    let (again, upper) = to_lower_canonical text in
    (cc (tolower_idem c, again), cc (tolower-toupper c, upper))

-- On texts of bytes the wide conversions are the narrow ones.
pub to_lower_wide-bytes : (text : List ℕ) → All IsByte text → to_lower_wide text ≡ to_lower text
unfolding to_lower to_lower_wide tolower
to_lower_wide-bytes [] h = refl
to_lower_wide-bytes (c ∷ text) (hc, h) = ground (arith, to_lower_wide-bytes text h)
