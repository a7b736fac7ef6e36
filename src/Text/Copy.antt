-- ===== src/Text/Copy.antt =====
-- Bounded copies of src/common/utils/string.cpp into arrays of characters.
use w3m.Prelude.{ℕ, suc, ◌<◌, ◌≡◌, refl, List, [], ◌∷◌, arith, length, take}
use w3m.Text.{copy, up_to_zero}

pub length-copy : (dest src : List ℕ) → length (copy dest src) ≡ length dest
unfolding copy
length-copy [] src = refl
length-copy (x ∷ []) src = refl
length-copy (x ∷ y ∷ dest) [] = refl
length-copy (x ∷ y ∷ dest) (c ∷ src) = ground (arith, length-copy (y ∷ dest) src)

-- An array of `max_size` characters, at least one, holds the text up to its first zero or up to
-- `max_size - 1` characters after the copy, with a zero behind it; and the array keeps its length.
pub up_to_zero-copy :
    (x : ℕ) (dest src : List ℕ)
    → (up_to_zero (copy (x ∷ dest) src) ≡ take (length dest) (up_to_zero src))
      × (length (up_to_zero (copy (x ∷ dest) src)) < suc (length dest))
      × (length (copy (x ∷ dest) src) ≡ suc (length dest))
unfolding copy up_to_zero
up_to_zero-copy x [] src = (refl, omega arith, refl)
up_to_zero-copy x (y ∷ dest) [] = (refl, omega arith, refl)
up_to_zero-copy x (y ∷ dest) (c ∷ src) = ground (arith, up_to_zero-copy y dest src)
