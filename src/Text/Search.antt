-- ===== src/Text/Search.antt =====
-- Prefixes and suffixes, and the search of src/common/utils/string.cpp.
use w3m.Prelude.{
  ℕ, ◌≤◌, ◌≡◌, refl, sym, ap, ◌∙◌, ◌↔◌, inl, inr, true, List, [], ◌∷◌, ◌++◌, some, arith, ltb-false,
  ==_refl, length, length-append, drop, Bool-cases, Option-cases,
}
use mathlib.Core.List.{reverse, reverse-append, reverse-reverse}
use w3m.Text.{matches_at, find, starts_with, ends_with}

pub matches_at-append : (substring rest : List ℕ) → matches_at substring (substring ++ rest) ≡ true
unfolding matches_at
matches_at-append [] rest = refl
matches_at-append (c ∷ substring) rest = rw (==_refl c) (matches_at-append substring rest)

pub matches_at-split :
    (substring text : List ℕ)
    → matches_at substring text ≡ true
    → text ≡ substring ++ drop (length substring) text
unfolding matches_at
matches_at-split [] text h = refl
matches_at-split (c ∷ substring) [] h = cc
matches_at-split (c ∷ substring) (d ∷ text) h = ground (arith, matches_at-split substring text)

find-zero :
    (substring text : List ℕ) → (find substring text ≡ some 0) ↔ (matches_at substring text ≡ true)
unfolding find matches_at
find-zero [] [] = ((λ h. refl), λ h. refl)
find-zero (c ∷ substring) [] = ((λ h. cc), λ h. cc)
find-zero substring (d ∷ text) = elim (Bool-cases (matches_at substring (d ∷ text))) [
  | inl e ↦ ((λ h. e), λ h. rw e)
  | inr e ↦ ((λ h. ground arith), λ h. cc)
]

starts_with-find :
    (text substring : List ℕ) → starts_with text substring ≡ true → find substring text ≡ some 0
unfolding starts_with
starts_with-find text substring h = elim (Option-cases (find substring text)) [
  | inl e ↦ ground arith
  | inr (n, e) ↦ ground arith
]

-- `starts_with` tells whether the text is the substring followed by something.
pub starts_with_iff :
    (text substring : List ℕ)
    → (starts_with text substring ≡ true) ↔ ((rest : List ℕ) × (text ≡ substring ++ rest))
unfolding starts_with
starts_with_iff text substring = (
  λ h. (
    drop (length substring) text,
    matches_at-split substring text
        ((find-zero substring text).0 (starts_with-find text substring h)),
  ),
  λ (rest, e).
      rw ((find-zero substring text).1 (rw e (matches_at-append substring rest)), starts_with),
)

abbrev behind : List ℕ → List ℕ → List ℕ
behind text substring = drop (length (reverse substring)) (reverse text)

suffix :
    (text substring : List ℕ)
    → matches_at (reverse substring) (reverse text) ≡ true
    → text ≡ reverse (behind text substring) ++ substring
suffix text substring h =
    sym (reverse-reverse text)
    ∙ ap reverse (matches_at-split (reverse substring) (reverse text) h)
    ∙ reverse-append (reverse substring) (behind text substring)
    ∙ ap (◌++◌ (reverse (behind text substring))) (reverse-reverse substring)

suffix_fits : (front substring : List ℕ) → length substring ≤ length (front ++ substring)
suffix_fits front substring = omega (arith, length-append front substring)

-- `ends_with` tells whether the text is something followed by the substring.
pub ends_with_iff :
    (text substring : List ℕ)
    → (ends_with text substring ≡ true) ↔ ((front : List ℕ) × (text ≡ front ++ substring))
unfolding ends_with
ends_with_iff text substring = (
  λ h. (reverse (behind text substring), suffix text substring (ground arith)),
  λ (front, e).
      rw (e, ltb-false _ _ (suffix_fits front substring), reverse-append)
        (matches_at-append (reverse substring) (reverse front)),
)
