-- ===== src/Text/Trim.antt =====
-- `trim` of src/common/utils/string.cpp.
use w3m.Prelude.{
  ℕ, ◌≡◌, refl, sym, ap, ◌∙◌, inl, inr, true, false, List, [], ◌∷◌, ◌++◌, append_assoc, All,
  All-append, Bool-cases,
}
use mathlib.Core.List.{reverse, reverse-append, reverse-reverse, reverse-cons}
use mathlib.Core.Path.{subst}
use w3m.Text.{isspace, ltrim, rtrim, trim}

abbrev pub AllSpace : List ℕ → Type 0
AllSpace = All (λ c. isspace c ≡ true)

-- The text is empty, or its first character is no white space.
abbrev pub Starts : List ℕ → Type 0
Starts [] = Unit
Starts (c ∷ text) = isspace c ≡ false

ltrim_lem :
    (str : List ℕ)
    → (spaces : List ℕ) × (str ≡ spaces ++ ltrim str) × AllSpace spaces × Starts (ltrim str)
unfolding ltrim
ltrim_lem [] = ([], refl, tt, tt)
ltrim_lem (c ∷ str) = elim (Bool-cases (isspace c)) [
  | inl e ↦
      let (spaces, s, all, st) = ltrim_lem str in
      (c ∷ spaces, rw (e, ltrim) (ap (◌∷◌ c) s), (e, all), rw (e, ltrim) st)
  | inr e ↦ ([], rw (e, ltrim), tt, rw (e, ltrim) e)
]

reverse-AllSpace : (xs : List ℕ) → AllSpace xs → AllSpace (reverse xs)
reverse-AllSpace [] h = tt
reverse-AllSpace (x ∷ xs) (hx, h) =
    rw (reverse-cons x xs) (All-append _ (reverse xs) (x ∷ []) (reverse-AllSpace xs h) (hx, tt))

rtrim_lem :
    (str : List ℕ)
    → (spaces : List ℕ) × (str ≡ rtrim str ++ spaces)
      × AllSpace spaces
      × Starts (reverse (rtrim str))
unfolding rtrim
rtrim_lem str =
    let (spaces, s, all, st) = ltrim_lem (reverse str) in
    (
      reverse spaces,
      sym (reverse-reverse str) ∙ ap reverse s ∙ reverse-append spaces (ltrim (reverse str)),
      reverse-AllSpace spaces all,
      rw (reverse-reverse (ltrim (reverse str))) st,
    )

-- Dropping a front of a text whose end is no white space leaves the end, or nothing.
ends : (spaces text : List ℕ) → Starts (reverse (spaces ++ text)) → Starts (reverse text)
ends spaces text h = go (reverse text) (rw (reverse-append spaces text) at h)
  where
    go : (back : List ℕ) → Starts (back ++ reverse spaces) → Starts back
    go [] h = tt
    go (c ∷ back) h = h

-- `trim` takes white space off both ends and nothing else, and what it leaves neither starts nor
-- ends with white space.
pub trim_lem :
    (str : List ℕ)
    → (front : List ℕ) × (back : List ℕ) × (str ≡ front ++ (trim str ++ back))
      × AllSpace front
      × AllSpace back
      × Starts (trim str)
      × Starts (reverse (trim str))
unfolding trim
trim_lem str =
    let (back, s, all_back, st_back) = rtrim_lem str in
    let (front, f, all_front, st_front) = ltrim_lem (rtrim str) in
    (
      front,
      back,
      s ∙ ap (λ x. x ++ back) f ∙ append_assoc front (ltrim (rtrim str)) back,
      all_front,
      all_back,
      st_front,
      ends front (ltrim (rtrim str)) (subst (λ x. Starts (reverse x)) f st_back),
    )
