-- ===== src/ScriptArray/Slots.antt =====
-- The slots of `scripting::array` (src/client/module/scripting.hpp) one by one, and `pop_back` in a loop.
use w3m.Prelude.{
  ℕ, zero, suc, ◌+◌, ◌-◌, ◌≤◌, ◌<◌, ◌≡◌, ◌⊎◌, refl, ap, ◌∙◌, inl, inr, false, List, [], ◌∷◌, ◌++◌,
  append_assoc, map, Option, none, some, arith, lt→ltb, ltb-false, leb-false, ◌==◌, ==_ne, length,
  length-append, length-map, take, get_elem?,
}
use native.Mathlib.Decide.{dec_lt}
use w3m.Prelude.Outcome.{returns}
use w3m.ScriptArray.{Array, size, at, put, pop_back, shrink, construct}

module _ {A : Type 0} where
  -- The first slots hold the objects in their order; what is behind them does not matter.
  abbrev pub slots : List A → List (Option A) → Array A
  slots items spare = record { values = map some items ++ spare; count = length items }

  abbrev pub Holds : List A → Array A → Type 0
  Holds items a = (spare : List (Option A)) × (a ≡ slots items spare)

  pub get_elem?-joint :
      (us : List A) (x : A) (vs : List A) (spare : List (Option A))
      → get_elem? (map some (us ++ (x ∷ vs)) ++ spare) (length us) ≡ some (some x)
  get_elem?-joint [] x vs spare = refl
  get_elem?-joint (u ∷ us) x vs spare = get_elem?-joint us x vs spare

  pub put-joint :
      (us : List A) (x : Option A) (y : Option A) (spare : List (Option A))
      → put (length us) x (map some us ++ (y ∷ spare)) ≡ map some us ++ (x ∷ spare)
  unfolding put
  put-joint [] x y spare = refl
  put-joint (u ∷ us) x y spare = ap (◌∷◌ (some u)) (put-joint us x y spare)

  pub map-append : (us vs : List A) → map some (us ++ vs) ≡ map some us ++ map some vs
  map-append [] vs = refl
  map-append (u ∷ us) vs = ap (◌∷◌ (some u)) (map-append us vs)

  pub construct-joint :
      (us : List A) (x : A) (y : Option A) (spare : List (Option A)) (n : ℕ)
      → construct (length us) x (record { values = map some us ++ (y ∷ spare); count = n })
        ≡ returns (record { values = map some us ++ (some x ∷ spare); count = n })
  unfolding construct
  construct-joint us x y spare n =
      let inside : length us < length (map some us ++ (y ∷ spare)) =
        omega (arith, length-append (map some us) (y ∷ spare), length-map us (λ (u : A). some u)) in
      rw (lt→ltb _ _ inside, put-joint us (some x) y spare)

  pub at-joint :
      (us : List A) (x : A) (vs : List A) (spare : List (Option A))
      → at (slots (us ++ (x ∷ vs)) spare) (length us) ≡ returns x
  unfolding at size
  at-joint us x vs spare =
      let inside : length us < length (us ++ (x ∷ vs)) = omega (arith, length-append us (x ∷ vs)) in
      rw (leb-false _ _ inside, get_elem?-joint us x vs spare)

  length-snoc : (us : List A) (x : A) → length (us ++ (x ∷ [])) ≡ suc (length us)
  length-snoc us x = omega (arith, length-append us (x ∷ []))

  pop_back-snoc :
      (us : List A) (x : A) (spare : List (Option A))
      → pop_back (slots (us ++ (x ∷ [])) spare) ≡ returns (x, slots us (none ∷ spare))
  unfolding pop_back
  pop_back-snoc us x spare =
      let l = length-snoc us x in
      let filled : (length (us ++ (x ∷ [])) == 0) ≡ false = ==_ne _ _ (λ e. omega (arith, l, e)) in
      let last : length (us ++ (x ∷ [])) - 1 ≡ length us = omega (arith, l) in
      rw (filled, last, at-joint us x [] spare)
        (rw (map-append us (x ∷ []), append_assoc (map some us) (some x ∷ []) spare)
          (rw (put-joint us none (some x) spare)))

  -- A list is empty, or has a last element.
  last_view : (xs : List A) → (xs ≡ []) ⊎ ((us : List A) × (x : A) × (xs ≡ us ++ (x ∷ [])))
  last_view [] = inl refl
  last_view (x ∷ xs) = cases (last_view xs)
    where
      cases :
          (xs ≡ []) ⊎ ((us : List A) × (y : A) × (xs ≡ us ++ (y ∷ [])))
          → ((x ∷ xs) ≡ []) ⊎ ((us : List A) × (y : A) × ((x ∷ xs) ≡ us ++ (y ∷ [])))
      cases (inl e) = inr ([], x, ap (◌∷◌ x) e)
      cases (inr (us, y, e)) = inr (x ∷ us, y, ap (◌∷◌ x) e)

  take-front : (n : ℕ) (us vs : List A) → n ≤ length us → take n (us ++ vs) ≡ take n us
  take-front zero us vs h = refl
  take-front (suc n) [] vs h = absurd (omega arith)
  take-front (suc n) (u ∷ us) vs h = ap (◌∷◌ u) (take-front n us vs (omega arith))

  pub take-all : (n : ℕ) (us : List A) → length us ≤ n → take n us ≡ us
  take-all zero [] h = refl
  take-all zero (u ∷ us) h = absurd (omega arith)
  take-all (suc n) [] h = refl
  take-all (suc n) (u ∷ us) h = ap (◌∷◌ u) (take-all n us (omega arith))

  -- Enough rounds of `pop_back` leave the first `n` objects.
  pub shrink-slots :
      (fuel n : ℕ) (items : List A) (spare : List (Option A))
      → length items ≤ fuel + n
      → (left : List (Option A)) × (shrink fuel n (slots items spare)
          ≡ returns (slots (take n items) left))
  unfolding shrink
  shrink-slots zero n items spare h = (spare, rw (take-all n items (omega arith)))
  shrink-slots (suc fuel) n items spare h = elim (dec_lt n (length items)) [
    | no fits ↦ (
      spare,
      rw (
        ltb-false _ _ (let f : length items ≤ n = omega arith in f),
        take-all n items (omega arith),
      ),
    )
    | yes long ↦ pop (last_view items) long (λ us. shrink-slots fuel n us (none ∷ spare))
  ]
    where
      pop :
          (items ≡ []) ⊎ ((us : List A) × (x : A) × (items ≡ us ++ (x ∷ [])))
          → n < length items
          → ((us : List A)
              → length us ≤ fuel + n
              → (left : List (Option A)) × (shrink fuel n (slots us (none ∷ spare))
                  ≡ returns (slots (take n us) left)))
          → (left : List (Option A)) × (shrink (suc fuel) n (slots items spare)
              ≡ returns (slots (take n items) left))
      pop (inl e) long ih = absurd (omega (arith, long, ap (λ (x : List A). length x) e))
      pop (inr (us, x, e)) long ih =
          let l : length items ≡ suc (length us) =
            ap (λ (y : List A). length y) e ∙ length-snoc us x in
          let (left, r) = ih us (omega (arith, l, h)) in
          (
            left,
            rw (lt→ltb _ _ long) (
                rw e (
                  rw (pop_back-snoc us x spare)
                    (r ∙ rw (take-front n us (x ∷ []) (omega (arith, l, long)))))),
          )
