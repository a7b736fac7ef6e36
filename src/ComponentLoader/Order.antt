-- ===== src/ComponentLoader/Order.antt =====
-- The order in which src/client/loader/component_loader.cpp keeps the components.
use w3m.Prelude.{
  ℕ, ◌≤◌, ◌<◌, ◌≡◌, refl, ap, inl, inr, Bool, true, false, List, [], ◌∷◌, ◌++◌, arith, ltb, leb,
  All, keep, Bool-cases,
}
use w3m.ComponentLoader.{insert_component, stable_sort, register_component}

module _ {C : Type 0} (priority : C → ℕ) where
  -- No component comes before one of a higher priority.
  abbrev pub Sorted : List C → Type 0
  Sorted [] = Unit {0}
  Sorted (c ∷ components) = All (λ d. priority d ≤ priority c) components × Sorted components

  insert_component-All :
      (c e : C) (components : List C)
      → priority c ≤ priority e
      → All (λ d. priority d ≤ priority e) components
      → All (λ d. priority d ≤ priority e) (insert_component priority c components)
  unfolding insert_component
  insert_component-All c e [] h hs = (h, tt)
  insert_component-All c e (d ∷ components) h (hd, hs) =
      elim (Bool-cases (ltb (priority c) (priority d))) [
        | inl t ↦ rw (t, insert_component) (hd, insert_component-All c e components h hs)
        | inr t ↦ rw (t, insert_component) (h, (hd, hs))
      ]

  insert_component-Sorted :
      (c : C) (components : List C)
      → Sorted components
      → Sorted (insert_component priority c components)
  unfolding insert_component
  insert_component-Sorted c [] s = (tt, tt)
  insert_component-Sorted c (d ∷ components) (hd, s) =
      elim (Bool-cases (ltb (priority c) (priority d))) [
        | inl t ↦
            rw (t, insert_component)
              (
                insert_component-All c d components (ground arith) hd,
                insert_component-Sorted c components s,
              )
        | inr t ↦
            rw (t, insert_component)
              ((ground arith, weaken d c components (ground arith) hd), (hd, s))
      ]
    where
      weaken :
          (d c : C) (xs : List C)
          → priority d ≤ priority c
          → All (λ e. priority e ≤ priority d) xs
          → All (λ e. priority e ≤ priority c) xs
      weaken d c [] h hs = tt
      weaken d c (x ∷ xs) h (hx, hs) = (omega arith, weaken d c xs h hs)

  stable_sort-Sorted : (components : List C) → Sorted (stable_sort priority components)
  unfolding stable_sort
  stable_sort-Sorted [] = tt
  stable_sort-Sorted (c ∷ components) =
      insert_component-Sorted c (stable_sort priority components) (stable_sort-Sorted components)

  insert_component-first :
      (c : C) (components : List C)
      → All (λ d. priority d ≤ priority c) components
      → insert_component priority c components ≡ c ∷ components
  unfolding insert_component
  insert_component-first c [] h = refl
  insert_component-first c (d ∷ components) (hd, h) = ground arith

  keep-All :
      (p : C → Bool) (c : C) (components : List C)
      → All (λ d. priority d ≤ priority c) components
      → All (λ d. priority d ≤ priority c) (keep p components)
  keep-All p c [] h = tt
  keep-All p c (d ∷ components) (hd, h) = elim (Bool-cases (p d)) [
    | inl e ↦ rw e (hd, keep-All p c components h)
    | inr e ↦ rw e (keep-All p c components h)
  ]

  append-All :
      (c : C) (xs ys : List C)
      → All (λ d. priority d ≤ priority c) xs
      → All (λ d. priority d ≤ priority c) ys
      → All (λ d. priority d ≤ priority c) (xs ++ ys)
  append-All c [] ys hx hy = hy
  append-All c (x ∷ xs) ys (h, hx) hy = (h, append-All c xs ys hx hy)

  -- The components that stay in front of a new one, and those behind it.
  abbrev pub before : C → List C → List C
  before c = keep (λ d. leb (priority c) (priority d))

  abbrev pub behind : C → List C → List C
  behind c = keep (λ d. ltb (priority d) (priority c))

  before-none :
      (c d : C) (components : List C)
      → priority d < priority c
      → All (λ e. priority e ≤ priority d) components
      → (before c components ≡ []) × (behind c components ≡ components)
  before-none c d [] h hs = (refl, refl)
  before-none c d (e ∷ components) h (he, hs) =
      let (b, r) = before-none c d components h hs in
      let low : leb (priority c) (priority e) ≡ false = ground arith in
      let less : ltb (priority e) (priority c) ≡ true = ground arith in
      (rw low b, rw less (ap (◌∷◌ e) r))

  stable_sort-append :
      (c : C) (components : List C)
      → Sorted components
      → stable_sort priority (components ++ (c ∷ []))
        ≡ before c components ++ (c ∷ behind c components)
  unfolding stable_sort insert_component
  stable_sort-append c [] s = refl
  stable_sort-append c (d ∷ components) (hd, s) =
      elim (Bool-cases (leb (priority c) (priority d))) [
        | inl e ↦
            let not_less : ltb (priority d) (priority c) ≡ false = ground arith in
            rw (e, not_less, stable_sort-append c components s)
              (insert_component-first d (before c components ++ (c ∷ behind c components)) (
                append-All d (before c components) (c ∷ behind c components)
                  (keep-All _ d components hd) (ground arith, keep-All _ d components hd)))
        | inr e ↦
            let less : ltb (priority d) (priority c) ≡ true = ground arith in
            let (b, r) = before-none c d components (ground arith) hd in
            rw (e, less, stable_sort-append c components s)
              (rw (b, r)
                (rw (less, insert_component) (ap (◌∷◌ c) (insert_component-first d components hd))))
      ]

  -- A component that is registered goes behind all of at least its priority and in front of all of a
  -- lower one, and the others stay in their order; so the list stays sorted, and components of one
  -- priority stand in the order of their registration.
  pub register_component_lem :
      (component : C) (components : List C)
      → Sorted components
      → (register_component priority component components
          ≡ before component components ++ (component ∷ behind component components))
        × Sorted (register_component priority component components)
  unfolding register_component
  register_component_lem component components s = (
    stable_sort-append component components s,
    stable_sort-Sorted (components ++ (component ∷ [])),
  )
