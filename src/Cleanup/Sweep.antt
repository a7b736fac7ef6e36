-- ===== src/Cleanup/Sweep.antt =====
-- What a loop of src/client/updater/file_updater.cpp that removes paths leaves, when it goes over a
-- list that was made before it.
use w3m.Prelude.{
  ℕ, ◌≡◌, refl, sym, ap, ◌∙◌, inl, inr, Bool, true, false, not, ◌&&◌, ◌||◌, List, [], ◌∷◌,
  if◌then◌else◌, In, keep, In-keep, Bool-cases,
}
use w3m.Cleanup.{Entry, Tree, is_prefix, any_of, remove_all, sweep}
use w3m.Cleanup.Paths.{is_prefix_trans, any_of-true, none_of}

module _ {A : Type 0} where
  pub keep_ext_In :
      (p q : A → Bool) (xs : List A) → ((x : A) → In x xs → p x ≡ q x) → keep p xs ≡ keep q xs
  keep_ext_In p q [] h = refl
  keep_ext_In p q (x ∷ xs) h = rw (h x (inl refl), keep_ext_In p q xs (λ y m. h y (inr m)))

  keep_all : (p : A → Bool) (xs : List A) → ((x : A) → In x xs → p x ≡ true) → keep p xs ≡ xs
  keep_all p [] h = refl
  keep_all p (x ∷ xs) h = rw (h x (inl refl)) (ap (◌∷◌ x) (keep_all p xs (λ y m. h y (inr m))))

  pub keep-keep : (p q : A → Bool) (xs : List A) → keep q (keep p xs) ≡ keep (λ x. p x && q x) xs
  keep-keep p q [] = refl
  keep-keep p q (x ∷ xs) = elim (Bool-cases (p x)) [
    | inl e ↦ rw (e, keep-keep p q xs)
    | inr e ↦ rw (e, keep-keep p q xs)
  ]

-- What the loop removes for one entry, and what all of it leaves.
abbrev pub removes : (List (List ℕ) → Bool) → (Entry → Bool) → Entry → Entry → Bool
removes refuses good e0 e = not (good e0) && (is_prefix e0.path e.path && not (refuses e.path))

abbrev pub survives : (List (List ℕ) → Bool) → (Entry → Bool) → List Entry → Entry → Bool
survives refuses good snapshot e = not (any_of (λ e0. removes refuses good e0 e) snapshot)

-- The entry lies neither at nor below one of those that are not good.
abbrev pub is_spared : (Entry → Bool) → List Entry → Entry → Bool
is_spared good snapshot e = not (any_of (λ e0. not (good e0) && is_prefix e0.path e.path) snapshot)

pub survives-refuses :
    (refuses : List (List ℕ) → Bool) (good : Entry → Bool) (snapshot : List Entry) (e : Entry)
    → survives refuses good snapshot e ≡ (refuses e.path || is_spared good snapshot e)
unfolding any_of
survives-refuses refuses good [] e = elim (Bool-cases (refuses e.path)) [
  | inl r ↦ rw r
  | inr r ↦ rw r
]
survives-refuses refuses good (e0 ∷ snapshot) e =
    step (not (good e0)) (is_prefix e0.path e.path) (refuses e.path)
      (any_of (λ d. removes refuses good d e) snapshot)
      (any_of (λ d. not (good d) && is_prefix d.path e.path) snapshot)
      (survives-refuses refuses good snapshot e)
  where
    step :
        (g p r a b : Bool)
        → not a ≡ (r || not b)
        → not ((g && (p && not r)) || a) ≡ (r || not ((g && p) || b))
    step true true true a b h = h
    step true true false a b h = refl
    step true false r a b h = h
    step false p r a b h = h

abbrev pub IsPart : Tree → Tree → Type 0
IsPart t tree = (e : Entry) → In e t → In e tree

module _ (refuses : List (List ℕ) → Bool)
    (upward : (p q : List (List ℕ)) → is_prefix p q ≡ true → refuses q ≡ true → refuses p ≡ true)
    (legal : Tree → List (List ℕ) → Bool) (good : Entry → Bool) (tree : Tree)
    (stable : (t : Tree) → IsPart t tree → (e0 : Entry) → In e0 t → legal t e0.path ≡ good e0) where
  -- Nothing is left below a path that is gone.
  abbrev IsClosed : Tree → Type 0
  IsClosed t = (e e0 : Entry) → In e t → In e0 tree → is_prefix e0.path e.path ≡ true → In e0 t

  abbrev after : Entry → Tree → Tree
  after e0 t = keep (λ e. not (removes refuses good e0 e)) t

  remove_none :
      (b : Bool) (e0 : Entry) (t : Tree)
      → any_of (λ e. is_prefix e0.path e.path) t ≡ false
      → keep (λ e. not (b && (is_prefix e0.path e.path && not (refuses e.path)))) t ≡ t
  remove_none false e0 t none_below = keep_all _ t (λ e m. refl)
  remove_none true e0 t none_below = keep_all _ t (λ e m.
      ap (λ b. not (b && not (refuses e.path)))
        (none_of (λ e. is_prefix e0.path e.path) t none_below e m))

  sweep_step :
      (e0 : Entry) (t : Tree)
      → In e0 tree
      → IsPart t tree
      → IsClosed t
      → (if legal t e0.path then t else remove_all refuses e0.path t) ≡ after e0 t
  unfolding remove_all
  sweep_step e0 t listed part closed =
      elim (Bool-cases (any_of (λ e. is_prefix e0.path e.path) t)) [
        | inl some_below ↦
            let (e, m, below) = any_of-true (λ e. is_prefix e0.path e.path) t some_below in
            rw (stable t part e0 (closed e e0 m listed below)) (elim (Bool-cases (good e0)) [
              | inl g ↦ rw g (sym (keep_all _ t (λ x n. refl)))
              | inr g ↦ rw g
            ])
        | inr none_below ↦ elim (Bool-cases (legal t e0.path)) [
          | inl l ↦ rw l (sym (remove_none (not (good e0)) e0 t none_below))
          | inr l ↦
              rw l (
                remove_none true e0 t none_below
                ∙ sym (remove_none (not (good e0)) e0 t none_below))
        ]
      ]

  after-IsPart : (e0 : Entry) (t : Tree) → IsPart t tree → IsPart (after e0 t) tree
  after-IsPart e0 t part e m = part e ((In-keep (λ e. not (removes refuses good e0 e)) e t).0 m).0

  after-IsClosed : (e0 : Entry) (t : Tree) → IsClosed t → IsClosed (after e0 t)
  after-IsClosed e0 t closed e e1 m listed below =
      let (n, stays) = (In-keep (λ e. not (removes refuses good e0 e)) e t).0 m in
      (In-keep (λ e. not (removes refuses good e0 e)) e1 t).1
        (closed e e1 n listed below, kept stays)
    where
      kept : not (removes refuses good e0 e) ≡ true → not (removes refuses good e0 e1) ≡ true
      kept stays = elim (Bool-cases (good e0)) [
        | inl g ↦ rw g refl
        | inr g ↦ elim (Bool-cases (is_prefix e0.path e1.path)) [
          | inl p ↦
              let q : is_prefix e0.path e.path ≡ true = is_prefix_trans _ _ _ p below in
              elim (Bool-cases (refuses e1.path)) [
                | inl r ↦ rw (g, p, r) refl
                | inr r ↦ elim (Bool-cases (refuses e.path)) [
                  | inl there ↦
                      let clash : false ≡ true = sym r ∙ upward e1.path e.path below there in cc
                  | inr gone ↦ let clash : false ≡ true = rw (g, q, gone) at stays in cc
                ]
              ]
          | inr p ↦ rw (g, p) refl
        ]
      ]

  -- The loop removes what lies at or below a listed path that is not legal, and nothing else.
  pub sweep-keep :
      (snapshot : List Entry) (t : Tree)
      → IsPart snapshot tree
      → IsPart t tree
      → IsClosed t
      → sweep refuses legal snapshot t ≡ keep (survives refuses good snapshot) t
  unfolding sweep any_of
  sweep-keep [] t listed part closed = sym (keep_all _ t (λ e m. refl))
  sweep-keep (e0 ∷ snapshot) t listed part closed =
      ap (sweep refuses legal snapshot) (sweep_step e0 t (listed e0 (inl refl)) part closed)
      ∙ sweep-keep snapshot (after e0 t) (λ e m. listed e (inr m)) (after-IsPart e0 t part)
          (after-IsClosed e0 t closed)
      ∙ keep-keep (λ e. not (removes refuses good e0 e)) (survives refuses good snapshot) t
      ∙ keep_ext_In _ _ t (λ e m. both (removes refuses good e0 e) _)
    where
      both : (a b : Bool) → (not a && not b) ≡ not (a || b)
      both true b = refl
      both false b = refl
