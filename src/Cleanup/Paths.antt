-- ===== src/Cleanup/Paths.antt =====
-- Paths that begin with the path of a folder, for src/client/updater/file_updater.cpp.
use w3m.Prelude.{
  ℕ, ◌≡◌, refl, sym, ap, ◌∙◌, inl, inr, Bool, true, false, List, [], ◌∷◌, arith, All, In, bytes_eq,
  bytes_eq_refl, bytes_eq→eq, codes, Bool-cases,
}
use w3m.Cleanup.{path_eq, is_prefix, any_of, is_inside_folder}

bytes_eq_sym : (s t : List ℕ) → bytes_eq s t ≡ bytes_eq t s
bytes_eq_sym s t = elim (Bool-cases (bytes_eq s t)) [
  | inl e ↦ rw (bytes_eq→eq s t e)
  | inr e ↦ elim (Bool-cases (bytes_eq t s)) [ inl f ↦ rw (bytes_eq→eq t s f) | inr f ↦ e ∙ sym f ]
]

pub path_eq_refl : (p : List (List ℕ)) → path_eq p p ≡ true
unfolding path_eq
path_eq_refl [] = refl
path_eq_refl (c ∷ p) = rw (bytes_eq_refl c) (path_eq_refl p)

pub path_eq→eq : (p q : List (List ℕ)) → path_eq p q ≡ true → p ≡ q
unfolding path_eq
path_eq→eq [] [] h = refl
path_eq→eq [] (d ∷ q) h = cc
path_eq→eq (c ∷ p) [] h = cc
path_eq→eq (c ∷ p) (d ∷ q) h = ground (arith, path_eq→eq p q, bytes_eq→eq c d)

pub is_prefix_refl : (p : List (List ℕ)) → is_prefix p p ≡ true
unfolding is_prefix
is_prefix_refl [] = refl
is_prefix_refl (c ∷ p) = rw (bytes_eq_refl c) (is_prefix_refl p)

pub is_prefix_trans :
    (p q r : List (List ℕ)) → is_prefix p q ≡ true → is_prefix q r ≡ true → is_prefix p r ≡ true
unfolding is_prefix
is_prefix_trans [] q r h k = refl
is_prefix_trans (c ∷ p) [] r h k = cc
is_prefix_trans (c ∷ p) (d ∷ q) [] h k = cc
is_prefix_trans (c ∷ p) (d ∷ q) (e ∷ r) h k = elim (Bool-cases (bytes_eq c d)) [
  | inl same ↦ elim (Bool-cases (bytes_eq d e)) [
    | inl same' ↦
        rw (bytes_eq→eq c d same, same') (is_prefix_trans p q r (rw same at h) (rw same' at k))
    | inr other ↦ let clash : false ≡ true = rw other at k in cc
  ]
  | inr other ↦ let clash : false ≡ true = rw other at h in cc
]

abbrev pub IsPlain : List (List ℕ) → Type 0
IsPlain path = All (λ c. bytes_eq c (codes "..") ≡ false) path

-- A path with no step up in it leads inside a folder exactly when it begins with the folder's path.
pub is_inside_folder-is_prefix :
    (file folder : List (List ℕ))
    → IsPlain file
    → is_inside_folder file folder ≡ is_prefix folder file
unfolding is_inside_folder is_prefix
is_inside_folder-is_prefix [] [] plain = unfold bytes_eq in refl
is_inside_folder-is_prefix [] (d ∷ folder) plain = rw (bytes_eq_refl (codes ".."))
is_inside_folder-is_prefix (c ∷ file) [] plain = rw plain.0
is_inside_folder-is_prefix (c ∷ file) (d ∷ folder) plain = elim (Bool-cases (bytes_eq c d)) [
  | inl e ↦ rw (bytes_eq_sym d c, e) (is_inside_folder-is_prefix file folder plain.1)
  | inr e ↦ rw (bytes_eq_sym d c, e, bytes_eq_refl (codes ".."))
]

module _ {A : Type 0} (test : A → Bool) where
  pub any_of-In : (xs : List A) (x : A) → In x xs → test x ≡ true → any_of test xs ≡ true
  unfolding any_of
  any_of-In (y ∷ xs) x (inl e) h = rw (ap test e ∙ h)
  any_of-In (y ∷ xs) x (inr m) h = elim (Bool-cases (test y)) [
    | inl e ↦ rw e
    | inr e ↦ rw e (any_of-In xs x m h)
  ]
  any_of-In [] x m h = absurd m

  pub any_of-true : (xs : List A) → any_of test xs ≡ true → (x : A) × In x xs × (test x ≡ true)
  unfolding any_of
  any_of-true [] h = cc
  any_of-true (y ∷ xs) h = elim (Bool-cases (test y)) [
    | inl e ↦ (y, inl refl, e)
    | inr e ↦ let (x, m, t) = any_of-true xs (rw e at h) in (x, inr m, t)
  ]

  pub any_of-false : (xs : List A) → ((x : A) → In x xs → test x ≡ false) → any_of test xs ≡ false
  unfolding any_of
  any_of-false [] h = refl
  any_of-false (y ∷ xs) h = rw (h y (inl refl)) (any_of-false xs (λ x m. h x (inr m)))

  pub none_of : (xs : List A) → any_of test xs ≡ false → (x : A) → In x xs → test x ≡ false
  none_of xs h x m = elim (Bool-cases (test x)) [
    | inl e ↦ let clash : true ≡ false = sym (any_of-In xs x m e) ∙ h in cc
    | inr e ↦ e
  ]
