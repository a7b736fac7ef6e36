-- ===== src/Cleanup/Legal.antt =====
-- Which entries the two loops of src/client/updater/file_updater.cpp that clean directories spare.
use mathlib.Core.Path.{subst}
use w3m.Prelude.{
  ◌≡◌, refl, sym, ap, ◌∙◌, ◌⊎◌, inl, inr, Bool, true, false, not, ◌&&◌, ◌||◌, List, [], ◌∷◌, All,
  In, Bool-cases, codes,
}
use w3m.Updater.{FileInfo}
use w3m.Cleanup.{
  Entry, Tree, to_path, path_eq, is_prefix, any_of, is_directory, is_regular_file, is_legal_root,
  legal_files, is_legal_data,
}
use w3m.Cleanup.Paths.{
  path_eq_refl, path_eq→eq, is_prefix_refl, IsPlain, is_inside_folder-is_prefix, any_of-In,
  any_of-false,
}
use w3m.Cleanup.Sweep.{IsPart}

module _ {A : Type 0} where
  any_of_ext_In :
      (p q : A → Bool) (xs : List A) → ((x : A) → In x xs → p x ≡ q x) → any_of p xs ≡ any_of q xs
  unfolding any_of
  any_of_ext_In p q [] h = refl
  any_of_ext_In p q (x ∷ xs) h = rw (h x (inl refl), any_of_ext_In p q xs (λ y m. h y (inr m)))

All-In_at : {A : Type 0} (P : A → Type 0) (xs : List A) (x : A) → In x xs → All P xs → P x
All-In_at P (y ∷ xs) x (inl e) h = subst P e h.0
All-In_at P (y ∷ xs) x (inr m) h = All-In_at P xs x m h.1
All-In_at P [] x m h = absurd m

pub same_entry : (d e : Entry) → d.path ≡ e.path → d.is_folder ≡ e.is_folder → d ≡ e
same_entry d e p q = λ i. record { path = p i; is_folder = q i }

module _ (files : List FileInfo) where
  -- A file that the list names, or a folder that holds one. The names count that begin with `data`.
  abbrev pub is_wanted : Entry → Bool
  is_wanted e =
      any_of
        (λ legal_file.
          (e.is_folder && is_prefix e.path legal_file)
          || (not e.is_folder && path_eq legal_file e.path))
        (legal_files files)

  -- An entry of the base directory that is one of its two folders or that the list names.
  abbrev pub is_wanted_root : Entry → Bool
  is_wanted_root e =
      ((path_eq e.path (codes "user" ∷ []) || path_eq e.path (codes "data" ∷ [])) && e.is_folder)
      || any_of (λ file. path_eq (to_path file.name) e.path) files

module _ (files : List FileInfo) (tree : Tree)
    (folders : (e e0 : Entry)
      → In e tree
      → In e0 tree
      → is_prefix e0.path e.path ≡ true
      → (e0.is_folder ≡ true) ⊎ (e0 ≡ e)) where
  same_path : (d e : Entry) → In d tree → In e tree → path_eq d.path e.path ≡ true → d ≡ e
  same_path d e md me h =
      let p = path_eq→eq d.path e.path h in
      let above = subst (λ x. is_prefix x e.path ≡ true) (sym p) (is_prefix_refl e.path) in
      let below = subst (λ x. is_prefix e.path x ≡ true) (sym p) (is_prefix_refl e.path) in
      elim (folders e d me md above) [
        | inr q ↦ q
        | inl f ↦ elim (folders d e md me below) [
          | inr q ↦ sym q
          | inl g ↦ same_entry d e p (f ∙ sym g)
        ]
      ]

  module _ (t : Tree) (part : IsPart t tree) (e : Entry) (m : In e t) where
    is_directory-entry : is_directory e.path t ≡ e.is_folder
    unfolding is_directory
    is_directory-entry = elim (Bool-cases e.is_folder) [
      | inl f ↦ any_of-In _ t e m (rw (path_eq_refl e.path, f)) ∙ sym f
      | inr f ↦ any_of-false _ t (λ d n. other d n f) ∙ sym f
    ]
      where
        other :
            (d : Entry)
            → In d t
            → e.is_folder ≡ false
            → (path_eq d.path e.path && d.is_folder) ≡ false
        other d n f = elim (Bool-cases (path_eq d.path e.path)) [
          | inl h ↦ rw h (ap (λ x. x.is_folder) (same_path d e (part d n) (part e m) h) ∙ f)
          | inr h ↦ rw h
        ]

    is_regular_file-entry : is_regular_file e.path t ≡ not e.is_folder
    unfolding is_regular_file
    is_regular_file-entry = elim (Bool-cases e.is_folder) [
      | inl f ↦ any_of-false _ t (λ d n. other d n f) ∙ ap not (sym f)
      | inr f ↦ any_of-In _ t e m (rw (path_eq_refl e.path, f)) ∙ ap not (sym f)
    ]
      where
        other :
            (d : Entry)
            → In d t
            → e.is_folder ≡ true
            → (path_eq d.path e.path && not d.is_folder) ≡ false
        other d n f = elim (Bool-cases (path_eq d.path e.path)) [
          | inl h ↦
              rw h (ap (λ x. not x.is_folder) (same_path d e (part d n) (part e m) h) ∙ ap not f)
          | inr h ↦ rw h
        ]

    pub is_legal_root-entry : is_legal_root files t e.path ≡ is_wanted_root files e
    unfolding is_legal_root
    is_legal_root-entry = rw is_directory-entry

    pub is_legal_data-entry :
        All IsPlain (legal_files files) → is_legal_data files t e.path ≡ is_wanted files e
    unfolding is_legal_data
    is_legal_data-entry plain = any_of_ext_In _ _ (legal_files files) (λ l n. rw (
      is_directory-entry,
      is_regular_file-entry,
      is_inside_folder-is_prefix l e.path (All-In_at IsPlain (legal_files files) l n plain),
    ))
