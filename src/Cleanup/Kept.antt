-- ===== src/Cleanup/Kept.antt =====
-- What the cleaning of directories in src/client/updater/file_updater.cpp leaves.
use w3m.Prelude.{
  ℕ, ◌≡◌, sym, ap, ◌∙◌, ◌⊎◌, inl, inr, Bool, true, false, not, ◌&&◌, ◌||◌, List, [], ◌∷◌, All, In,
  keep, refl, In-keep, take, codes, Bool-cases, bytes_eq, bytes_eq→eq,
}
use w3m.Updater.{FileInfo}
use w3m.Cleanup.{
  Entry, Tree, path_eq, is_prefix, any_of, at_root, in_data, is_legal_root, cleanup_root_directory,
  legal_files, absolute, to_path, is_legal_data, cleanup_data_directory, cleanup_directories,
}
use w3m.Cleanup.Paths.{
  path_eq→eq, is_prefix_refl, is_prefix_trans, IsPlain, any_of-In, any_of-true, any_of-false,
}
use w3m.Cleanup.Sweep.{keep_ext_In, keep-keep, is_spared, survives-refuses, IsPart, sweep-keep}
use w3m.Cleanup.Legal.{is_wanted, is_wanted_root, is_legal_root-entry, is_legal_data-entry}

module _ (files : List FileInfo) (tree : Tree)
    (folders : (e e0 : Entry)
      → In e tree
      → In e0 tree
      → is_prefix e0.path e.path ≡ true
      → (e0.is_folder ≡ true) ⊎ (e0 ≡ e)) where
  in_data_below : (p q : List (List ℕ)) → in_data p ≡ true → is_prefix p q ≡ true → in_data q ≡ true
  unfolding is_prefix
  in_data_below [] q h k = cc
  in_data_below (c ∷ []) q h k = cc
  in_data_below (c ∷ d ∷ p) [] h k = cc
  in_data_below (c ∷ d ∷ p) (c' ∷ []) h k = elim (Bool-cases (bytes_eq c c')) [
    | inl e ↦ let clash : false ≡ true = rw e at k in cc
    | inr e ↦ let clash : false ≡ true = rw e at k in cc
  ]
  in_data_below (c ∷ d ∷ p) (c' ∷ d' ∷ q) h k = elim (Bool-cases (bytes_eq c c')) [
    | inl e ↦ rw (← bytes_eq→eq c c' e) h
    | inr e ↦ let clash : false ≡ true = rw e at k in cc
  ]

  -- A folder above a wanted entry is wanted.
  is_wanted-above :
      (e e0 : Entry)
      → In e tree
      → In e0 tree
      → is_prefix e0.path e.path ≡ true
      → is_wanted files e ≡ true
      → is_wanted files e0 ≡ true
  is_wanted-above e e0 m m0 below w = elim (folders e e0 m m0 below) [
    | inr same ↦ rw same w
    | inl folder ↦
        let (l, n, t) = any_of-true _ (legal_files files) w in
        any_of-In _ (legal_files files) l n
          (rw (folder, is_prefix_trans e0.path e.path l below (reaches l t)))
  ]
    where
      reaches :
          (l : List (List ℕ))
          → ((e.is_folder && is_prefix e.path l) || (not e.is_folder && path_eq l e.path)) ≡ true
          → is_prefix e.path l ≡ true
      reaches l t = elim (Bool-cases e.is_folder) [
        | inl f ↦ elim (Bool-cases (is_prefix e.path l)) [
          | inl p ↦ p
          | inr p ↦ let clash : false ≡ true = rw (f, p) at t in cc
        ]
        | inr f ↦ rw (path_eq→eq l e.path (rw f at t)) (is_prefix_refl e.path)
      ]

  snapshot-IsPart : (p : Entry → Bool) → IsPart (keep p tree) tree
  snapshot-IsPart p e m = ((In-keep p e tree).0 m).0

  is_spared-is_wanted :
      (e : Entry)
      → In e tree
      → is_spared (is_wanted files) (keep (λ d. in_data d.path) tree) e
        ≡ (not (in_data e.path) || is_wanted files e)
  is_spared-is_wanted e m = elim (Bool-cases (in_data e.path)) [
    | inr outside ↦
        rw outside
          (ap not (any_of-false _ (keep (λ d. in_data d.path) tree) (λ d n. apart outside d n)))
    | inl inside ↦ elim (Bool-cases (is_wanted files e)) [
      | inl w ↦
          rw (inside, w)
            (ap not (any_of-false _ (keep (λ d. in_data d.path) tree) (λ d n. spared w d n)))
      | inr w ↦
          rw (inside, w)
            (ap not (
              any_of-In _ (keep (λ d. in_data d.path) tree) e
                ((In-keep (λ d. in_data d.path) e tree).1 (m, inside))
                (rw (w, is_prefix_refl e.path))))
    ]
  ]
    where
      apart :
          in_data e.path ≡ false
          → (d : Entry) → In d (keep (λ d. in_data d.path) tree)
          → (not (is_wanted files d) && is_prefix d.path e.path) ≡ false
      apart outside d n = elim (Bool-cases (is_prefix d.path e.path)) [
        | inl p ↦
            let here = ((In-keep (λ d. in_data d.path) d tree).0 n).1 in
            let clash : false ≡ true = sym outside ∙ in_data_below d.path e.path here p in cc
        | inr p ↦ elim (Bool-cases (is_wanted files d)) [ inl w ↦ rw w | inr w ↦ rw (w, p) ]
      ]

      spared :
          is_wanted files e ≡ true
          → (d : Entry) → In d (keep (λ d. in_data d.path) tree)
          → (not (is_wanted files d) && is_prefix d.path e.path) ≡ false
      spared w d n = elim (Bool-cases (is_prefix d.path e.path)) [
        | inl p ↦
            let wanted = is_wanted-above e d m (snapshot-IsPart (λ d. in_data d.path) d n) p w in
            rw wanted
        | inr p ↦ elim (Bool-cases (is_wanted files d)) [ inl v ↦ rw v | inr v ↦ rw (v, p) ]
      ]

  module _ (refuses : List (List ℕ) → Bool)
      (upward : (p q : List (List ℕ))
        → is_prefix p q ≡ true
        → refuses q ≡ true
        → refuses p ≡ true) where
    -- The cleaning of the data directory leaves exactly what the system refuses to remove, what is not
    -- below it, the files that the list names, and the folders that one of those lies in.
    cleanup_data_directory_lem :
        All IsPlain (legal_files files)
        → cleanup_data_directory refuses files tree
          ≡ keep (λ e. refuses e.path || (not (in_data e.path) || is_wanted files e)) tree
    unfolding cleanup_data_directory
    cleanup_data_directory_lem plain =
        sweep-keep refuses upward (is_legal_data files) (is_wanted files) tree
          (λ t part e m. is_legal_data-entry files tree folders t part e m plain)
          (keep (λ e. in_data e.path) tree) tree (snapshot-IsPart (λ e. in_data e.path)) (λ e m. m)
          (λ e e0 m m0 p. m0)
        ∙ keep_ext_In _ _ tree (λ e m.
          survives-refuses refuses (is_wanted files) (keep (λ d. in_data d.path) tree) e
          ∙ ap (λ b. refuses e.path || b) (is_spared-is_wanted e m))

    -- In a tree where only folders have something below them, the cleaning of the base directory
    -- removes exactly what the system does not refuse to remove and is, or lies in, an entry of that
    -- directory that is neither its folder `user` or `data` nor named by the list.
    cleanup_root_directory_lem :
        cleanup_root_directory refuses files tree
        ≡ keep
            (λ e.
              refuses e.path
              || is_spared (is_wanted_root files) (keep (λ e0. at_root e0.path) tree) e)
            tree
    unfolding cleanup_root_directory
    cleanup_root_directory_lem =
        sweep-keep refuses upward (is_legal_root files) (is_wanted_root files) tree
          (λ t part e m. is_legal_root-entry files tree folders t part e m)
          (keep (λ e. at_root e.path) tree) tree (snapshot-IsPart (λ e. at_root e.path)) (λ e m. m)
          (λ e e0 m m0 p. m0)
        ∙ keep_ext_In _ _ tree (λ e m.
          survives-refuses refuses (is_wanted_root files) (keep (λ d. at_root d.path) tree) e)

-- Neither the entry nor a folder above it is an entry of the base directory that is not wanted.
abbrev pub is_below_wanted : List FileInfo → Tree → Entry → Bool
is_below_wanted files tree e = not (
    any_of (λ e0. not (is_wanted_root files e0) && is_prefix e0.path e.path)
      (keep (λ e0. at_root e0.path) tree))

-- A file at the path of a name of the list that begins with `data`, or a folder above such a path.
abbrev pub is_listed : List FileInfo → Entry → Bool
is_listed files e =
    any_of
      (λ file.
        bytes_eq (take 4 file.name) (codes "data")
        && ((e.is_folder && is_prefix e.path (absolute (to_path file.name)))
            || (not e.is_folder && path_eq (absolute (to_path file.name)) e.path)))
      files

is_wanted-is_listed : (files : List FileInfo) (e : Entry) → is_wanted files e ≡ is_listed files e
unfolding legal_files any_of
is_wanted-is_listed [] e = refl
is_wanted-is_listed (file ∷ files) e =
    elim (Bool-cases (bytes_eq (take 4 file.name) (codes "data"))) [
      | inl d ↦ rw d (
          ap
            (λ b.
              ((e.is_folder && is_prefix e.path (absolute (to_path file.name)))
                || (not e.is_folder && path_eq (absolute (to_path file.name)) e.path))
              || b)
            (is_wanted-is_listed files e))
      | inr d ↦ rw d (is_wanted-is_listed files e)
    ]

-- No path of a name of the list steps up, out of the base directory.
abbrev pub AllPlain : List FileInfo → Type 0
AllPlain files = All (λ file. IsPlain (absolute (to_path file.name))) files

legal_files-AllPlain : (files : List FileInfo) → AllPlain files → All IsPlain (legal_files files)
unfolding legal_files
legal_files-AllPlain [] h = tt
legal_files-AllPlain (file ∷ files) (first, rest) =
    elim (Bool-cases (bytes_eq (take 4 file.name) (codes "data"))) [
      | inl d ↦ rw d (first, legal_files-AllPlain files rest)
      | inr d ↦ rw d (legal_files-AllPlain files rest)
    ]

both_refused : (r a b : Bool) → ((r || a) && (r || b)) ≡ (r || (a && b))
both_refused true a b = refl
both_refused false a b = refl

module _ (refuses : List (List ℕ) → Bool)
    (upward : (p q : List (List ℕ)) → is_prefix p q ≡ true → refuses q ≡ true → refuses p ≡ true)
    (files : List FileInfo) (tree : Tree)
    (folders : (e e0 : Entry)
      → In e tree
      → In e0 tree
      → is_prefix e0.path e.path ≡ true
      → (e0.is_folder ≡ true) ⊎ (e0 ≡ e)) where
  -- In a tree where only folders have something below them, where the system removes no folder in which
  -- something stays, and for a list of which no path leads out of the base directory: what the system
  -- refuses to remove, or does not get to, stays. Of the rest, the cleaning removes exactly two kinds
  -- of entries: those that are, or lie in, an entry of the base directory that is neither its folder
  -- `user` or `data` nor named by the list, and those in the data directory that are neither files at
  -- the path of a name of the list that begins with `data` nor folders above such a path.
  pub cleanup_directories_lem :
      AllPlain files
      → cleanup_directories refuses files tree
        ≡ keep
            (λ e.
              refuses e.path
              || (is_below_wanted files tree e && (not (in_data e.path) || is_listed files e)))
            tree
  unfolding cleanup_directories
  cleanup_directories_lem plain =
      ap (cleanup_data_directory refuses files)
        (cleanup_root_directory_lem files tree folders refuses upward)
      ∙ cleanup_data_directory_lem files
          (keep (λ e. refuses e.path || is_below_wanted files tree e) tree)
          (λ e e0 m m0. folders e e0 (inside e m) (inside e0 m0)) refuses upward
          (legal_files-AllPlain files plain)
      ∙ keep-keep (λ e. refuses e.path || is_below_wanted files tree e) _ tree
      ∙ keep_ext_In _ _ tree (λ e m.
        both_refused (refuses e.path) (is_below_wanted files tree e)
          (not (in_data e.path) || is_wanted files e)
        ∙ ap (λ b. refuses e.path || (is_below_wanted files tree e && (not (in_data e.path) || b)))
            (is_wanted-is_listed files e))
    where
      inside : IsPart (keep (λ e. refuses e.path || is_below_wanted files tree e) tree) tree
      inside e m = ((In-keep (λ e. refuses e.path || is_below_wanted files tree e) e tree).0 m).0
