-- ===== src/Cleanup/Tests.antt =====
-- Runs of the cleaning of directories of src/client/updater/file_updater.cpp.
use w3m.Prelude.{
  ℕ, ◌≡◌, refl, sym, ◌∙◌, ◌⊎◌, inl, inr, Bool, true, false, not, ◌&&◌, ◌||◌, List, [], ◌∷◌, In,
  keep, Bool-cases, codes, bytes_eq,
}
use w3m.Updater.{FileInfo}
use w3m.Cleanup.{
  Entry, Tree, to_path, path_eq, is_prefix, any_of, in_data, absolute, cleanup_directories,
  remove_all,
}
use w3m.Cleanup.Paths.{path_eq→eq, is_prefix_trans, none_of}
use w3m.Cleanup.Legal.{same_entry}
use w3m.Cleanup.Kept.{AllPlain, is_listed, is_below_wanted, cleanup_directories_lem}

abbrev file : List (List ℕ) → Entry
file path = record { path = path; is_folder = false }

abbrev folder : List (List ℕ) → Entry
folder path = record { path = path; is_folder = true }

abbrev listed : List ℕ → FileInfo
listed name = record { name = name; size = 0; hash = [] }

abbrev files : List FileInfo
files = listed (codes "w3m.exe") ∷ listed (codes "data/s/b") ∷ []

abbrev tree : Tree
tree =
    file (codes "w3m.exe" ∷ [])
    ∷ file (codes "old" ∷ [])
    ∷ folder (codes "user" ∷ [])
    ∷ file (codes "user" ∷ codes "x" ∷ [])
    ∷ folder (codes "data" ∷ [])
    ∷ file (codes "data" ∷ codes "a" ∷ [])
    ∷ folder (codes "data" ∷ codes "s" ∷ [])
    ∷ file (codes "data" ∷ codes "s" ∷ codes "b" ∷ [])
    ∷ []

cleaned :
    cleanup_directories (λ path. false) files tree
    ≡ file (codes "w3m.exe" ∷ [])
      ∷ folder (codes "user" ∷ [])
      ∷ file (codes "user" ∷ codes "x" ∷ [])
      ∷ folder (codes "data" ∷ [])
      ∷ folder (codes "data" ∷ codes "s" ∷ [])
      ∷ file (codes "data" ∷ codes "s" ∷ codes "b" ∷ [])
      ∷ []
unfolding cleanup_directories to_path absolute bytes_eq path_eq remove_all is_prefix
cleaned = refl

-- `e` lies below a file, or is another entry at its path.
misplaced : Entry → Entry → Bool
misplaced e0 e =
    is_prefix e0.path e.path
    && (not e0.is_folder && not (path_eq e0.path e.path && not e.is_folder))

tree-checked : any_of (λ e0. any_of (misplaced e0) tree) tree ≡ false
unfolding any_of misplaced is_prefix path_eq bytes_eq
tree-checked = refl

tree-folders :
    (e e0 : Entry)
    → In e tree
    → In e0 tree
    → is_prefix e0.path e.path ≡ true
    → (e0.is_folder ≡ true) ⊎ (e0 ≡ e)
unfolding misplaced
tree-folders e e0 m m0 below =
    let inner = none_of (λ e0. any_of (misplaced e0) tree) tree tree-checked e0 m0 in
    let fine = none_of (misplaced e0) tree inner e m in
    elim (Bool-cases e0.is_folder) [
      | inl f ↦ inl f
      | inr f ↦ elim (Bool-cases (path_eq e0.path e.path)) [
        | inl p ↦ elim (Bool-cases e.is_folder) [
          | inr g ↦ inr (same_entry e0 e (path_eq→eq e0.path e.path p) (f ∙ sym g))
          | inl g ↦ let clash : true ≡ false = rw (below, f, p, g) at fine in cc
        ]
        | inr p ↦ let clash : true ≡ false = rw (below, f, p) at fine in cc
      ]
    ]

-- The system does not remove the file `old`.
abbrev in_use : List (List ℕ) → Bool
in_use path = is_prefix path (codes "old" ∷ [])

in_use-upward : (p q : List (List ℕ)) → is_prefix p q ≡ true → in_use q ≡ true → in_use p ≡ true
in_use-upward p q h k = is_prefix_trans p q (codes "old" ∷ []) h k

files-AllPlain : AllPlain files
unfolding absolute to_path bytes_eq
files-AllPlain = ((refl, tt), ((refl, (refl, (refl, tt))), tt))

cleanup_directories_lem_example :
    cleanup_directories in_use files tree
    ≡ keep
        (λ e.
          in_use e.path
          || (is_below_wanted files tree e && (not (in_data e.path) || is_listed files e)))
        tree
cleanup_directories_lem_example =
    cleanup_directories_lem in_use in_use-upward files tree tree-folders files-AllPlain
