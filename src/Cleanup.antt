-- ===== src/Cleanup.antt =====
-- The cleaning of directories in src/client/updater/file_updater.cpp, on the tree below the base
-- directory: a list of its files and folders, each with the components of its path below the base.
-- No path is a symbolic link.
pub mod Paths
pub mod Sweep
pub mod Legal
pub mod Kept
pub mod Tests
use w3m.Prelude.{
  ℕ, Bool, true, false, not, ◌&&◌, ◌||◌, List, [], ◌∷◌, ◌++◌, ◌==◌, if◌then◌else◌, length,
  replicate, keep, map, is_empty, take, bytes_eq, codes,
}
use w3m.Updater.{FileInfo}

pub record Entry : Type 0 where
  pub path : List (List ℕ)
  pub is_folder : Bool

abbrev pub Tree : Type 0
Tree = List Entry

abbrev pub cons_component : ℕ → List (List ℕ) → List (List ℕ)
cons_component c [] = (c ∷ []) ∷ []
cons_component c (component ∷ path) = (c ∷ component) ∷ path

-- The path that a text is converted to.
unfoldable pub to_path : List ℕ → List (List ℕ)
to_path [] = [] ∷ []
to_path (c ∷ name) =
    let rest = to_path name in if c == b'/' || c == b'\\' then [] ∷ rest else cons_component c rest

-- `operator==` of paths
unfoldable pub path_eq : List (List ℕ) → List (List ℕ) → Bool
path_eq [] [] = true
path_eq [] (d ∷ other) = false
path_eq (c ∷ path) [] = false
path_eq (c ∷ path) (d ∷ other) = bytes_eq c d && path_eq path other

unfoldable pub is_prefix : List (List ℕ) → List (List ℕ) → Bool
is_prefix [] path = true
is_prefix (c ∷ folder) [] = false
is_prefix (c ∷ folder) (d ∷ path) = bytes_eq c d && is_prefix folder path

unfoldable pub any_of {ℓ} : {A : Type ℓ} → (A → Bool) → List A → Bool
any_of test [] = false
any_of test (x ∷ xs) = test x || any_of test xs

-- What is left of both paths behind their common beginning, as `std::filesystem::relative` puts it
-- together.
abbrev pub join_relative : List (List ℕ) → List (List ℕ) → List (List ℕ)
join_relative [] [] = codes "." ∷ []
join_relative (c ∷ file) folder = replicate (length folder) (codes "..") ++ (c ∷ file)
join_relative [] (d ∷ folder) = replicate (length (d ∷ folder)) (codes "..")

unfoldable pub relative : List (List ℕ) → List (List ℕ) → List (List ℕ)
relative [] folder = join_relative [] folder
relative (c ∷ file) [] = join_relative (c ∷ file) []
relative (c ∷ file) (d ∷ folder) =
    let rest = relative file folder in
    if bytes_eq c d then rest else join_relative (c ∷ file) (d ∷ folder)

abbrev pub leads_inside : List (List ℕ) → Bool
leads_inside [] = false
leads_inside (start ∷ path) = not (bytes_eq start (codes ".."))

unfoldable pub is_inside_folder : List (List ℕ) → List (List ℕ) → Bool
unfolding relative
is_inside_folder file folder = leads_inside (relative file folder)

unfoldable pub is_directory : List (List ℕ) → Tree → Bool
is_directory path tree = any_of (λ e. path_eq e.path path && e.is_folder) tree

unfoldable pub is_regular_file : List (List ℕ) → Tree → Bool
is_regular_file path tree = any_of (λ e. path_eq e.path path && not e.is_folder) tree

-- `list_files(this->base_)`
abbrev pub at_root : List (List ℕ) → Bool
at_root path = length path == 1

-- `list_files(base / "data", true)`
abbrev pub in_data : List (List ℕ) → Bool
in_data [] = false
in_data (c ∷ []) = false
in_data (c ∷ d ∷ path) = bytes_eq c (codes "data")

unfoldable pub is_legal_root : List FileInfo → Tree → List (List ℕ) → Bool
unfolding is_directory any_of
is_legal_root files tree entry =
    ((path_eq entry (codes "user" ∷ []) || path_eq entry (codes "data" ∷ []))
      && is_directory entry tree)
    || any_of (λ file. path_eq (to_path file.name) entry) files

-- One step up, which may lead out of the base directory.
unfoldable pub step_up : List (List ℕ) → List (List ℕ)
step_up [] = codes ".." ∷ []
step_up (c ∷ []) = if bytes_eq c (codes "..") then c ∷ codes ".." ∷ [] else []
step_up (c ∷ d ∷ path) = c ∷ step_up (d ∷ path)

-- The components of an absolute path behind the base: `.` and what repeated separators make are
-- dropped, but not a separator at the end, and `..` takes a component away.
unfoldable pub follow_steps : List (List ℕ) → List (List ℕ) → List (List ℕ)
unfolding step_up
follow_steps done [] = done
follow_steps done ([] ∷ []) = done ++ ([] ∷ [])
follow_steps done (c ∷ path) =
    follow_steps
      (if is_empty c || bytes_eq c (codes ".")
        then done
        else if bytes_eq c (codes "..")
        then step_up done
        else done ++ (c ∷ []))
      path

-- `std::filesystem::absolute`, but for the dots and blanks at the end of a component.
unfoldable pub absolute : List (List ℕ) → List (List ℕ)
unfolding follow_steps
absolute path = follow_steps [] path

-- `starts_with("data")`
unfoldable pub legal_files : List FileInfo → List (List (List ℕ))
legal_files files =
    map (λ file. absolute (to_path file.name))
      (keep (λ file. bytes_eq (take 4 file.name) (codes "data")) files)

unfoldable pub is_legal_data : List FileInfo → Tree → List (List ℕ) → Bool
unfolding is_directory is_regular_file is_inside_folder legal_files any_of
is_legal_data files tree entry =
    any_of
      (λ legal_file.
        (is_directory entry tree && is_inside_folder legal_file entry)
        || (is_regular_file entry tree && path_eq legal_file entry))
      (legal_files files)

-- `refuses` says at which paths the system does not remove what stands there, or does not get to it;
-- the error is dropped.
module _ (refuses : List (List ℕ) → Bool) where
  -- `std::filesystem::remove_all`
  unfoldable pub remove_all : List (List ℕ) → Tree → Tree
  remove_all path tree = keep (λ e. not (is_prefix path e.path && not (refuses e.path))) tree

  -- A loop over the entries that were listed before it, with what is left of the tree: `legal` says
  -- which are skipped, all others are removed.
  unfoldable pub sweep : (Tree → List (List ℕ) → Bool) → List Entry → Tree → Tree
  sweep legal [] tree = tree
  sweep legal (e ∷ existing_files) tree =
      sweep legal existing_files (if legal tree e.path then tree else remove_all e.path tree)

  unfoldable pub cleanup_root_directory : List FileInfo → Tree → Tree
  unfolding sweep is_legal_root
  cleanup_root_directory files tree =
      sweep (is_legal_root files) (keep (λ e. at_root e.path) tree) tree

  unfoldable pub cleanup_data_directory : List FileInfo → Tree → Tree
  unfolding sweep is_legal_data
  cleanup_data_directory files tree =
      sweep (is_legal_data files) (keep (λ e. in_data e.path) tree) tree

  -- `cleanup_directories`, where the base directory exists.
  unfoldable pub cleanup_directories : List FileInfo → Tree → Tree
  unfolding cleanup_root_directory cleanup_data_directory
  cleanup_directories files tree = cleanup_data_directory files (cleanup_root_directory files tree)
