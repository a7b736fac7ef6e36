-- ===== src/Updater/Files.antt =====
-- What the update of one file in src/client/updater/file_updater.cpp changes.
use w3m.Prelude.{
  ℕ, ◌≡◌, ◌≢◌, refl, sym, ap, ◌∙◌, ◌⊎◌, inl, inr, Bool, true, false, ◌&&◌, List, Option, none, some,
  length, ◌==◌, if◌then◌else◌, bytes_eq, bytes_eq_refl, bytes_eq→eq, Bool-cases,
}
use w3m.Prelude.Outcome.{Exception, failed_to_download}
use w3m.Updater.{
  FileInfo, Files, put_file, Updater, Answer, received, raised, get_drive_filename, is_current,
  is_outdated_file, is_outdated_on, write_file, update_file, host_binary,
}

pub put_file_self :
    (path : List ℕ) (contents : Option (List ℕ)) (files : Files)
    → put_file path contents files path ≡ contents
put_file_self path contents files = rw (bytes_eq_refl path)

pub bytes_eq-ne : (p q : List ℕ) → p ≢ q → bytes_eq p q ≡ false
bytes_eq-ne p q h = elim (Bool-cases (bytes_eq p q)) [
  | inl e ↦ absurd (h (bytes_eq→eq p q e))
  | inr e ↦ e
]

pub put_file_ne :
    (p path : List ℕ) (contents : Option (List ℕ)) (files : Files)
    → p ≢ path
    → put_file path contents files p ≡ files p
put_file_ne p path contents files h = rw (bytes_eq-ne p path h)

module _ (u : Updater) where
  -- A call either throws and changes nothing, or writes contents that were checked, of
  -- which the file then has what the disk keeps.
  abbrev pub Updated : FileInfo → Files → Files × Option Exception → Type 0
  Updated file files result =
      ((e : Exception) × (result ≡ (files, some e)))
      ⊎ ((contents : List ℕ) × (is_current u file contents ≡ true)
          × (result ≡ (
            put_file (get_drive_filename u file)
                (some (u.stores (get_drive_filename u file) contents)) files,
            none,
          )))

  pub update_file-cases :
      (file : FileInfo) (answer : Answer) (files : Files)
      → Updated file files (update_file u file answer files)
  unfolding update_file write_file
  update_file-cases file (raised e) files = inl (e, refl)
  update_file-cases file (received none) files = inl (failed_to_download, refl)
  update_file-cases file (received (some contents)) files =
      elim (Bool-cases (is_current u file contents)) [
        | inl e ↦ elim (Bool-cases (u.can_open (get_drive_filename u file))) [
          | inl o ↦ rw (e, o) (inr (contents, e, refl))
          | inr o ↦ rw (e, o) (inl (_, refl))
        ]
        | inr e ↦ rw e (inl (_, refl))
      ]

  abbrev outdated_by : FileInfo → Option (List ℕ) → Bool
  outdated_by file contents =
      if u.keeps_host && bytes_eq file.name host_binary
      then false
      else is_outdated_on u file contents

  is_outdated_file-path :
      (file : FileInfo) (files : Files)
      → is_outdated_file u file files ≡ outdated_by file (files (get_drive_filename u file))
  unfolding is_outdated_file
  is_outdated_file-path file files = refl

  is_outdated_on-current :
      (file : FileInfo) (contents : List ℕ)
      → is_current u file contents ≡ true
      → is_outdated_on u file (some contents) ≡ false
  unfolding is_current
  is_outdated_on-current file contents e = elim (Bool-cases (length contents == file.size)) [
    | inl b ↦ let same : bytes_eq (u.get_hash contents) file.hash ≡ true = rw b at e in rw (b, same)
    | inr b ↦ let no_size : false ≡ true = rw b at e in cc
  ]

  -- Contents that pass the check are not outdated.
  pub is_outdated_file-current :
      (file : FileInfo) (files : Files) (contents : List ℕ)
      → files (get_drive_filename u file) ≡ some contents
      → is_current u file contents ≡ true
      → is_outdated_file u file files ≡ false
  is_outdated_file-current file files contents h e =
      is_outdated_file-path file files
      ∙ rw (h, is_outdated_on-current file contents e)
          (elim (Bool-cases (u.keeps_host && bytes_eq file.name host_binary)) [
            | inl b ↦ rw b
            | inr b ↦ rw b
          ])

  -- A file is outdated or not by what is at its path.
  pub is_outdated_file-same :
      (file : FileInfo) (files other : Files)
      → files (get_drive_filename u file) ≡ other (get_drive_filename u file)
      → is_outdated_file u file files ≡ is_outdated_file u file other
  is_outdated_file-same file files other h =
      is_outdated_file-path file files
      ∙ ap (outdated_by file) h
      ∙ sym (is_outdated_file-path file other)
