-- ===== src/Updater/Verified.antt =====
-- No thread of `update_files` in src/client/updater/file_updater.cpp writes contents that were not
-- checked, whatever the network answers and in whatever order the threads run.
use mathlib.Core.Path.{subst}
use w3m.Prelude.{
  ℕ, zero, suc, ◌≡◌, refl, sym, ap, ◌⊎◌, inl, inr, true, List, [], ◌∷◌, ◌++◌, Option, none, some,
  get_elem?, replicate, All, In, bytes_eq, bytes_eq→eq, Bool-cases, Option-cases,
}
use w3m.Prelude.Outcome.{Exception}
use w3m.Updater.{
  FileInfo, Files, put_file, Updater, Answer, get_drive_filename, is_current, Worker, checking,
  fetching, working, failed, finished, Shared, Download, worker_step, pick, started, Steps, start,
  later, Updates, cancelled, joined,
}
use w3m.Updater.Files.{update_file-cases}

module _ {A : Type 0} (P : A → Type 0) where
  pub All-middle : (before : List A) (a : A) (after : List A) → All P (before ++ (a ∷ after)) → P a
  All-middle [] a after h = h.0
  All-middle (b ∷ before) a after h = All-middle before a after h.1

  pub All-replaced :
      (before : List A) (a b : A) (after : List A)
      → P b
      → All P (before ++ (a ∷ after))
      → All P (before ++ (b ∷ after))
  All-replaced [] a b after hb h = (hb, h.1)
  All-replaced (c ∷ before) a b after hb h = (h.0, All-replaced before a b after hb h.1)

  pub All-replicate : (n : ℕ) (a : A) → P a → All P (replicate n a)
  All-replicate zero a h = tt
  All-replicate (suc n) a h = (h, All-replicate n a h)

pub In-get_elem? : {A : Type 0} (xs : List A) (i : ℕ) (a : A) → get_elem? xs i ≡ some a → In a xs
In-get_elem? [] i a h = cc
In-get_elem? (x ∷ xs) zero a h = inl (ap (λ o. elim o [ none ↦ x | some y ↦ y ]) h)
In-get_elem? (x ∷ xs) (suc i) a h = inr (In-get_elem? xs i a h)

module _ (u : Updater) (infos : List FileInfo) where
  -- The path is that of a file of the list and holds what the disk keeps of contents that
  -- pass the check of the file.
  abbrev pub IsVerified : List ℕ → Option (List ℕ) → Type 0
  IsVerified path there =
      (file : FileInfo) × (contents : List ℕ) × In file infos
      × (get_drive_filename u file ≡ path)
      × (there ≡ some (u.stores path contents))
      × (is_current u file contents ≡ true)

  abbrev IsKept : Files → Files → List ℕ → Type 0
  IsKept before after path = (after path ≡ before path) ⊎ IsVerified path (after path)

  abbrev pub IsListed : Worker → Type 0
  IsListed checking = Unit {0}
  IsListed fetching = Unit {0}
  IsListed (working file) = In file infos
  IsListed (failed e) = Unit {0}
  IsListed finished = Unit {0}

  pub put_file-IsVerified :
      (file : FileInfo) (contents path : List ℕ) (files : Files)
      → In file infos
      → is_current u file contents ≡ true
      → bytes_eq path (get_drive_filename u file) ≡ true
      → IsVerified path (
          put_file
            (get_drive_filename u file)
            (some (u.stores (get_drive_filename u file) contents))
            files
            path)
  put_file-IsVerified file contents path files listed good e = (
    file,
    contents,
    listed,
    sym (bytes_eq→eq _ _ e),
    rw e (ap (λ p. some (u.stores p contents)) (sym (bytes_eq→eq _ _ e))),
    good,
  )

  put_file-IsKept :
      (file : FileInfo) (contents path : List ℕ) (old files : Files)
      → In file infos
      → is_current u file contents ≡ true
      → IsKept old files path
      → IsKept old
          (put_file
            (get_drive_filename u file)
            (some (u.stores (get_drive_filename u file) contents))
            files)
          path
  put_file-IsKept file contents path old files listed good h =
      elim (Bool-cases (bytes_eq path (get_drive_filename u file))) [
        | inl e ↦ inr (put_file-IsVerified file contents path files listed good e)
        | inr e ↦ rw e h
      ]

  AllKept : Files → Files → Type 0
  AllKept old files = (path : List ℕ) → IsKept old files path

  worker_step-AllKept :
      (old : Files) (answer : Answer) (w : Worker) (s : Shared)
      → IsListed w
      → AllKept old s.files
      → AllKept old (worker_step u infos answer w s).0.files
        × IsListed (worker_step u infos answer w s).1
  unfolding worker_step AllKept
  worker_step-AllKept old answer checking s listed h = elim (Option-cases s.exception) [
    | inl e ↦ rw e (h, tt)
    | inr (x, e) ↦ rw e (h, tt)
  ]
  worker_step-AllKept old answer fetching s listed h =
      elim (Option-cases (get_elem? infos s.current_index)) [
        | inl e ↦ rw e (h, tt)
        | inr (file, e) ↦ rw e (h, In-get_elem? infos s.current_index file e)
      ]
  worker_step-AllKept old answer (working file) s listed h =
      elim (update_file-cases u file answer s.files) [
        | inl (x, e) ↦ rw e (h, tt)
        | inr (contents, good, e) ↦
            rw e (λ path. put_file-IsKept file contents path old s.files listed good (h path), tt)
      ]
  worker_step-AllKept old answer (failed x) s listed h = (h, tt)
  worker_step-AllKept old answer finished s listed h = (h, tt)

  Steps-AllKept :
      (old : Files) (n : ℕ) (d : Download)
      → Steps u infos old n d
      → AllKept old d.shared.files × All IsListed d.workers
  unfolding started AllKept
  Steps-AllKept old _ _ start = (λ path. inl refl, All-replicate IsListed _ checking tt)
  Steps-AllKept old _ _ (later {n} {answer} {d} steps (pick before w after e _)) =
      let (kept, listed) = Steps-AllKept old n d steps in
      let listed' = subst (All IsListed) e listed in
      let (kept', next) =
        worker_step-AllKept old answer w d.shared (All-middle IsListed before w after listed')
          kept in
      (kept', All-replaced IsListed before w _ after next listed')

  pub Steps-IsListed :
      (old : Files) (n : ℕ) (d : Download) → Steps u infos old n d → All IsListed d.workers
  Steps-IsListed old n d steps = (Steps-AllKept old n d steps).1

  -- Whatever the network answers, in whatever order the threads run, and whether or not the update
  -- ends with an exception: every path afterwards holds what it held before, or it is the path of a
  -- file of the list and holds what the disk keeps there of contents with the size and the hash of
  -- that file.
  pub Updates-verified :
      (files files' : Files) (result : Option Exception)
      → Updates u infos files files' result
      → (path : List ℕ)
      → (files' path ≡ files path)
        ⊎ ((file : FileInfo) × (contents : List ℕ) × In file infos
            × (get_drive_filename u file ≡ path)
            × (files' path ≡ some (u.stores path contents))
            × (is_current u file contents ≡ true))
  unfolding AllKept
  Updates-verified files _ _ (cancelled e) path = inl refl
  Updates-verified files _ _ (joined {n} {d} steps _) path = (Steps-AllKept files n d steps).0 path
