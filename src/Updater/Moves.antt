-- ===== src/Updater/Moves.antt =====
-- What one step of a thread of `update_files` in src/client/updater/file_updater.cpp changes.
use mathlib.Core.Path.{subst}
use w3m.Prelude.{
  ℕ, ◌≤◌, ◌≡◌, ◌≢◌, refl, ap, inl, inr, List, ◌∷◌, ◌++◌, Option, none, some, arith, take, get_elem?,
  All, bytes_eq, bytes_eq_refl, Bool-cases, Option-cases,
}
use w3m.Prelude.Outcome.{Exception}
use w3m.Updater.{
  FileInfo, Updater, Answer, get_drive_filename, Worker, checking, fetching, working, failed,
  finished, Shared, worker_step,
}
use w3m.Updater.Files.{update_file-cases}
use w3m.Updater.Verified.{IsVerified, IsListed, put_file-IsVerified}
use w3m.Updater.Invariant.{
  In-middle, All-take_some, All-take_none, length-le_of_none, IsCovered, IsOver,
}

abbrev file_of : Worker → Option FileInfo
file_of checking = none
file_of fetching = none
file_of (working file) = some file
file_of (failed e) = none
file_of finished = none

file_of_injective : (f g : FileInfo) → working f ≡ working g → f ≡ g
file_of_injective f g e = ap (λ w. elim (file_of w) [ none ↦ f | some h ↦ h ]) e

module _ (u : Updater) (infos : List FileInfo) (answer : Answer) where
  pub exception-stays :
      (w : Worker) (s : Shared) (e : Exception)
      → s.exception ≡ some e
      → (x : Exception) × ((worker_step u infos answer w s).0.exception ≡ some x)
  unfolding worker_step
  exception-stays checking s e p = (e, p)
  exception-stays fetching s e p = elim (Option-cases (get_elem? infos s.current_index)) [
    | inl q ↦ rw q (e, p)
    | inr (file, q) ↦ rw q (e, p)
  ]
  exception-stays (working file) s e p = elim (update_file-cases u file answer s.files) [
    | inl (x, q) ↦ rw q (e, p)
    | inr (contents, good, q) ↦ rw q (e, p)
  ]
  exception-stays (failed x) s e p = (x, refl)
  exception-stays finished s e p = (e, p)

  pub exception-handed_over :
      (w : Worker) (s : Shared) (e : Exception)
      → w ≡ failed e
      → (x : Exception) × ((worker_step u infos answer w s).0.exception ≡ some x)
  unfolding worker_step
  exception-handed_over w s e p = rw p (e, refl)

  pub current_index-le :
      (w : Worker) (s : Shared) → s.current_index ≤ (worker_step u infos answer w s).0.current_index
  unfolding worker_step
  current_index-le checking s = omega arith
  current_index-le fetching s = elim (Option-cases (get_elem? infos s.current_index)) [
    | inl q ↦ rw q (omega arith)
    | inr (file, q) ↦ rw q (omega arith)
  ]
  current_index-le (working file) s = elim (update_file-cases u file answer s.files) [
    | inl (x, q) ↦ rw q (omega arith)
    | inr (contents, good, q) ↦ rw q (omega arith)
  ]
  current_index-le (failed x) s = omega arith
  current_index-le finished s = omega arith

  pub IsVerified-stays :
      (w : Worker) (s : Shared) (path : List ℕ)
      → IsListed u infos w
      → IsVerified u infos path (s.files path)
      → IsVerified u infos path ((worker_step u infos answer w s).0.files path)
  unfolding worker_step
  IsVerified-stays checking s path listed v = v
  IsVerified-stays fetching s path listed v =
      elim (Option-cases (get_elem? infos s.current_index)) [
        | inl q ↦ rw q v
        | inr (file, q) ↦ rw q v
      ]
  IsVerified-stays (working file) s path listed v = elim (update_file-cases u file answer s.files) [
    | inl (x, q) ↦ rw q v
    | inr (contents, good, q) ↦ elim (Bool-cases (bytes_eq path (get_drive_filename u file))) [
      | inl e ↦ rw q (put_file-IsVerified u infos file contents path s.files listed good e)
      | inr e ↦ rw (q, e) v
    ]
  ]
  IsVerified-stays (failed x) s path listed v = v
  IsVerified-stays finished s path listed v = v

  -- Where a thread leaves its file.
  pub own_file :
      (before after : List Worker) (w : Worker) (s : Shared) (file : FileInfo)
      → IsListed u infos w
      → w ≡ working file
      → IsCovered u infos
          (worker_step u infos answer w s).0
          (before ++ ((worker_step u infos answer w s).1 ∷ after))
          file
  unfolding worker_step
  own_file before after w s file listed p =
      let listed' = subst (IsListed u infos) p listed in
      elim (update_file-cases u file answer s.files) [
        | inl (x, q) ↦ rw (p, q) (inr (inr (x, inr (In-middle before (failed x) after))))
        | inr (contents, good, q) ↦
            rw (p, q)
              (inl (
                put_file-IsVerified u infos file contents (get_drive_filename u file) s.files
                  listed' good (bytes_eq_refl (get_drive_filename u file))))
      ]

  -- A thread ends where an exception is stored or the list is exhausted.
  pub over :
      (before after : List Worker) (w : Worker) (s : Shared)
      → w ≢ finished
      → (worker_step u infos answer w s).1 ≡ finished
      → IsOver u infos
          (worker_step u infos answer w s).0
          (before ++ ((worker_step u infos answer w s).1 ∷ after))
  unfolding worker_step
  over before after checking s ne p = elim (Option-cases s.exception) [
    | inl q ↦ let no_end : fetching ≡ finished = rw q at p in cc
    | inr (x, q) ↦ inl (x, inl q)
  ]
  over before after fetching s ne p = elim (Option-cases (get_elem? infos s.current_index)) [
    | inl q ↦ rw q (inr (omega (arith, length-le_of_none infos s.current_index q)))
    | inr (file, q) ↦ let no_end : working file ≡ finished = rw q at p in cc
  ]
  over before after (working file) s ne p = elim (update_file-cases u file answer s.files) [
    | inl (x, q) ↦ let no_end : failed x ≡ finished = rw q at p in cc
    | inr (contents, good, q) ↦ let no_end : checking ≡ finished = rw q at p in cc
  ]
  over before after (failed x) s ne p = inl (x, inl refl)
  over before after finished s ne p = absurd (ne refl)

  -- The indices below the current one, after a step.
  pub taken-covered :
      (w : Worker) (s : Shared) (P : FileInfo → Type 0)
      → ((file : FileInfo) → (worker_step u infos answer w s).1 ≡ working file → P file)
      → All P (take s.current_index infos)
      → All P (take (worker_step u infos answer w s).0.current_index infos)
  unfolding worker_step
  taken-covered checking s P new h = h
  taken-covered fetching s P new h = elim (Option-cases (get_elem? infos s.current_index)) [
    | inl q ↦ rw q (All-take_none P infos s.current_index q h)
    | inr (file, q) ↦ rw q (All-take_some P infos s.current_index file q (new file (rw q)) h)
  ]
  taken-covered (working file) s P new h = elim (update_file-cases u file answer s.files) [
    | inl (x, q) ↦ rw q h
    | inr (contents, good, q) ↦ rw q h
  ]
  taken-covered (failed x) s P new h = h
  taken-covered finished s P new h = h
