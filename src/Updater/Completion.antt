-- ===== src/Updater/Completion.antt =====
-- When `update_files` of src/client/updater/file_updater.cpp ends without an exception, every file of
-- its list is on the disk.
use mathlib.Core.Path.{subst}
use w3m.Prelude.{
  ℕ, zero, suc, ◌≤◌, ◌≡◌, refl, sym, ◌∙◌, inl, inr, true, false, List, [], ◌∷◌, ◌++◌, Option, none,
  some, arith, length, take, replicate, All, In, is_empty,
}
use w3m.Prelude.Outcome.{Exception}
use w3m.Updater.{
  FileInfo, Files, Updater, Answer, get_drive_filename, is_current, Worker, checking, working,
  failed, finished, Shared, Download, worker_step, Step, pick, started, Steps, start, later,
  Updates, cancelled, joined, get_optimal_concurrent_download_count,
}
use w3m.Updater.Verified.{All-middle, IsVerified, IsListed, Steps-IsListed}
use w3m.Updater.Invariant.{
  In-replaced, In-middle, All-imp, All-take_all, IsFailing, IsCovered, IsOver, IsOver-carried,
  IsCovered-carried,
}
use w3m.Updater.Moves.{
  exception-stays, exception-handed_over, current_index-le, IsVerified-stays, own_file, over,
  taken-covered,
}

module _ (u : Updater) (infos : List FileInfo) where
  record IsSound (d : Download) : Type 0 where
    covered : All (IsCovered u infos d.shared d.workers) (take d.shared.current_index infos)
    ended : In finished d.workers → IsOver u infos d.shared d.workers
    some_thread : is_empty d.workers ≡ false

  replicate-finished : (n : ℕ) → In finished (replicate n checking) → ⊥
  replicate-finished zero h = h
  replicate-finished (suc n) (inl e) = cc
  replicate-finished (suc n) (inr m) = replicate-finished n m

  is_empty-replicate : (n : ℕ) → 1 ≤ n → is_empty (replicate n checking) ≡ false
  is_empty-replicate zero h = absurd (omega arith)
  is_empty-replicate (suc n) h = refl

  download_count-positive :
      (cores count : ℕ) → 1 ≤ get_optimal_concurrent_download_count cores count
  unfolding get_optimal_concurrent_download_count
  download_count-positive cores count = ground arith

  started-IsSound : (files : Files) → IsSound (started u infos files)
  unfolding started
  started-IsSound files = record {
    covered = tt;
    ended = λ h. absurd (replicate-finished _ h);
    some_thread =
        is_empty-replicate _ (download_count-positive u.hardware_concurrency (length infos));
  }

  is_empty-middle :
      (before : List Worker) (w : Worker) (after : List Worker)
      → is_empty (before ++ (w ∷ after)) ≡ false
  is_empty-middle [] w after = refl
  is_empty-middle (b ∷ before) w after = refl

  Step-IsSound :
      (answer : Answer) (d e : Download)
      → All (IsListed u infos) d.workers
      → IsSound d
      → Step u infos answer d e
      → IsSound e
  Step-IsSound answer d _ listed sound (pick before w after e ne) =
      let s = d.shared in
      let listed' =
        All-middle (IsListed u infos) before w after (subst (All (IsListed u infos)) e listed) in
      let stays = exception-stays u infos answer w s in
      let hands = exception-handed_over u infos answer w s in
      let w' = (worker_step u infos answer w s).1 in
      let s' = (worker_step u infos answer w s).0 in
      record {
        covered =
            taken-covered u infos answer w s (IsCovered u infos s' (before ++ (w' ∷ after)))
              (λ file q.
                inr
                  (inl (subst (λ x. In x (before ++ (w' ∷ after))) q (In-middle before w' after))))
              (All-imp (IsCovered u infos s d.workers)
                (IsCovered u infos s' (before ++ (w' ∷ after))) _
                (λ file c.
                  IsCovered-carried u infos before after w w' s s' stays hands file
                    (IsVerified-stays u infos answer w s (get_drive_filename u file) listed')
                    (own_file u infos answer before after w s file listed')
                    (subst (λ ws. IsCovered u infos s ws file) e c))
                sound.covered);
        ended = λ h. elim (In-replaced finished before w' w after h) [
          | inl p ↦ over u infos answer before after w s ne p
          | inr m ↦
              IsOver-carried u infos before after w w' s s' stays hands
                (current_index-le u infos answer w s)
                (subst (IsOver u infos s) e (sound.ended (subst (In finished) (sym e) m)))
        ];
        some_thread = is_empty-middle before w' after;
      }

  Steps-IsSound : (files : Files) (n : ℕ) (d : Download) → Steps u infos files n d → IsSound d
  Steps-IsSound files _ _ start = started-IsSound files
  Steps-IsSound files _ _ (later {n} {answer} {d} {e} steps step) =
      Step-IsSound answer d e (Steps-IsListed u infos files n d steps)
        (Steps-IsSound files n d steps) step

  In-finished :
      (w : Worker) (workers : List Worker)
      → In w workers
      → All (λ x. x ≡ finished) workers
      → w ≡ finished
  In-finished w (x ∷ workers) (inl e) h = sym e ∙ h.0
  In-finished w (x ∷ workers) (inr m) h = In-finished w workers m h.1
  In-finished w [] m h = absurd m

  some_finished :
      (workers : List Worker)
      → is_empty workers ≡ false
      → All (λ x. x ≡ finished) workers
      → In finished workers
  some_finished [] e h = cc
  some_finished (w ∷ workers) e h = inl h.0

  module _ (s : Shared) (workers : List Worker) (ends : All (λ w. w ≡ finished) workers)
      (fine : s.exception ≡ none) where
    not_failing : IsFailing u infos s workers → ⊥
    not_failing (e, inl p) = let clash : some e ≡ none = sym p ∙ fine in cc
    not_failing (e, inr m) = let clash = In-finished (failed e) workers m ends in cc

    covered-IsVerified :
        (file : FileInfo)
        → IsCovered u infos s workers file
        → IsVerified u infos (get_drive_filename u file) (s.files (get_drive_filename u file))
    covered-IsVerified file (inl v) = v
    covered-IsVerified file (inr (inl m)) =
        let clash = In-finished (working file) workers m ends in cc
    covered-IsVerified file (inr (inr f)) = absurd (not_failing f)

    over-all : IsOver u infos s workers → length infos ≤ s.current_index
    over-all (inl f) = absurd (not_failing f)
    over-all (inr le) = le

  abbrev AllVerified : Files → Type 0
  AllVerified files' =
      All
        (λ file.
          IsVerified u infos (get_drive_filename u file) (files' (get_drive_filename u file)))
        infos

  Updates-verified_all :
      (files files' : Files) (result : Option Exception)
      → Updates u infos files files' result
      → result ≡ none
      → AllVerified files'
  Updates-verified_all files _ _ (cancelled e) p = cc
  Updates-verified_all files _ _ (joined {n} {d} steps ends) p =
      let sound = Steps-IsSound files n d steps in
      let ended = sound.ended (some_finished d.workers sound.some_thread ends) in
      All-take_all _ infos d.shared.current_index (over-all d.shared d.workers ends p ended) (
        All-imp (IsCovered u infos d.shared d.workers) _ (take d.shared.current_index infos)
          (covered-IsVerified d.shared d.workers ends p) sound.covered)

  -- Where an update ends without an exception, whatever the network answered and in whatever order
  -- the threads ran, the path of every file of the list holds what the disk keeps there of contents
  -- with the size and the hash of a file of the list with that path.
  pub Updates-complete :
      (files files' : Files)
      → Updates u infos files files' none
      → All
          (λ file.
            (g : FileInfo) × (contents : List ℕ) × In g infos
            × (get_drive_filename u g ≡ get_drive_filename u file)
            × (files' (get_drive_filename u file)
                ≡ some (u.stores (get_drive_filename u file) contents))
            × (is_current u g contents ≡ true))
          infos
  Updates-complete files files' h = Updates-verified_all files files' none h refl
