-- ===== src/Updater/HostBinary.antt =====
-- How `update_host_binary` of src/client/updater/file_updater.cpp leaves the program's own file.
use mathlib.Core.Path.{subst}
use w3m.Prelude.{
  ℕ, zero, suc, ◌≤◌, ◌≡◌, ◌≢◌, refl, sym, ap, ◌∙◌, fun_ext, ◌⊎◌, inl, inr, true, List, [], ◌∷◌,
  ◌++◌, Option, none, some, arith, length, length-append, All, bytes_eq, bytes_eq→eq, Bool-cases,
}
use w3m.Prelude.Outcome.{Exception, update_cancelled}
use w3m.Updater.{
  FileInfo, Files, put_file, Updater, Answer, get_drive_filename, is_current, Worker, checking,
  fetching, working, failed, finished, Shared, Download, worker_step, pick, started, Steps, start,
  later, Updates, cancelled, joined, find_host_file_info, host_binary,
  get_optimal_concurrent_download_count, move_current_process_file, restore_current_process_file,
  UpdateHostBinary, not_listed, relaunched, restored,
}
use w3m.Updater.Files.{put_file_self, put_file_ne, update_file-cases}
use w3m.Updater.Verified.{Updates-verified}
use w3m.Updater.Completion.{Updates-complete}

one_thread : (cores : ℕ) → get_optimal_concurrent_download_count cores 1 ≡ 1
unfolding get_optimal_concurrent_download_count
one_thread cores = ground arith

singleton-middle :
    {A : Type 0} (x : A) (before : List A) (w : A) (after : List A)
    → x ∷ [] ≡ before ++ (w ∷ after)
    → (before ≡ []) × (w ≡ x) × (after ≡ [])
singleton-middle x [] w after e = (refl, cc, cc)
singleton-middle x (b ∷ before) w after e =
    absurd (omega (arith, ap length e, length-append before (w ∷ after)))

module _ (u : Updater) (host : FileInfo) (old : Files) where
  -- The one thread of the update of one file: whether the file was written, and how it will end.
  abbrev Phase : Worker → Shared → Type 0
  Phase checking s = (s.exception ≡ none) × ((s.files ≡ old) ⊎ (1 ≤ s.current_index))
  Phase fetching s = (s.exception ≡ none) × ((s.files ≡ old) ⊎ (1 ≤ s.current_index))
  Phase (working file) s = (s.exception ≡ none) × (s.files ≡ old) × (1 ≤ s.current_index)
  Phase (failed e) s = s.files ≡ old
  Phase finished s = (s.files ≡ old) ⊎ (s.exception ≡ none)

  fetch-Phase :
      (s : Shared)
      → Phase fetching s
      → (i : ℕ) → s.current_index ≡ i
      → (answer : Answer)
      → Phase
          (worker_step u (host ∷ []) answer fetching s).1
          (worker_step u (host ∷ []) answer fetching s).0
  unfolding worker_step
  fetch-Phase s (fine, inl same) zero p answer = rw p (fine, same, omega arith)
  fetch-Phase s (fine, inr le) zero p answer = absurd (omega arith)
  fetch-Phase s (fine, taken) (suc i) p answer = rw p (inr fine)

  worker_step-Phase :
      (answer : Answer) (w : Worker) (s : Shared)
      → Phase w s
      → Phase (worker_step u (host ∷ []) answer w s).1 (worker_step u (host ∷ []) answer w s).0
  worker_step-Phase answer checking s (fine, taken) = unfold worker_step in rw fine (refl, taken)
  worker_step-Phase answer fetching s h = fetch-Phase s h s.current_index refl answer
  worker_step-Phase answer (working file) s (fine, same, le) =
      unfold worker_step in
      elim (update_file-cases u file answer s.files) [
        | inl (x, q) ↦ rw q same
        | inr (contents, good, q) ↦ rw q (fine, inr le)
      ]
  worker_step-Phase answer (failed x) s same = unfold worker_step in inl same
  worker_step-Phase answer finished s h = unfold worker_step in h

  Steps-Phase :
      (n : ℕ) (d : Download)
      → Steps u (host ∷ []) old n d
      → (w : Worker) × (d.workers ≡ w ∷ []) × Phase w d.shared
  unfolding started
  Steps-Phase _ _ start = (checking, rw (one_thread u.hardware_concurrency), (refl, inl refl))
  Steps-Phase _ _ (later {n} {answer} {d} steps (pick before w after e ne)) =
      let (x, one, phase) = Steps-Phase n d steps in
      let (first, same, last) = singleton-middle x before w after (sym one ∙ e) in
      (
        _,
        rw (first, last),
        worker_step-Phase answer w d.shared (subst (λ y. Phase y d.shared) (sym same) phase),
      )

  failed-unchanged :
      (files' : Files) (result : Option Exception)
      → Updates u (host ∷ []) old files' result
      → (e : Exception) → result ≡ some e
      → files' ≡ old
  failed-unchanged _ _ (cancelled x) e p = refl
  failed-unchanged _ _ (joined {n} {d} steps ends) e p =
      let (w, one, phase) = Steps-Phase n d steps in
      let last : w ≡ finished = (subst (All (λ x. x ≡ finished)) one ends).0 in
      elim (subst (λ y. Phase y d.shared) last phase) [
        | inl same ↦ same
        | inr fine ↦ let clash : some e ≡ none = sym p ∙ fine in cc
      ]

find_host_file_info-name :
    (files : List FileInfo) (host : FileInfo)
    → find_host_file_info files ≡ some host
    → bytes_eq host.name host_binary ≡ true
unfolding find_host_file_info
find_host_file_info-name [] host e = cc
find_host_file_info-name (file ∷ files) host e =
    elim (Bool-cases (bytes_eq file.name host_binary)) [
      | inl b ↦
          let found : some file ≡ some host = rw b at e in
          subst (λ f. bytes_eq f.name host_binary ≡ true)
            (ap (λ o. elim o [ none ↦ file | some f ↦ f ]) found) b
      | inr b ↦ find_host_file_info-name files host (rw b at e)
    ]

-- What the two outcomes leave: what the disk keeps of a new program that passed the check, and beside it the old one, whose
-- contents are given; or all files as they were before.
abbrev pub HostOutcome : Updater → Files → FileInfo → List ℕ → Files → Type 0
HostOutcome u files host contents files' =
    ((new : List ℕ) × (files' u.process_file ≡ some (u.stores u.process_file new))
      × (is_current u host new ≡ true)
      × (files' u.dead_process_file ≡ some contents))
    ⊎ (files' ≡ files)

module _ (u : Updater) (outdated_files : List FileInfo) (files : Files) (host : FileInfo)
    (contents : List ℕ) (listed : find_host_file_info outdated_files ≡ some host)
    (apart : u.process_file ≢ u.dead_process_file) (running : files u.process_file ≡ some contents)
    (unused : files u.dead_process_file ≡ none)
    (moves : u.can_move u.process_file u.dead_process_file ≡ true)
    (moves_back : u.can_move u.dead_process_file u.process_file ≡ true) where
  abbrev moved : Files
  moved = put_file u.dead_process_file (some contents) (put_file u.process_file none files)

  moved_lem : move_current_process_file u files ≡ moved
  unfolding move_current_process_file
  moved_lem = rw (running, unused, moves)

  moved-process : moved u.process_file ≡ none
  moved-process =
      put_file_ne u.process_file u.dead_process_file (some contents)
        (put_file u.process_file none files) apart
      ∙ put_file_self u.process_file none files

  moved-dead : moved u.dead_process_file ≡ some contents
  moved-dead =
      put_file_self u.dead_process_file (some contents) (put_file u.process_file none files)

  moved_back : Files
  moved_back = put_file u.process_file (some contents) (put_file u.dead_process_file none moved)

  moved_back-same : (p : List ℕ) → moved_back p ≡ files p
  unfolding moved_back
  moved_back-same p = elim (Bool-cases (bytes_eq p u.process_file)) [
    | inl e ↦ rw e (sym running ∙ ap files (sym (bytes_eq→eq p u.process_file e)))
    | inr e ↦ elim (Bool-cases (bytes_eq p u.dead_process_file)) [
      | inl d ↦ rw (e, d) (sym unused ∙ ap files (sym (bytes_eq→eq p u.dead_process_file d)))
      | inr d ↦ rw (e, d)
    ]
  ]

  restored_lem : restore_current_process_file u moved ≡ files
  unfolding restore_current_process_file moved_back
  restored_lem = rw (moved-dead, moved-process, moves_back) (fun_ext moved_back-same)

  drive_lem : get_drive_filename u host ≡ u.process_file
  unfolding get_drive_filename
  drive_lem = rw (find_host_file_info-name outdated_files host listed)

  relaunched-outcome :
      (files' : Files)
      → Updates u (host ∷ []) moved files' none
      → HostOutcome u files host contents files'
  relaunched-outcome files' h =
      let (g, new, only, path, there, good) = (Updates-complete u (host ∷ []) moved files' h).0 in
      elim only [
        | inl same ↦ inl (
          new,
          subst (λ p. files' p ≡ some (u.stores p new)) drive_lem there,
          subst (λ f. is_current u f new ≡ true) (sym same) good,
          elim (Updates-verified u (host ∷ []) moved files' none h u.dead_process_file) [
            | inl kept ↦ kept ∙ moved-dead
            | inr (f, c, one, to, _, _) ↦ elim one [
              | inl is_host ↦
                  absurd (apart (sym drive_lem ∙ ap (get_drive_filename u) is_host ∙ to))
              | inr m ↦ absurd m
            ]
          ],
        )
        | inr m ↦ absurd m
      ]

  -- Where the program's own file is outdated, its file is there, the path for the old one is another,
  -- nothing stands at it, and the system moves the file there and back: `update_host_binary` always
  -- ends with an exception, and either what the disk keeps of a new program, which passed the check,
  -- stands in place of the old one and the old one at the path for it, or every file is as it was
  -- before the call.
  pub update_host_binary_lem :
      (files' : Files) (result : Option Exception)
      → UpdateHostBinary u outdated_files files files' result
      → ((e : Exception) × (result ≡ some e)) × HostOutcome u files host contents files'
  update_host_binary_lem _ _ (not_listed absent) =
      let clash : some host ≡ none = sym listed ∙ absent in cc
  update_host_binary_lem files' _ (relaunched {host_file} found h) =
      let same : host_file ≡ host = same_host host_file found in
      (
        (update_cancelled, refl),
        relaunched-outcome files' (
            subst (λ x. Updates u (host ∷ []) x files' none) moved_lem
              (subst (λ f. Updates u (f ∷ []) (move_current_process_file u files) files' none) same
                h)),
      )
    where
      same_host : (f : FileInfo) → find_host_file_info outdated_files ≡ some f → f ≡ host
      same_host f e = ap (λ o. elim o [ none ↦ host | some g ↦ g ]) (sym e ∙ listed)
  update_host_binary_lem _ _ (restored {host_file} {files'} {e} found h) =
      let h' = subst (λ x. Updates u (host_file ∷ []) x files' (some e)) moved_lem h in
      let unchanged : files' ≡ moved =
        failed-unchanged u host_file moved files' (some e) h' e refl in
      ((e, refl), inr (ap (restore_current_process_file u) unchanged ∙ restored_lem))
