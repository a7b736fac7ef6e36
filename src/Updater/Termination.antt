-- ===== src/Updater/Termination.antt =====
-- Why the threads of `update_files` in src/client/updater/file_updater.cpp come to their ends.
use w3m.Prelude.{
  ℕ, zero, suc, ◌+◌, ◌-◌, ◌*◌, ◌≤◌, ◌<◌, ◌≡◌, ◌≢◌, refl, ap, ◌⊎◌, inl, inr, List, [], ◌∷◌, ◌++◌,
  some, arith, length, get_elem?, replicate, All, Option-cases,
}
use w3m.Updater.{
  FileInfo, Files, Updater, Answer, Worker, checking, fetching, working, failed, finished, Shared,
  Download, worker_step, Step, pick, started, Steps, start, later, IsFinished,
  get_optimal_concurrent_download_count,
}
use w3m.Updater.Files.{update_file-cases}
use w3m.Updater.Invariant.{length-le_of_none}

-- How many steps a thread has left when it finds no index any more.
abbrev rest : Worker → ℕ
rest finished = 0
rest (failed e) = 1
rest fetching = 1
rest checking = 2
rest (working file) = 3

abbrev rests : List Worker → ℕ
rests [] = 0
rests (w ∷ workers) = rest w + rests workers

rests-replaced :
    (before : List Worker) (w w' : Worker) (after : List Worker)
    → rests (before ++ (w' ∷ after)) + rest w ≡ rests (before ++ (w ∷ after)) + rest w'
rests-replaced [] w w' after = omega arith
rests-replaced (b ∷ before) w w' after = omega (arith, rests-replaced before w w' after)

length-gt_of_some :
    {A : Type 0} (xs : List A) (i : ℕ) (a : A) → get_elem? xs i ≡ some a → i < length xs
length-gt_of_some [] i a e = cc
length-gt_of_some (x ∷ xs) zero a e = omega arith
length-gt_of_some (x ∷ xs) (suc i) a e = omega (arith, length-gt_of_some xs i a e)

module _ (u : Updater) (infos : List FileInfo) where
  abbrev left : Shared → ℕ
  left s = 3 * (length infos - s.current_index)

  worker_step-decreases :
      (answer : Answer) (w : Worker) (s : Shared)
      → w ≢ finished
      → rest (worker_step u infos answer w s).1 + left (worker_step u infos answer w s).0
        < rest w + left s
  unfolding worker_step
  worker_step-decreases answer checking s ne = elim (Option-cases s.exception) [
    | inl e ↦ rw e (omega arith)
    | inr (x, e) ↦ rw e (omega arith)
  ]
  worker_step-decreases answer fetching s ne =
      elim (Option-cases (get_elem? infos s.current_index)) [
        | inl e ↦ rw e (omega (arith, length-le_of_none infos s.current_index e))
        | inr (file, e) ↦ rw e (omega (arith, length-gt_of_some infos s.current_index file e))
      ]
  worker_step-decreases answer (working file) s ne =
      elim (update_file-cases u file answer s.files) [
        | inl (x, e) ↦ rw e (omega arith)
        | inr (contents, good, e) ↦ rw e (omega arith)
      ]
  worker_step-decreases answer (failed x) s ne = omega arith
  worker_step-decreases answer finished s ne = absurd (ne refl)

  measure : Download → ℕ
  measure d = rests d.workers + left d.shared

  measure-Step :
      (answer : Answer) (d e : Download) → Step u infos answer d e → measure e < measure d
  unfolding measure
  measure-Step answer d _ (pick before w after p ne) = omega (
    arith,
    worker_step-decreases answer w d.shared ne,
    rests-replaced before w (worker_step u infos answer w d.shared).1 after,
    ap rests p,
  )

  rests-replicate : (n : ℕ) → rests (replicate n checking) ≡ 2 * n
  rests-replicate zero = omega arith
  rests-replicate (suc n) = omega (arith, rests-replicate n)

  threads : ℕ
  threads = get_optimal_concurrent_download_count u.hardware_concurrency (length infos)

  Steps-measure :
      (files : Files) (n : ℕ) (d : Download)
      → Steps u infos files n d
      → n + measure d ≤ 2 * threads + 3 * length infos
  unfolding measure started threads
  Steps-measure files _ _ start = omega (arith, rests-replicate threads)
  Steps-measure files _ _ (later {n} {answer} {d} {e} steps step) =
      omega (arith, Steps-measure files n d steps, measure-Step answer d e step)

  Movable : List Worker → Type 0
  Movable workers =
      (before : List Worker) × (w : Worker) × (after : List Worker) × (workers
        ≡ before ++ (w ∷ after))
      × (w ≢ finished)

  is_finished : (w : Worker) → (w ≡ finished) ⊎ (w ≢ finished)
  is_finished checking = inr λ e. cc
  is_finished fetching = inr λ e. cc
  is_finished (working file) = inr λ e. cc
  is_finished (failed x) = inr λ e. cc
  is_finished finished = inl refl

  some-Movable : (workers : List Worker) → All (λ w. w ≡ finished) workers ⊎ Movable workers
  unfolding Movable
  some-Movable [] = inl tt
  some-Movable (w ∷ workers) = elim (is_finished w) [
    | inr ne ↦ inr ([], w, workers, refl, ne)
    | inl e ↦ elim (some-Movable workers) [
      | inl all ↦ inl (e, all)
      | inr (before, v, after, p, ne) ↦ inr (w ∷ before, v, after, ap (◌∷◌ w) p, ne)
    ]
  ]

  -- However the threads are interleaved and whatever the network answers, they take no more than two
  -- steps for each thread and three for each file, and until all threads are at their ends one of
  -- them can take a step, with any answer: every update comes to its end.
  pub Steps-terminates :
      (files : Files) (n : ℕ) (d : Download)
      → Steps u infos files n d
      → (answer : Answer)
      → (n
          ≤ 2 * get_optimal_concurrent_download_count u.hardware_concurrency (length infos)
            + 3 * length infos)
        × (IsFinished u infos d ⊎ ((e : Download) × Step u infos answer d e))
  unfolding Movable threads
  Steps-terminates files n d steps answer =
      let bound = Steps-measure files n d steps in
      (
        omega arith,
        elim (some-Movable d.workers) [
          | inl all ↦ inl all
          | inr (before, w, after, p, ne) ↦ inr (_, pick before w after p ne)
        ],
      )
