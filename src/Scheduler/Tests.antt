-- ===== src/Scheduler/Tests.antt =====
-- Examples for src/client/module/scheduler.cpp: callbacks that add their number to the world, which
-- is also the clock.
use w3m.Prelude.{ℕ, ◌+◌, ◌≡◌, ◌++◌, refl, inl, inr, false, [], ◌∷◌, In}
use w3m.Prelude.Outcome.{returns}
use w3m.Scheduler.{
  Task, Pipeline, Callbacks, looped, once, execute, execute_tasks, is_early, keep_task, next_round,
  after_call, call_handler, merge_callbacks,
}
use w3m.Scheduler.Loops.{loops, execute-loops}

abbrev counting : Callbacks ℕ ℕ
counting = record { clock = λ s. s; run = λ h s. (s + h, [], returns false) }

abbrev ticking : Task ℕ
ticking = record { handler = looped 1; interval = 0; last_call = 0 }

abbrev waiting : Task ℕ
waiting = record { handler = once 2; interval = 100; last_call = 0 }

abbrev pipeline : Pipeline ℕ
pipeline = record { new_callbacks = waiting ∷ []; callbacks = ticking ∷ [] }

execute-loops_example :
    loops (execute counting pipeline 5).0.callbacks ≡ loops (ticking ∷ []) ++ loops (waiting ∷ [])
execute-loops_example = execute-loops counting pipeline 5

execute-returns : (execute counting pipeline 5).2 ≡ returns tt
unfolding execute execute_tasks is_early keep_task next_round after_call call_handler
    merge_callbacks
execute-returns = refl

waiting_left : In waiting (execute counting pipeline 5).0.callbacks
unfolding execute execute_tasks is_early keep_task next_round after_call call_handler
    merge_callbacks
waiting_left = inr (inl refl)
