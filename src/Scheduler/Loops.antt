-- ===== src/Scheduler/Loops.antt =====
-- Which tasks an execution of a pipeline of src/client/module/scheduler.cpp leaves.
use w3m.Prelude.{
  ℕ, ◌≡◌, refl, sym, ap, ◌∙◌, ◌⊎◌, inl, inr, Bool, true, false, List, [], ◌∷◌, ◌++◌, Bool-cases, In,
}
use mathlib.Core.Path.{subst}
use w3m.Prelude.Outcome.{Outcome, returns, throws, terminates, undefined}
use w3m.Scheduler.{
  Handler, scheduled, looped, once, Task, Pipeline, Callbacks, and_return, cond_continue, cond_end,
  merge_callbacks, Round, keep_task, after_call, next_round, call_handler, is_early, execute_tasks,
  execute,
}

module _ {H : Type 0} where
  -- The callbacks of the tasks that `loop` made, in their order.
  abbrev pub of_handler : Handler H → List H → List H
  of_handler (scheduled h) rest = rest
  of_handler (looped h) rest = h ∷ rest
  of_handler (once h) rest = rest

  abbrev pub loops : List (Task H) → List H
  loops [] = []
  loops (task ∷ tasks) = of_handler task.handler (loops tasks)

  of_handler-append :
      (h : Handler H) (xs ys : List H) → of_handler h xs ++ ys ≡ of_handler h (xs ++ ys)
  of_handler-append (scheduled h) xs ys = refl
  of_handler-append (looped h) xs ys = refl
  of_handler-append (once h) xs ys = refl

  loops-append : (xs ys : List (Task H)) → loops (xs ++ ys) ≡ loops xs ++ loops ys
  loops-append [] ys = refl
  loops-append (task ∷ xs) ys =
      ap (of_handler task.handler) (loops-append xs ys)
      ∙ sym (of_handler-append task.handler (loops xs) (loops ys))

  -- A task that `once` made.
  abbrev pub IsOnce : Handler H → Type 0
  IsOnce (scheduled h) = ⊥
  IsOnce (looped h) = ⊥
  IsOnce (once h) = Unit {0}

module _ {H S : Type 0} (calls : Callbacks H S) where
  -- A task with a handler that is no loop may be dropped or kept.
  next_round-loops :
      (task : Task H) (tasks : List (Task H)) (next : S → Round calls)
      (r : S × List (Task H) × Outcome Bool)
      → ((xs : List H) → of_handler task.handler xs ≡ xs)
      → ((s : S) → loops (next s).left ≡ loops tasks)
      → loops (next_round calls task tasks next r).left ≡ loops tasks
  unfolding next_round keep_task after_call
  next_round-loops task tasks next (s, added, returns true) no_loop ih = ih s
  next_round-loops task tasks next (s, added, returns false) no_loop ih = no_loop _ ∙ ih s
  next_round-loops task tasks next (s, added, throws e) no_loop ih = no_loop _
  next_round-loops task tasks next (s, added, terminates) no_loop ih = no_loop _
  next_round-loops task tasks next (s, added, undefined) no_loop ih = no_loop _

  next_round-looped :
      (task : Task H) (tasks : List (Task H)) (next : S → Round calls) (s : S)
      (added : List (Task H)) (r : Outcome Bool)
      → ((s : S) → loops (next s).left ≡ loops tasks)
      → loops (next_round calls task tasks next (s, added, and_return cond_continue r)).left
        ≡ of_handler task.handler (loops tasks)
  unfolding next_round keep_task after_call
  next_round-looped task tasks next s added (returns b) ih = ap (of_handler task.handler) (ih s)
  next_round-looped task tasks next s added (throws e) ih = refl
  next_round-looped task tasks next s added terminates ih = refl
  next_round-looped task tasks next s added undefined ih = refl

  called-loops :
      (h : Handler H) (interval last : ℕ) (tasks : List (Task H)) (next : S → Round calls) (s : S)
      → ((s : S) → loops (next s).left ≡ loops tasks)
      → loops
          (next_round calls
            (record { handler = h; interval = interval; last_call = last })
            tasks
            next
            (call_handler calls h s)).left
        ≡ of_handler h (loops tasks)
  unfolding call_handler
  called-loops (scheduled h) interval last tasks next s ih =
      next_round-loops _ tasks next (calls.run h s) (λ xs. refl) ih
  called-loops (looped h) interval last tasks next s ih =
      next_round-looped _ tasks next (calls.run h s).0 (calls.run h s).1 (calls.run h s).2 ih
  called-loops (once h) interval last tasks next s ih =
      next_round-loops _ tasks next _ (λ xs. refl) ih

  execute_tasks-loops :
      (tasks : List (Task H)) (s : S) → loops (execute_tasks calls tasks s).left ≡ loops tasks
  unfolding execute_tasks keep_task
  execute_tasks-loops [] s = refl
  execute_tasks-loops (task ∷ tasks) s = elim (Bool-cases (is_early calls task s)) [
    | inl e ↦ rw (e, execute_tasks) (ap (of_handler task.handler) (execute_tasks-loops tasks s))
    | inr e ↦
        rw (e, execute_tasks)
          (called-loops task.handler task.interval (calls.clock s) tasks (execute_tasks calls tasks)
            s (execute_tasks-loops tasks))
  ]

  -- Whatever the callbacks do, and also where one of them throws, an execution keeps every task that
  -- `loop` made, those that were added since the last execution behind the others, in their order.
  pub execute-loops :
      (p : Pipeline H) (s : S)
      → loops (execute calls p s).0.callbacks ≡ loops p.callbacks ++ loops p.new_callbacks
  unfolding execute merge_callbacks
  execute-loops p s =
      execute_tasks-loops (p.callbacks ++ p.new_callbacks) s
      ∙ loops-append p.callbacks p.new_callbacks

  -- A task of `once` that is left behind the head was left by the rounds behind it.
  next_round-once :
      (task kept : Task H) (tasks : List (Task H)) (next : S → Round calls) (s : S)
      (added : List (Task H)) (r : Outcome Bool)
      → (next_round calls task tasks next (s, added, and_return cond_end r)).outcome ≡ returns tt
      → In kept (next_round calls task tasks next (s, added, and_return cond_end r)).left
      → ((next s).outcome ≡ returns tt) × In kept (next s).left
  unfolding next_round keep_task after_call
  next_round-once task kept tasks next s added (returns b) e m = (e, m)
  next_round-once task kept tasks next s added (throws x) e m = cc
  next_round-once task kept tasks next s added terminates e m = cc
  next_round-once task kept tasks next s added undefined e m = cc

  -- Any other task that was called may be at the head itself.
  next_round-head :
      (task kept : Task H) (tasks : List (Task H)) (next : S → Round calls)
      (r : S × List (Task H) × Outcome Bool)
      → (next_round calls task tasks next r).outcome ≡ returns tt
      → In kept (next_round calls task tasks next r).left
      → (task ≡ kept) ⊎ (((next r.0).outcome ≡ returns tt) × In kept (next r.0).left)
  unfolding next_round keep_task after_call
  next_round-head task kept tasks next (s, added, returns true) e m = inr (e, m)
  next_round-head task kept tasks next (s, added, returns false) e (inl h) = inl h
  next_round-head task kept tasks next (s, added, returns false) e (inr m) = inr (e, m)
  next_round-head task kept tasks next (s, added, throws x) e m = cc
  next_round-head task kept tasks next (s, added, terminates) e m = cc
  next_round-head task kept tasks next (s, added, undefined) e m = cc

  not_head :
      (task kept : Task H) (A : Type 0)
      → IsOnce kept.handler
      → (IsOnce task.handler → ⊥)
      → (task ≡ kept) ⊎ A
      → A
  not_head task kept A o n (inl e) = absurd (n (subst (λ (x : Task H). IsOnce x.handler) (sym e) o))
  not_head task kept A o n (inr a) = a

  called-once :
      (h : Handler H) (interval last : ℕ) (kept : Task H) (tasks : List (Task H))
      (next : S → Round calls) (s : S)
      → IsOnce kept.handler
      → let r =
          next_round calls
            (record { handler = h; interval = interval; last_call = last })
            tasks
            next
            (call_handler calls h s) in
        r.outcome ≡ returns tt
        → In kept r.left
        → ((next (call_handler calls h s).0).outcome ≡ returns tt)
          × In kept (next (call_handler calls h s).0).left
  unfolding call_handler
  called-once (scheduled h) interval last kept tasks next s o e m =
      not_head _ kept _ o (λ x. x) (next_round-head _ kept tasks next (calls.run h s) e m)
  called-once (looped h) interval last kept tasks next s o e m =
      not_head _ kept _ o (λ x. x)
        (next_round-head _ kept tasks next
          ((calls.run h s).0, (calls.run h s).1, and_return cond_continue (calls.run h s).2) e m)
  called-once (once h) interval last kept tasks next s o e m =
      next_round-once _ kept tasks next (calls.run h s).0 (calls.run h s).1 (calls.run h s).2 e m

  execute_tasks-once :
      (tasks : List (Task H)) (s : S) (kept : Task H)
      → IsOnce kept.handler
      → (execute_tasks calls tasks s).outcome ≡ returns tt
      → In kept (execute_tasks calls tasks s).left
      → In kept tasks
  unfolding execute_tasks keep_task
  execute_tasks-once [] s kept o e m = m
  execute_tasks-once (task ∷ tasks) s kept o e m = elim (Bool-cases (is_early calls task s)) [
    | inl early ↦
        behind (rw (early, execute_tasks) at e) (rw (early, execute_tasks) at m)
          (execute_tasks-once tasks s kept o)
    | inr due ↦
        let (e', m') =
          called-once task.handler task.interval (calls.clock s) kept tasks
            (execute_tasks calls tasks) s o (rw (due, execute_tasks) at e)
            (rw (due, execute_tasks) at m) in
        inr (execute_tasks-once tasks (call_handler calls task.handler s).0 kept o e' m')
  ]
    where
      behind :
          (execute_tasks calls tasks s).outcome ≡ returns tt
          → (task ≡ kept) ⊎ In kept (execute_tasks calls tasks s).left
          → ((execute_tasks calls tasks s).outcome ≡ returns tt
              → In kept (execute_tasks calls tasks s).left
              → In kept tasks)
          → (task ≡ kept) ⊎ In kept tasks
      behind e (inl h) ih = inl h
      behind e (inr m) ih = inr (ih e m)

  -- Where an execution returns, each task of `once` that is left is one that was waiting before,
  -- unchanged, its last call included.
  pub execute-once :
      (p : Pipeline H) (s : S) (kept : Task H)
      → IsOnce kept.handler
      → (execute calls p s).2 ≡ returns tt
      → In kept (execute calls p s).0.callbacks
      → In kept (p.callbacks ++ p.new_callbacks)
  unfolding execute merge_callbacks
  execute-once p s kept o e m = execute_tasks-once (p.callbacks ++ p.new_callbacks) s kept o e m
