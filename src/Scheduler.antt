-- ===== src/Scheduler.antt =====
-- src/client/module/scheduler.cpp: a pipeline of tasks. A callback is an opaque value `H`; running it
-- changes the world `S` and may schedule further tasks, whose addition goes to the list of new
-- callbacks. The clock is read from the world. A task that executes the pipeline it runs in is not
-- modelled.
pub mod Loops
pub mod Tests
use w3m.Prelude.{ℕ, ◌+◌, Bool, true, false, List, [], ◌∷◌, ◌++◌, ltb, if◌then◌else◌}
use w3m.Prelude.Outcome.{Outcome, returns, throws, terminates, undefined}

-- The functions that `schedule` is given: a callback that says itself whether it ends, or the ones
-- that `loop` and `once` make of a callback.
pub data Handler (H : Type 0) : Type 0 where
  scheduled : H → Handler H
  looped : H → Handler H
  once : H → Handler H

pub record Task (H : Type 0) : Type 0 where
  pub handler : Handler H
  pub interval : ℕ
  pub last_call : ℕ

pub record Pipeline (H : Type 0) : Type 0 where
  pub new_callbacks : List (Task H)
  pub callbacks : List (Task H)

-- What the callbacks do: the world after the call, the tasks that were scheduled, and the result.
pub record Callbacks (H S : Type 0) : Type 0 where
  pub clock : S → ℕ
  pub run : H → S → S × List (Task H) × Outcome Bool

abbrev pub cond_continue : Bool
cond_continue = false

abbrev pub cond_end : Bool
cond_end = true

-- `return r;` after the callback.
abbrev pub and_return : Bool → Outcome Bool → Outcome Bool
and_return r (returns b) = returns r
and_return r (throws e) = throws e
and_return r terminates = terminates
and_return r undefined = undefined

module _ {H : Type 0} where
  pub add : Task H → Pipeline H → Pipeline H
  add task p = record p { new_callbacks = p.new_callbacks ++ (task ∷ []) }

  pub merge_callbacks : Pipeline H → Pipeline H
  merge_callbacks p = record { new_callbacks = []; callbacks = p.callbacks ++ p.new_callbacks }

module _ {H S : Type 0} (calls : Callbacks H S) where
  pub schedule : Handler H → ℕ → S → Pipeline H → Pipeline H
  unfolding add
  schedule callback delay s p =
      add (record { handler = callback; interval = delay; last_call = calls.clock s }) p

  pub loop : H → ℕ → S → Pipeline H → Pipeline H
  unfolding schedule
  loop callback delay s p = schedule (looped callback) delay s p

  pub schedule_once : H → ℕ → S → Pipeline H → Pipeline H
  unfolding schedule
  schedule_once callback delay s p = schedule (once callback) delay s p

  pub call_handler : Handler H → S → S × List (Task H) × Outcome Bool
  call_handler (scheduled h) s = calls.run h s
  call_handler (looped h) s =
      let (s', added, r) = calls.run h s in (s', added, and_return cond_continue r)
  call_handler (once h) s = let (s', added, r) = calls.run h s in (s', added, and_return cond_end r)

  -- `diff < i->interval`; the difference of two time points may be negative.
  pub is_early : Task H → S → Bool
  is_early task s = ltb (calls.clock s) (task.last_call + task.interval)

  -- What the loop over the tasks leaves: the tasks, the world, the tasks that were scheduled, and
  -- how it ended.
  pub record Round : Type 0 where
    pub left : List (Task H)
    pub world : S
    pub added : List (Task H)
    pub outcome : Outcome (Unit {0})

  keep_task : Task H → Round → Round
  keep_task task r = record r { left = task ∷ r.left }

  after_call : List (Task H) → Round → Round
  after_call added r = record r { added = added ++ r.added }

  -- Where the call of a task returns, the loop goes on with `next`; where it does not, the tasks
  -- behind it stay as they are.
  next_round : Task H → List (Task H) → (S → Round) → S × List (Task H) × Outcome Bool → Round
  unfolding keep_task after_call
  next_round task tasks next (s', added, returns ended) =
      let r = after_call added (next s') in if ended then r else keep_task task r
  next_round task tasks next (s', added, throws e) = record {
    left = task ∷ tasks;
    world = s';
    added = added;
    outcome = throws e;
  }
  next_round task tasks next (s', added, terminates) = record {
    left = task ∷ tasks;
    world = s';
    added = added;
    outcome = terminates;
  }
  next_round task tasks next (s', added, undefined) = record {
    left = task ∷ tasks;
    world = s';
    added = added;
    outcome = undefined;
  }

  pub execute_tasks : List (Task H) → S → Round
  unfolding is_early keep_task next_round call_handler
  execute_tasks [] s = record { left = []; world = s; added = []; outcome = returns tt }
  execute_tasks (task ∷ tasks) s = elim (is_early task s) [
    | true ↦ keep_task task (execute_tasks tasks s)
    | false ↦
        next_round (record task { last_call = calls.clock s }) tasks (execute_tasks tasks)
          (call_handler task.handler s)
  ]

  pub execute : Pipeline H → S → Pipeline H × S × Outcome (Unit {0})
  unfolding execute_tasks merge_callbacks
  execute p s =
      let r = execute_tasks (merge_callbacks p).callbacks s in
      (record { new_callbacks = r.added; callbacks = r.left }, r.world, r.outcome)
