-- ===== src/ComponentLoader.antt =====
-- src/client/loader/component_loader.cpp: the components in the order of their priorities, and their
-- hooks. A component is a value `C`; what its hooks do to the world `S` is a parameter.
pub mod Order
pub mod Hooks
pub mod Tests
use w3m.Prelude.{ℕ, Bool, true, false, List, [], ◌∷◌, ◌++◌, Option, none, some, ltb, if◌then◌else◌}
use w3m.Prelude.Outcome.{
  Outcome, Exception, returns, throws, terminates, undefined, premature_shutdown_trigger,
}

-- What a hook does: the world after it, and how it ended.
abbrev pub Hook : Type 0 → Type 0 → Type 0
Hook C S = C → S → S × Outcome (Unit {0})

module _ {C : Type 0} (priority : C → ℕ) where
  -- `std::ranges::stable_sort` by `a->priority() > b->priority()`, as an insertion sort: a component
  -- goes in front of the first that does not come before it.
  pub insert_component : C → List C → List C
  insert_component c [] = c ∷ []
  insert_component c (d ∷ components) =
      if ltb (priority c) (priority d)
      then d ∷ insert_component c components
      else c ∷ d ∷ components

  pub stable_sort : List C → List C
  unfolding insert_component
  stable_sort [] = []
  stable_sort (c ∷ components) = insert_component c (stable_sort components)

  pub register_component : C → List C → List C
  unfolding stable_sort
  register_component component components = stable_sort (components ++ (component ∷ []))

-- What the functions keep: the two results that are computed once, the flag of `post_start`, and the
-- world that the hooks change.
pub record Loader (S : Type 0) : Type 0 where
  pub handled : Bool
  pub loaded : Option Bool
  pub destroyed : Option Bool
  pub world : S

-- The handlers of `post_start`, and of `post_load` and `pre_destroy`, where every exception of the
-- program is a `std::exception`.
pub catch_trigger : Outcome (Unit {0}) → Outcome Bool
catch_trigger (returns u) = returns true
catch_trigger (throws premature_shutdown_trigger) = returns false
catch_trigger (throws e) = throws e
catch_trigger terminates = terminates
catch_trigger undefined = undefined

pub catch_all : Outcome (Unit {0}) → Outcome Bool
catch_all (returns u) = returns true
catch_all (throws e) = returns false
catch_all terminates = terminates
catch_all undefined = undefined

-- A static is set only where its initializer returns.
abbrev computed : Outcome Bool → Option Bool
computed (returns b) = some b
computed (throws e) = none
computed terminates = none
computed undefined = none

-- `if (!res) TerminateProcess(...)`
end_process : Outcome Bool → Outcome (Unit {0})
end_process (returns true) = returns tt
end_process (returns false) = terminates
end_process (throws e) = throws e
end_process terminates = terminates
end_process undefined = undefined

module _ {S : Type 0} where
  -- The loop stops where a hook does not return.
  next_hook : (S → S × Outcome (Unit {0})) → S × Outcome (Unit {0}) → S × Outcome (Unit {0})
  next_hook next (s, returns u) = next s
  next_hook next (s, throws e) = (s, throws e)
  next_hook next (s, terminates) = (s, terminates)
  next_hook next (s, undefined) = (s, undefined)

  load_once : S × Outcome (Unit {0}) → Loader S → Loader S × Outcome Bool
  unfolding catch_all
  load_once (s, r) l = (record l { loaded = computed (catch_all r); world = s }, catch_all r)

  destroy_once : S × Outcome (Unit {0}) → Loader S → Loader S × Outcome (Unit {0})
  unfolding catch_all end_process
  destroy_once (s, r) l =
      (record l { destroyed = computed (catch_all r); world = s }, end_process (catch_all r))

module _ {C S : Type 0} where
  -- `for (const auto& component : get_components())` with one hook.
  pub run_hooks : Hook C S → List C → S → S × Outcome (Unit {0})
  unfolding next_hook
  run_hooks hook [] s = (s, returns tt)
  run_hooks hook (c ∷ components) s = next_hook (run_hooks hook components) (hook c s)

  pub post_start : Hook C S → List C → Loader S → Loader S × Outcome Bool
  unfolding run_hooks catch_trigger
  post_start hook components l =
      let (s, r) = run_hooks hook components l.world in
      if l.handled
      then (l, returns true)
      else (record l { handled = true; world = s }, catch_trigger r)

  pub post_load : Hook C S → List C → Loader S → Loader S × Outcome Bool
  unfolding load_once run_hooks
  post_load hook components l = elim l.loaded [
    | some res ↦ (l, returns res)
    | none ↦ load_once (run_hooks hook components l.world) l
  ]

  pub pre_destroy : Hook C S → List C → Loader S → Loader S × Outcome (Unit {0})
  unfolding destroy_once run_hooks end_process
  pre_destroy hook components l = elim l.destroyed [
    | some res ↦ (l, end_process (returns res))
    | none ↦ destroy_once (run_hooks hook components l.world) l
  ]

-- The loop of `load_import`, on what each component gives for the function and the pointer so far.
import_loop : {C : Type 0} → (C → Option ℕ) → List C → Option ℕ → Option ℕ
import_loop give [] function_ptr = function_ptr
import_loop give (c ∷ components) function_ptr =
    import_loop give components (elim (give c) [ none ↦ function_ptr | some p ↦ some p ])

pub load_import :
    {C : Type 0} → (C → List ℕ → List ℕ → Option ℕ) → List C → List ℕ → List ℕ → Option ℕ
unfolding import_loop
load_import give components module_ function =
    import_loop (λ c. give c module_ function) components none
