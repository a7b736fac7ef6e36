-- ===== src/ComponentLoader/Tests.antt =====
-- Examples for src/client/loader/component_loader.cpp: components are numbers, which are their
-- priorities, and hooks add them to the world.
use w3m.Prelude.{
  ℕ, ◌+◌, ◌≡◌, ◌==◌, if◌then◌else◌, refl, false, List, [], ◌∷◌, ◌++◌, Option, none, some, arith,
}
use w3m.Prelude.Outcome.{returns, throws, premature_shutdown_trigger}
use w3m.ComponentLoader.{Hook, Loader, register_component, run_hooks, next_hook}
use w3m.ComponentLoader.Order.{Sorted, before, behind, register_component_lem}

abbrev priority : ℕ → ℕ
priority c = c

abbrev components : List ℕ
components = 5 ∷ 3 ∷ 1 ∷ []

register_component_lem_example :
    (register_component priority 3 components
      ≡ before priority 3 components ++ (3 ∷ behind priority 3 components))
    × Sorted priority (register_component priority 3 components)
register_component_lem_example = register_component_lem priority 3 components (omega arith)

-- The component 3 asks for a shutdown.
abbrev hook : Hook ℕ ℕ
hook c s = (s + c, if c == 3 then throws premature_shutdown_trigger else returns tt)

abbrev fresh : Loader ℕ
fresh = record { handled = false; loaded = none; destroyed = none; world = 0 }

first_hook : run_hooks hook (5 ∷ []) 0 ≡ (5, returns tt)
unfolding run_hooks next_hook
first_hook = refl

abbrev give : ℕ → List ℕ → List ℕ → Option ℕ
give c module_ function = if c == 3 then some 1000 else none
