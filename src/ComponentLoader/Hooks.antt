-- ===== src/ComponentLoader/Hooks.antt =====
-- How src/client/loader/component_loader.cpp calls the hooks of the components.
use w3m.Prelude.{
  ℕ, ◌≡◌, refl, sym, ap, ◌∙◌, inl, inr, false, List, [], ◌∷◌, ◌++◌, Option, none, some,
  Option-cases,
}
use w3m.Prelude.Outcome.{Outcome, Exception, returns, throws, terminates, undefined}
use w3m.ComponentLoader.{
  Hook, Loader, catch_all, next_hook, run_hooks, load_once, post_load, import_loop, load_import,
}

module _ {C S : Type 0} (hook : Hook C S) where
  run_hooks-append :
      (first rest : List C) (s s' : S)
      → run_hooks hook first s ≡ (s', returns tt)
      → run_hooks hook (first ++ rest) s ≡ run_hooks hook rest s'
  unfolding run_hooks next_hook
  run_hooks-append [] rest s s' e = ap (λ x. run_hooks hook rest (x.0)) e
  run_hooks-append (c ∷ first) rest s s' e =
      cases (hook c s) refl e (λ t. run_hooks-append first rest t s')
    where
      cases :
          (r : S × Outcome (Unit {0}))
          → hook c s ≡ r
          → next_hook (run_hooks hook first) (hook c s) ≡ (s', returns tt)
          → ((t : S)
              → run_hooks hook first t ≡ (s', returns tt)
              → run_hooks hook (first ++ rest) t ≡ run_hooks hook rest s')
          → next_hook (run_hooks hook (first ++ rest)) (hook c s) ≡ run_hooks hook rest s'
      cases (t, returns u) h e ih = rw h (ih t (rw h at e))
      cases (t, throws x) h e ih = cc (rw h at e)
      cases (t, terminates) h e ih = cc (rw h at e)
      cases (t, undefined) h e ih = cc (rw h at e)

  -- `post_load` calls the hooks in order up to the first that throws: its result is then false, what
  -- the components in front of it and it itself did stays, the hooks behind it are not called, and a
  -- second call returns false again and calls nothing.
  pub post_load-throws :
      (before after : List C) (c : C) (l : Loader S) (s s' : S) (e : Exception)
      → l.loaded ≡ none
      → run_hooks hook before l.world ≡ (s, returns tt)
      → hook c s ≡ (s', throws e)
      → let r = post_load hook (before ++ (c ∷ after)) l in
        (r.1 ≡ returns false)
        × (r.0.world ≡ s')
        × (post_load hook (before ++ (c ∷ after)) r.0 ≡ (r.0, returns false))
  unfolding post_load load_once run_hooks next_hook catch_all
  post_load-throws before after c l s s' e fresh front thrown =
      let stopped : run_hooks hook (before ++ (c ∷ after)) l.world ≡ (s', throws e) =
        run_hooks-append before (c ∷ after) l.world s front ∙ rw thrown in
      let first : post_load hook (before ++ (c ∷ after)) l
          ≡ (record l { loaded = some false; world = s' }, returns false) =
        rw (fresh, post_load) (rw stopped) in
      rw first (refl, refl, refl)

-- The last component that gives a pointer decides.
abbrev pub or_else : Option ℕ → Option ℕ → Option ℕ
or_else none o = o
or_else (some p) o = some p

import_loop-or_else :
    {C : Type 0} (give : C → Option ℕ) (components : List C) (o : Option ℕ)
    → import_loop give components o ≡ or_else (import_loop give components none) o
unfolding import_loop
import_loop-or_else give [] o = refl
import_loop-or_else give (c ∷ components) o = elim (Option-cases (give c)) [
  | inl e ↦ rw e (import_loop-or_else give components o)
  | inr (p, e) ↦ rw e (
      import_loop-or_else give components (some p)
      ∙ keeps p (import_loop give components none)
      ∙ ap (λ x. or_else x o) (sym (import_loop-or_else give components (some p))))
]
  where
    keeps : (p : ℕ) (x : Option ℕ) → or_else x (some p) ≡ or_else (or_else x (some p)) o
    keeps p none = refl
    keeps p (some q) = refl

import_loop-append :
    {C : Type 0} (give : C → Option ℕ) (first rest : List C) (o : Option ℕ)
    → import_loop give (first ++ rest) o ≡ import_loop give rest (import_loop give first o)
unfolding import_loop
import_loop-append give [] rest o = refl
import_loop-append give (c ∷ first) rest o =
    import_loop-append give first rest (elim (give c) [ none ↦ o | some p ↦ some p ])

-- A function is imported from the last component that gives a pointer for it: among the components
-- of two lists, from the second list where that gives one, and otherwise from the first.
pub load_import-append :
    {C : Type 0} (give : C → List ℕ → List ℕ → Option ℕ) (first rest : List C)
    (module_ function : List ℕ)
    → load_import give (first ++ rest) module_ function
      ≡ or_else (load_import give rest module_ function) (load_import give first module_ function)
unfolding load_import
load_import-append give first rest module_ function =
    import_loop-append (λ c. give c module_ function) first rest none
    ∙ import_loop-or_else (λ c. give c module_ function) rest
        (import_loop (λ c. give c module_ function) first none)
