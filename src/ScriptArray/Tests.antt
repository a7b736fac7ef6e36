-- ===== src/ScriptArray/Tests.antt =====
-- Examples for `scripting::array` (src/client/module/scripting.hpp).
use w3m.Prelude.{
  ℕ, ◌-◌, ◌^◌, ◌≤◌, ◌<◌, ◌≡◌, ◌⊎◌, ◌++◌, refl, List, [], ◌∷◌, none, arith, length, take, replicate,
}
use w3m.Prelude.Outcome.{returns, throws, too_many_items}
use w3m.ScriptArray.{Array, resize}
use w3m.ScriptArray.Slots.{slots, Holds}
use w3m.ScriptArray.Resize.{resize_lem}

abbrev items : List ℕ
items = 1 ∷ 2 ∷ []

resize_lem_example :
    ((5 ≤ length items)
      × (a' : Array ℕ) × (resize 5 9 (slots items (none ∷ [])) ≡ returns a')
      × Holds (take 5 items) a')
    ⊎ (((length items < 5)
          × (5 < 2 ^ 32)
          × (a' : Array ℕ) × (resize 5 9 (slots items (none ∷ [])) ≡ returns a')
          × Holds (items ++ replicate (5 - length items) 9) a')
        ⊎ ((2 ^ 32 ≤ 5) × (resize 5 9 (slots items (none ∷ [])) ≡ throws too_many_items)))
resize_lem_example =
    resize_lem 5 9 items (slots items (none ∷ [])) ((none ∷ []), refl) (omega arith)
