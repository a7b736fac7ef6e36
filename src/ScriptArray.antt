-- ===== src/ScriptArray.antt =====
-- `scripting::array` of src/client/module/scripting.hpp: an array in memory of the game, whose block
-- is a list of slots, each with an object or without. Where a moved-from object is left behind, it is
-- destroyed before anything reads it, so that its value does not matter.
pub mod Slots
pub mod Resize
pub mod Tests
use w3m.Prelude.{
  ℕ, zero, suc, ◌+◌, ◌-◌, ◌%◌, ◌^◌, Bool, List, [], ◌∷◌, Option, none, some, leb, ltb, ◌==◌,
  if◌then◌else◌, length, get_elem?, replicate,
}
use w3m.Prelude.Outcome.{
  Outcome, returns, throws, undefined, ◌>>=◌, too_many_items, array_is_empty, invalid_array_index,
}

pub record Array (A : Type 0) : Type 0 where
  pub values : List (Option A)
  pub count : ℕ

module _ {A : Type 0} where
  pub empty_array : Array A
  empty_array = record { values = []; count = 0 }

  pub size : Array A → ℕ
  size a = a.count

  -- A read of an object that is not there.
  abbrev pub object : Option (Option A) → Outcome A
  object none = undefined
  object (some none) = undefined
  object (some (some x)) = returns x

  pub at : Array A → ℕ → Outcome A
  unfolding size
  at a index =
      if leb (size a) index then throws invalid_array_index else object (get_elem? a.values index)

  -- A slot gets a value: `none` where its object is destroyed.
  pub put : ℕ → Option A → List (Option A) → List (Option A)
  put i x [] = []
  put zero x (y ∷ values) = x ∷ values
  put (suc i) x (y ∷ values) = y ∷ put i x values

  pub pop_back : Array A → Outcome (A × Array A)
  unfolding at put
  pop_back a =
      if a.count == 0
      then throws array_is_empty
      else at a (a.count - 1) >>= λ element.
          returns
            (element, record { values = put (a.count - 1) none a.values; count = a.count - 1 })

  -- `while (count < this->size()) pop_back();`, in at most `fuel` rounds.
  pub shrink : ℕ → ℕ → Array A → Outcome (Array A)
  unfolding pop_back
  shrink zero n a = returns a
  shrink (suc fuel) n a =
      let next = pop_back a >>= λ r. shrink fuel n r.1 in if ltb n a.count then next else returns a

  pub clear : Array A → Outcome (Array A)
  unfolding shrink empty_array
  clear a = shrink a.count 0 a >>= λ a'. returns empty_array

  pub allocate_uninitialized : ℕ → Outcome (Array A)
  allocate_uninitialized n =
      if n % 2 ^ 32 == n
      then returns (record { values = replicate n none; count = n })
      else throws too_many_items

  -- `new (&values[i]) T(x)`; outside of the block it is undefined.
  pub construct : ℕ → A → Array A → Outcome (Array A)
  unfolding put
  construct i x a =
      if ltb i (length a.values)
      then returns (record a { values = put i (some x) a.values })
      else undefined

  -- The loop over the old objects, `n` rounds from `i` on.
  pub move_objects : ℕ → ℕ → Array A → Array A → Outcome (Array A)
  unfolding at construct
  move_objects zero i a new_array = returns new_array
  move_objects (suc n) i a new_array =
      at a i >>= λ x. construct i x new_array >>= λ new_array'. move_objects n (i + 1) a new_array'

  -- The loop over the new objects, `n` rounds from `i` on.
  pub copy_element : ℕ → ℕ → A → Array A → Outcome (Array A)
  unfolding construct
  copy_element zero i element new_array = returns new_array
  copy_element (suc n) i element new_array =
      construct i element new_array >>= λ new_array'. copy_element n (i + 1) element new_array'

  grow : ℕ → A → Array A → Outcome (Array A)
  unfolding allocate_uninitialized move_objects copy_element construct clear size
  grow n element a = do
    new_array ← allocate_uninitialized n
    moved ← move_objects (size a) 0 a new_array
    copied ← copy_element (n - (size a + 1)) (size a + 1) element moved
    last ← construct (size a) element copied
    cleared ← clear a
    returns last

  pub resize : ℕ → A → Array A → Outcome (Array A)
  unfolding shrink grow size
  resize n element a =
      shrink (size a) n a >>= λ a'. if leb n (size a') then returns a' else grow n element a'

  pub push_back : A → Array A → Outcome (Array A)
  unfolding resize size
  push_back obj a = resize (size a + 1) obj a

  copy_objects : ℕ → List A → Array A → Outcome (Array A)
  unfolding construct
  copy_objects i [] new_array = returns new_array
  copy_objects i (x ∷ items) new_array =
      construct i x new_array >>= λ new_array'. copy_objects (i + 1) items new_array'

  -- `array(const T* data, size_t count)`
  pub from_objects : List A → Outcome (Array A)
  unfolding copy_objects allocate_uninitialized
  from_objects items =
      allocate_uninitialized (length items) >>= λ new_array. copy_objects 0 items new_array
