-- ===== src/Prelude/Outcome.antt =====
-- What a C++ call does: it returns, it throws one of the exceptions of the program, it ends the
-- process by `std::terminate` (an exception out of a destructor), or it runs into undefined
-- behaviour (a read past a buffer).

-- One constructor for each message that the modelled code throws.
pub data Exception : Type 0 where
  out_of_bounds_read : Exception
  invalid_network_address : Exception
  invalid_address_family : Exception
  unable_to_resolve : Exception
  failed_to_bind : Exception
  premature_shutdown_trigger : Exception
  too_many_items : Exception
  array_is_empty : Exception
  invalid_array_index : Exception
  invalid_pattern : Exception
  invalid_index : Exception
  failed_to_download : Exception
  failed_to_write : Exception
  update_cancelled : Exception
  failed_to_allocate : Exception
  too_far_away : Exception
  no_branch_instruction : Exception
  unable_to_hook : Exception

pub data Outcome {ℓ} (A : Type ℓ) : Type ℓ where
  returns : A → Outcome A
  throws : Exception → Outcome A
  terminates : Outcome A
  undefined : Outcome A

infixl 5 ◌>>=◌ ◌>>◌
abbrev pub ◌>>=◌ {ℓ κ} : {A : Type ℓ} {B : Type κ} → Outcome A → (A → Outcome B) → Outcome B
returns a >>= f = f a
throws e >>= f = throws e
terminates >>= f = terminates
undefined >>= f = undefined

abbrev pub ◌>>◌ {ℓ} : {B : Type ℓ} → Outcome (Unit {0}) → Outcome B → Outcome B
m >> k = m >>= λ _. k
