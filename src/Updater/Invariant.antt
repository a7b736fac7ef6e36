-- ===== src/Updater/Invariant.antt =====
-- What becomes of each file that a thread of `update_files` in src/client/updater/file_updater.cpp
-- has taken.
use mathlib.Core.Path.{subst}
use w3m.Prelude.{
  ℕ, zero, suc, ◌≤◌, ◌≡◌, refl, sym, ap, ◌⊎◌, inl, inr, List, [], ◌∷◌, ◌++◌, none, some, arith,
  length, take, get_elem?, All, In,
}
use w3m.Prelude.Outcome.{Exception}
use w3m.Updater.{FileInfo, Updater, get_drive_filename, Worker, working, failed, Shared}
use w3m.Updater.Verified.{IsVerified}

module _ {A : Type 0} where
  pub In-replaced :
      (x : A) (before : List A) (a b : A) (after : List A)
      → In x (before ++ (a ∷ after))
      → (a ≡ x) ⊎ In x (before ++ (b ∷ after))
  In-replaced x [] a b after (inl e) = inl e
  In-replaced x [] a b after (inr m) = inr (inr m)
  In-replaced x (c ∷ before) a b after (inl e) = inr (inl e)
  In-replaced x (c ∷ before) a b after (inr m) = elim (In-replaced x before a b after m) [
    | inl e ↦ inl e
    | inr n ↦ inr (inr n)
  ]

  pub In-middle : (before : List A) (a : A) (after : List A) → In a (before ++ (a ∷ after))
  In-middle [] a after = inl refl
  In-middle (c ∷ before) a after = inr (In-middle before a after)

  pub All-imp : (P Q : A → Type 0) (xs : List A) → ((x : A) → P x → Q x) → All P xs → All Q xs
  All-imp P Q [] h all = tt
  All-imp P Q (x ∷ xs) h all = (h x all.0, All-imp P Q xs h all.1)

module _ {A : Type 0} (P : A → Type 0) where
  pub All-take_some :
      (xs : List A) (i : ℕ) (a : A)
      → get_elem? xs i ≡ some a
      → P a
      → All P (take i xs)
      → All P (take (suc i) xs)
  All-take_some [] i a e h all = tt
  All-take_some (x ∷ xs) zero a e h all =
      (subst P (sym (ap (λ o. elim o [ none ↦ x | some y ↦ y ]) e)) h, tt)
  All-take_some (x ∷ xs) (suc i) a e h all = (all.0, All-take_some xs i a e h all.1)

  pub All-take_none :
      (xs : List A) (i : ℕ) → get_elem? xs i ≡ none → All P (take i xs) → All P (take (suc i) xs)
  All-take_none [] i e all = tt
  All-take_none (x ∷ xs) zero e all = cc
  All-take_none (x ∷ xs) (suc i) e all = (all.0, All-take_none xs i e all.1)

  pub All-take_all : (xs : List A) (i : ℕ) → length xs ≤ i → All P (take i xs) → All P xs
  All-take_all [] i h all = tt
  All-take_all (x ∷ xs) zero h all = absurd (omega arith)
  All-take_all (x ∷ xs) (suc i) h all = (all.0, All-take_all xs i (omega arith) all.1)

pub length-le_of_none : {A : Type 0} (xs : List A) (i : ℕ) → get_elem? xs i ≡ none → length xs ≤ i
length-le_of_none [] i e = omega arith
length-le_of_none (x ∷ xs) zero e = cc
length-le_of_none (x ∷ xs) (suc i) e = omega (arith, length-le_of_none xs i e)

module _ (u : Updater) (infos : List FileInfo) where
  -- An exception is stored, or a thread is about to store one.
  abbrev pub IsFailing : Shared → List Worker → Type 0
  IsFailing s workers = (e : Exception) × ((s.exception ≡ some e) ⊎ In (failed e) workers)

  -- The file of an index that was taken is on the disk, or a thread has it, or something failed.
  abbrev pub IsCovered : Shared → List Worker → FileInfo → Type 0
  IsCovered s workers file =
      IsVerified u infos (get_drive_filename u file) (s.files (get_drive_filename u file))
      ⊎ (In (working file) workers ⊎ IsFailing s workers)

  -- Why a thread may end.
  abbrev pub IsOver : Shared → List Worker → Type 0
  IsOver s workers = IsFailing s workers ⊎ (length infos ≤ s.current_index)

  module _ (before after : List Worker) (w w' : Worker) (s s' : Shared)
      (stays : (e : Exception) → s.exception ≡ some e → (x : Exception) × (s'.exception ≡ some x))
      (hands_over : (e : Exception)
        → w ≡ failed e
        → (x : Exception) × (s'.exception ≡ some x)) where
    pub IsFailing-carried :
        IsFailing s (before ++ (w ∷ after)) → IsFailing s' (before ++ (w' ∷ after))
    IsFailing-carried (e, inl p) = let (x, q) = stays e p in (x, inl q)
    IsFailing-carried (e, inr m) = elim (In-replaced (failed e) before w w' after m) [
      | inl p ↦ let (x, q) = hands_over e p in (x, inl q)
      | inr n ↦ (e, inr n)
    ]

    pub IsOver-carried :
        s.current_index ≤ s'.current_index
        → IsOver s (before ++ (w ∷ after))
        → IsOver s' (before ++ (w' ∷ after))
    IsOver-carried h (inl f) = inl (IsFailing-carried f)
    IsOver-carried h (inr le) = inr (omega arith)

    pub IsCovered-carried :
        (file : FileInfo)
        → (IsVerified u infos (get_drive_filename u file) (s.files (get_drive_filename u file))
            → IsVerified u infos (get_drive_filename u file) (s'.files (get_drive_filename u file)))
        → (w ≡ working file → IsCovered s' (before ++ (w' ∷ after)) file)
        → IsCovered s (before ++ (w ∷ after)) file
        → IsCovered s' (before ++ (w' ∷ after)) file
    IsCovered-carried file keeps own (inl v) = inl (keeps v)
    IsCovered-carried file keeps own (inr (inl m)) =
        elim (In-replaced (working file) before w w' after m) [
          | inl p ↦ own p
          | inr n ↦ inr (inl n)
        ]
    IsCovered-carried file keeps own (inr (inr f)) = inr (inr (IsFailing-carried f))
