-- ===== src/Signature/Sorting.antt =====
-- Why the order in which the threads of src/common/utils/signature.cpp add what they have found does
-- not matter once `std::sort` has run.
use mathlib.Core.List.{Permᴰ}
use w3m.Prelude.{
  ℕ, zero, suc, ◌+◌, ◌≤◌, ◌≡◌, refl, sym, ap, ◌∙◌, inl, inr, Bool, List, [], ◌∷◌, ◌++◌, arith,
  le→leb, keep, All, Bool-cases,
}
use w3m.Signature.{insert_sorted, sort}

insert_sorted_comm :
    (x y : ℕ) (xs : List ℕ)
    → insert_sorted x (insert_sorted y xs) ≡ insert_sorted y (insert_sorted x xs)
unfolding insert_sorted
insert_sorted_comm x y [] = ground arith
insert_sorted_comm x y (z ∷ xs) = ground (arith, insert_sorted_comm x y xs)

insert_all : List ℕ → List ℕ → List ℕ
insert_all [] ys = ys
insert_all (x ∷ xs) ys = insert_sorted x (insert_all xs ys)

sort-append : (xs ys : List ℕ) → sort (xs ++ ys) ≡ insert_all xs (sort ys)
unfolding sort insert_all
sort-append [] ys = refl
sort-append (x ∷ xs) ys = ap (insert_sorted x) (sort-append xs ys)

insert_all-insert_sorted :
    (x : ℕ) (xs ys : List ℕ)
    → insert_all xs (insert_sorted x ys) ≡ insert_sorted x (insert_all xs ys)
unfolding insert_all
insert_all-insert_sorted x [] ys = refl
insert_all-insert_sorted x (z ∷ xs) ys =
    ap (insert_sorted z) (insert_all-insert_sorted x xs ys)
    ∙ insert_sorted_comm z x (insert_all xs ys)

insert_all_comm :
    (xs ys zs : List ℕ) → insert_all xs (insert_all ys zs) ≡ insert_all ys (insert_all xs zs)
unfolding insert_all
insert_all_comm [] ys zs = refl
insert_all_comm (x ∷ xs) ys zs =
    ap (insert_sorted x) (insert_all_comm xs ys zs)
    ∙ sym (insert_all-insert_sorted x ys (insert_all xs zs))

-- What the threads of a list find, one after the other.
unfoldable pub blocks : (ℕ → List ℕ) → List ℕ → List ℕ
blocks found [] = []
blocks found (i ∷ order) = found i ++ blocks found order

module _ (found : ℕ → List ℕ) where
  pub sort-blocks :
      {order other : List ℕ}
      → Permᴰ order other
      → sort (blocks found order) ≡ sort (blocks found other)
  unfolding blocks
  sort-blocks Permᴰ.nil = refl
  sort-blocks (Permᴰ.cons {a} {b} {l₁} {l₂} e p) =
      sort-append (found a) (blocks found l₁)
      ∙ rw (e, sort-blocks p) (sym (sort-append (found b) (blocks found l₂)))
  sort-blocks (Permᴰ.swap {a} {b} {a'} {b'} {l} e e') =
      sort-append (found a) (found b ++ blocks found l)
      ∙ ap (insert_all (found a)) (sort-append (found b) (blocks found l))
      ∙ insert_all_comm (found a) (found b) (sort (blocks found l))
      ∙ rw (e, e') (ap (insert_all (found a')) (sym (sort-append (found b') (blocks found l))))
      ∙ sym (sort-append (found a') (found b' ++ blocks found l))
  sort-blocks (Permᴰ.trans p q) = sort-blocks p ∙ sort-blocks q

-- `n` numbers from `a` on.
unfoldable pub count_up : ℕ → ℕ → List ℕ
count_up a zero = []
count_up a (suc n) = a ∷ count_up (suc a) n

module _ (p : ℕ → Bool) where
  keep-count_up-le : (low a n : ℕ) → low ≤ a → All (λ x. low ≤ x) (keep p (count_up a n))
  unfolding count_up
  keep-count_up-le low a zero h = tt
  keep-count_up-le low a (suc n) h = elim (Bool-cases (p a)) [
    | inl e ↦ rw e (h, keep-count_up-le low (suc a) n (omega arith))
    | inr e ↦ rw e (keep-count_up-le low (suc a) n (omega arith))
  ]

  insert_sorted-below : (x : ℕ) (xs : List ℕ) → All (λ y. x ≤ y) xs → insert_sorted x xs ≡ x ∷ xs
  unfolding insert_sorted
  insert_sorted-below x [] h = refl
  insert_sorted-below x (y ∷ xs) (h, _) = rw (le→leb x y h)

  -- Numbers chosen from ascending ones are in order.
  pub sort-keep-count_up : (a n : ℕ) → sort (keep p (count_up a n)) ≡ keep p (count_up a n)
  unfolding sort count_up
  sort-keep-count_up a zero = refl
  sort-keep-count_up a (suc n) = elim (Bool-cases (p a)) [
    | inl e ↦
        rw (e, sort, sort-keep-count_up (suc a) n)
          (insert_sorted-below a _ (keep-count_up-le a (suc a) n (omega arith)))
    | inr e ↦ rw e (sort-keep-count_up (suc a) n)
  ]

  pub keep-append : (xs ys : List ℕ) → keep p (xs ++ ys) ≡ keep p xs ++ keep p ys
  keep-append [] ys = refl
  keep-append (x ∷ xs) ys = elim (Bool-cases (p x)) [
    | inl e ↦ rw e (ap (◌∷◌ x) (keep-append xs ys))
    | inr e ↦ rw e (keep-append xs ys)
  ]

pub count_up-append : (a m n : ℕ) → count_up a (m + n) ≡ count_up a m ++ count_up (a + m) n
unfolding count_up
count_up-append a zero n =
    rw (let e : zero + n ≡ n = omega arith in e) (rw (let e : a + zero ≡ a = omega arith in e))
count_up-append a (suc m) n =
    rw
      (
        let e : suc m + n ≡ suc (m + n) = omega arith in e,
        let e : a + suc m ≡ suc a + m = omega arith in e,
      )
      (ap (◌∷◌ a) (count_up-append (suc a) m n))
