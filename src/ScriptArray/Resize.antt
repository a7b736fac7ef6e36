-- ===== src/ScriptArray/Resize.antt =====
-- What `resize` of `scripting::array` (src/client/module/scripting.hpp) does to the objects.
use w3m.Prelude.{
  ℕ, zero, suc, ◌+◌, ◌-◌, ◌%◌, ◌^◌, ◌≤◌, ◌<◌, ◌≡◌, ◌⊎◌, refl, sym, ap, ◌∙◌, inl, inr, true, false,
  List, [], ◌∷◌, ◌++◌, append_assoc, append-nil, map, Option, none, some, arith, leb, lt→ltb,
  le→leb, leb-false, ◌==◌, ==_iff, ==_ne, if◌then◌else◌, length, length-append, length-take,
  length-replicate, length-map, take, replicate,
}
use native.Mathlib.Decide.{dec_lt}
use mathlib.Core.Path.{subst}
use w3m.Prelude.Outcome.{returns, throws, too_many_items}
use w3m.ScriptArray.{
  Array, empty_array, size, put, shrink, clear, allocate_uninitialized, construct, move_objects,
  copy_element, grow, resize,
}
use w3m.ScriptArray.Slots.{
  slots, Holds, map-append, construct-joint, at-joint, shrink-slots, take-all,
}

module _ {A : Type 0} where
  move_objects-slots :
      (us vs : List A) (spare : List (Option A)) (tail : List (Option A)) (n : ℕ)
      → move_objects
          (length vs)
          (length us)
          (slots (us ++ vs) spare)
          (record { values = map some us ++ (replicate (length vs) none ++ tail); count = n })
        ≡ returns (record { values = map some (us ++ vs) ++ tail; count = n })
  unfolding move_objects
  move_objects-slots us [] spare tail n = rw (append-nil us)
  move_objects-slots us (x ∷ vs) spare tail n =
      rw (at-joint us x vs spare, construct-joint us x none (replicate (length vs) none ++ tail) n)
        (next us x vs spare tail n
          ∙ move_objects-slots (us ++ (x ∷ [])) vs spare tail n
          ∙ rw (append_assoc us (x ∷ []) vs))
    where
      next :
          (us : List A) (x : A) (vs : List A) (spare tail : List (Option A)) (n : ℕ)
          → move_objects (length vs) (length us + 1) (slots (us ++ (x ∷ vs)) spare) (record {
            values = map some us ++ (some x ∷ (replicate (length vs) none ++ tail));
            count = n;
          })
            ≡ move_objects
                (length vs)
                (length (us ++ (x ∷ [])))
                (slots ((us ++ (x ∷ [])) ++ vs) spare)
                (record {
                  values = map some (us ++ (x ∷ [])) ++ (replicate (length vs) none ++ tail);
                  count = n;
                })
      next us x vs spare tail n =
          let l : length us + 1 ≡ length (us ++ (x ∷ [])) =
            omega (arith, length-append us (x ∷ [])) in
          rw (
            l,
            append_assoc us (x ∷ []) vs,
            map-append us (x ∷ []),
            append_assoc (map some us) (some x ∷ []) (replicate (length vs) none ++ tail),
          )

  put-slot :
      (us : List (Option A)) (x y : Option A) (spare : List (Option A))
      → put (length us) x (us ++ (y ∷ spare)) ≡ us ++ (x ∷ spare)
  unfolding put
  put-slot [] x y spare = refl
  put-slot (u ∷ us) x y spare = ap (◌∷◌ u) (put-slot us x y spare)

  construct-slot :
      (us : List (Option A)) (x : A) (y : Option A) (spare : List (Option A)) (n : ℕ)
      → construct (length us) x (record { values = us ++ (y ∷ spare); count = n })
        ≡ returns (record { values = us ++ (some x ∷ spare); count = n })
  unfolding construct
  construct-slot us x y spare n =
      let inside : length us < length (us ++ (y ∷ spare)) =
        omega (arith, length-append us (y ∷ spare)) in
      rw (lt→ltb _ _ inside, put-slot us (some x) y spare)

  copy_element-slots :
      (m : ℕ) (us : List (Option A)) (element : A) (n : ℕ)
      → copy_element m (length us) element (record { values = us ++ replicate m none; count = n })
        ≡ returns (record { values = us ++ replicate m (some element); count = n })
  unfolding copy_element
  copy_element-slots zero us element n = refl
  copy_element-slots (suc m) us element n =
      let l : length us + 1 ≡ length (us ++ (some element ∷ [])) =
        omega (arith, length-append us (some element ∷ [])) in
      rw (construct-slot us element none (replicate m none) n, l)
        (subst
          (λ v.
            copy_element m (length (us ++ (some element ∷ []))) element
              (record { values = v; count = n })
            ≡ returns
                (record { values = us ++ (some element ∷ replicate m (some element)); count = n }))
          (append_assoc us (some element ∷ []) (replicate m none))
          (copy_element-slots m (us ++ (some element ∷ [])) element n
            ∙ rw (append_assoc us (some element ∷ []) (replicate m (some element)))))

  replicate-add : (k m : ℕ) (x : Option A) → replicate (k + m) x ≡ replicate k x ++ replicate m x
  replicate-add zero m x = rw (let e : zero + m ≡ m = omega arith in e)
  replicate-add (suc k) m x =
      rw (let e : suc k + m ≡ suc (k + m) = omega arith in e) (ap (◌∷◌ x) (replicate-add k m x))

  map-replicate : (m : ℕ) (x : A) → map some (replicate m x) ≡ replicate m (some x)
  map-replicate zero x = refl
  map-replicate (suc m) x = ap (◌∷◌ (some x)) (map-replicate m x)

  clear-slots :
      (items : List A) (spare : List (Option A)) → clear (slots items spare) ≡ returns empty_array
  unfolding clear
  clear-slots items spare =
      let (left, r) = shrink-slots (length items) 0 items spare (omega arith) in rw r

  behind_joint :
      (items : List A) (m n : ℕ) (element : A)
      → copy_element m
          (length items + 1)
          element
          (record { values = map some items ++ (none ∷ replicate m none); count = n })
        ≡ returns
            (record { values = map some items ++ (none ∷ replicate m (some element)); count = n })
  behind_joint items m n element =
      let us = map some items ++ (none ∷ []) in
      let l : length us ≡ length items + 1 =
        omega (
          arith,
          length-append (map some items) (none ∷ []),
          length-map items (λ (u : A). some u),
        ) in
      subst
        (λ k.
          copy_element m k element
            (record { values = map some items ++ (none ∷ replicate m none); count = n })
          ≡ returns (record {
            values = map some items ++ (none ∷ replicate m (some element));
            count = n;
          }))
        l
        (subst
          (λ v.
            copy_element m (length us) element (record { values = v; count = n })
            ≡ returns (record {
              values = map some items ++ (none ∷ replicate m (some element));
              count = n;
            }))
          (append_assoc (map some items) (none ∷ []) (replicate m none))
          (copy_element-slots m us element n
            ∙ rw (append_assoc (map some items) (none ∷ []) (replicate m (some element)))))

  -- The block after a growth by `m + 1` objects: every slot has one.
  grow-slots :
      (items : List A) (spare : List (Option A)) (m n : ℕ) (element : A)
      → n ≡ length items + suc m
      → n < 2 ^ 32
      → grow n element (slots items spare)
        ≡ returns (record {
          values = map some items ++ (some element ∷ replicate m (some element));
          count = n;
        })
  unfolding grow allocate_uninitialized size
  grow-slots items spare m n element e small =
      let same : n % 2 ^ 32 ≡ n = omega arith in
      let fits : (n % 2 ^ 32 == n) ≡ true = (==_iff (n % 2 ^ 32) n).1 same in
      let block : ◌≡◌ {A = List (Option A)} (replicate n none)
          (replicate (length items) none ++ (none ∷ replicate m none)) =
        ap (λ k. replicate k none) e ∙ replicate-add (length items) (suc m) none in
      let rounds : n - (length items + 1) ≡ m = omega arith in
      rw (fits, block, rounds)
        (rw (move_objects-slots [] items spare (none ∷ replicate m none) n) (
          rw (behind_joint items m n element) (
            rw (construct-joint items element none (replicate m (some element)) n)
              (rw (clear-slots items spare)))))

  grow-throws :
      (n : ℕ) (element : A) (a : Array A) → 2 ^ 32 ≤ n → grow n element a ≡ throws too_many_items
  unfolding grow allocate_uninitialized
  grow-throws n element a h =
      let cut : (n % 2 ^ 32 == n) ≡ false = ==_ne (n % 2 ^ 32) n (λ p. omega (arith, p)) in rw cut

  grown-Holds :
      (items : List A) (m n : ℕ) (element : A)
      → n ≡ length items + suc m
      → Holds (items ++ replicate (n - length items) element) (record {
        values = map some items ++ (some element ∷ replicate m (some element));
        count = n;
      })
  grown-Holds items m n element e =
      let k : n - length items ≡ suc m = omega arith in
      let values : ◌≡◌ {A = List (Option A)}
          (map some items ++ (some element ∷ replicate m (some element)))
          (map some (items ++ replicate (suc m) element) ++ []) =
        sym (
          append-nil _
          ∙ map-append items (replicate (suc m) element)
          ∙ ap (λ v. map some items ++ (some element ∷ v)) (map-replicate m element)) in
      let count : n ≡ length (items ++ replicate (suc m) element) =
        omega
          (arith, e, length-append items (replicate (suc m) element), length-replicate m element) in
      rw k ([], λ i. record { values = values i; count = count i })

  resize-shrunk :
      (n : ℕ) (element : A) (items : List A) (spare : List (Option A))
      → let r = shrink (length items) n (slots items spare) in
        (left : List (Option A)) × (r ≡ returns (slots (take n items) left))
        × (resize n element (slots items spare) ≡ (
            if leb n (length (take n items))
            then returns (slots (take n items) left)
            else grow n element (slots (take n items) left)))
  unfolding resize size
  resize-shrunk n element items spare =
      let (left, r) = shrink-slots (length items) n items spare (omega arith) in (left, r, rw r)

  -- An array that holds some objects, resized to `n`: a smaller array keeps the first `n` of them; a
  -- larger one holds all of them and copies of the element behind them, unless `n` does not fit into
  -- the 32 bits of the length, where `resize` throws. Nothing is read or written outside of a block,
  -- and no object is read that is not there.
  pub resize_lem :
      (n : ℕ) (element : A) (items : List A) (a : Array A)
      → Holds items a
      → length items < 2 ^ 32
      → ((n ≤ length items)
          × (a' : Array A) × (resize n element a ≡ returns a')
          × Holds (take n items) a')
        ⊎ (((length items < n)
              × (n < 2 ^ 32)
              × (a' : Array A) × (resize n element a ≡ returns a')
              × Holds (items ++ replicate (n - length items) element) a')
            ⊎ ((2 ^ 32 ≤ n) × (resize n element a ≡ throws too_many_items)))
  resize_lem n element items a (spare, e) small =
      let (left, r, shape) = resize-shrunk n element items spare in
      rw e (elim (dec_lt (length items) n) [
        | no short ↦
            let fits : n ≤ length (take n items) = omega (arith, length-take n items) in
            inl (omega arith, slots (take n items) left, shape ∙ rw (le→leb _ _ fits), (left, refl))
        | yes long ↦
            let all : take n items ≡ items = take-all n items (omega arith) in
            let grows : resize n element (slots items spare) ≡ grow n element (slots items left) =
              shape ∙ rw (all, leb-false _ _ long) in
            inr (elim (dec_lt n (2 ^ 32)) [
              | no large ↦
                  let h : 2 ^ 32 ≤ n = omega arith in
                  inr (h, grows ∙ grow-throws n element (slots items left) h)
              | yes bounded ↦
                  let m = n - length items - 1 in
                  let sum : n ≡ length items + suc m = omega arith in
                  inl (
                    long,
                    bounded,
                    record {
                      values = map some items ++ (some element ∷ replicate m (some element));
                      count = n;
                    },
                    grows ∙ grow-slots items left m n element sum bounded,
                    grown-Holds items m n element sum,
                  )
            ])
      ])
