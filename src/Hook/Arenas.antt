-- ===== src/Hook/Arenas.antt =====
-- What the memory for trampolines of src/common/utils/hook.cpp is: near, and found in enough rounds.
use mathlib.Core.Path.{subst}
use native.Mathlib.Nat.{suc-mul, div-add-mod', mod-lt}
use w3m.Prelude.{
  ℕ, zero, suc, ◌+◌, ◌-◌, ◌*◌, ◌/◌, ◌%◌, ◌^◌, ◌≤◌, ◌<◌, ◌≡◌, refl, sym, ap, ◌∙◌, ◌⊎◌, inl, inr,
  false, ◌||◌, List, [], ◌∷◌, Option, none, some, arith, ◌==◌, ltb, map, Bool-cases, Option-cases,
  ==_ne, ltb-false,
}
use w3m.Prelude.Words.{size_mod}
use w3m.Prelude.Outcome.{Outcome, returns, throws, ◌>>=◌, failed_to_allocate}
use w3m.Hook.{
  difference, is_relatively_far, Arena, get_ptr, allocate, System, allocate_loop, round_down,
  allocate_somewhere_near, new_arena, back_allocate, keep_piece, allocate_in, get_memory_near,
}
use w3m.Hook.Distance.{is_relatively_far_iff}

near-le :
    (pointer to : ℕ)
    → pointer + 5 < size_mod
    → to < size_mod
    → to ≤ pointer + 5 + 2 ^ 33
    → is_relatively_far pointer to 5 ≡ false
    → to < pointer + 5 + 2 ^ 31
unfolding difference
near-le pointer to hp ht le near =
    let e = sym (is_relatively_far_iff pointer to 5) ∙ near in ground arith

-- A trampoline is either found, and near, or the system has no memory for one.
abbrev pub FindsMemory : ℕ → Outcome (Option ℕ × List Arena) → Type 0
FindsMemory pointer result =
    (result ≡ throws failed_to_allocate)
    ⊎ ((to : ℕ) × (memories : List Arena) × (result ≡ returns (some to, memories))
        × (is_relatively_far pointer to 5 ≡ false))

module _ (system : System) where
  open system use {granularity}

  -- What the loop may return: nothing, or an address that is not far.
  abbrev pub IsNear : ℕ → Option ℕ → Type 0
  IsNear pointer none = Unit {0}
  IsNear pointer (some to) = (is_relatively_far pointer to 5 ≡ false) × (0 < to)

  module _ (buffers : List ℕ) (pointer : ℕ) (small : granularity ≤ 2 ^ 32)
      (high : pointer + 2 ^ 31 + 5 + granularity < size_mod) where
    allocate_loop_lem :
        (fuel target : ℕ)
        → target < pointer + 5 + 2 ^ 31
        → pointer + 5 + 2 ^ 31 ≤ target + fuel * granularity
        → 0 < granularity
        → (o : Option ℕ) × (allocate_loop system fuel buffers pointer target ≡ returns o)
          × IsNear pointer o
    unfolding allocate_loop
    allocate_loop_lem zero target below enough some_size = absurd (omega arith)
    allocate_loop_lem (suc fuel) target below enough some_size =
        let t = (target + granularity) % size_mod in
        let whole : (target + granularity) % size_mod ≡ target + granularity = omega arith in
        elim (Bool-cases (is_relatively_far pointer ((target + granularity) % size_mod) 5)) [
          | inl far ↦ (none, rw (far, allocate_loop) refl, tt)
          | inr near ↦
              elim (Bool-cases (system.virtual_alloc buffers ((target + granularity) % size_mod))) [
                | inl got ↦ (
                  some ((target + granularity) % size_mod),
                  rw (near, allocate_loop) (rw got refl),
                  (near, omega arith),
                )
                | inr missed ↦
                    let bound =
                      near-le pointer ((target + granularity) % size_mod) (omega arith)
                        (omega arith) (omega arith) near in
                    let more = suc-mul fuel granularity in
                    let (o, e, n) =
                      allocate_loop_lem fuel ((target + granularity) % size_mod) (omega arith)
                        (omega arith) some_size in
                    (o, rw (near, allocate_loop) (rw missed e), n)
              ]
        ]

  round_down-lt :
      (n : ℕ)
      → 0 < granularity
      → (round_down system n ≤ n) × (n < round_down system n + granularity)
  unfolding round_down
  round_down-lt n h = (omega arith, omega (arith, mod-lt n h))

  allocate_somewhere_near_lem :
      (buffers : List ℕ) (pointer : ℕ)
      → 16 ≤ granularity
      → granularity ≤ 2 ^ 32
      → 2 ^ 31 ≤ pointer
      → pointer + 2 ^ 31 + 5 + granularity < size_mod
      → (o : Option ℕ) × (allocate_somewhere_near system buffers pointer ≡ returns o)
        × IsNear pointer o
  unfolding allocate_somewhere_near
  allocate_somewhere_near_lem buffers pointer least small low high =
      let first : (pointer + (size_mod - 2 ^ 31)) % size_mod ≡ pointer - 2 ^ 31 = omega arith in
      let (below, above) =
        round_down-lt ((pointer + (size_mod - 2 ^ 31)) % size_mod) (omega arith) in
      let rounds : 2 ^ 32 / granularity * granularity + 2 ^ 32 % granularity ≡ 2 ^ 32 =
        div-add-mod' (2 ^ 32) granularity in
      let rest : 2 ^ 32 % granularity < granularity = mod-lt (2 ^ 32) (omega arith) in
      let fuel : (2 ^ 32 / granularity + 3) * granularity
          ≡ 2 ^ 32 / granularity * granularity + 3 * granularity =
        grind arith in
      allocate_loop_lem buffers pointer small high (2 ^ 32 / granularity + 3)
        (round_down system ((pointer + (size_mod - 2 ^ 31)) % size_mod)) (omega arith) (omega arith)
        (omega arith)

  allocate-get_ptr :
      (n : ℕ) (arena arena' : Arena) (ptr : ℕ)
      → allocate n arena ≡ some (ptr, arena')
      → ptr ≡ get_ptr arena
  unfolding allocate
  allocate-get_ptr n arena arena' ptr e =
      elim (Bool-cases (arena.buffer == 0 || ltb arena.size ((arena.offset + n) % size_mod))) [
        | inl full ↦
            let clash : ◌≡◌ {A = Option (ℕ × Arena)} none (some (ptr, arena')) = rw full at e in cc
        | inr room ↦
            let same : some (get_ptr arena, record arena { offset = (arena.offset + n) % size_mod })
                ≡ some (ptr, arena') =
              rw room at e in
            sym (ap (λ o. elim o [ none ↦ get_ptr arena | some (p, a) ↦ p ]) same)
      ]

  keep_piece-some :
      (arena : Arena) (o : Option (ℕ × List Arena)) (r : ℕ × List Arena)
      → keep_piece arena o ≡ some r
      → (q : ℕ × List Arena) × (o ≡ some q) × (q.0 ≡ r.0)
  keep_piece-some arena none r e = cc
  keep_piece-some arena (some (ptr, memories)) r e =
      ((ptr, memories), refl, ap (λ o. elim o [ none ↦ ptr | some q ↦ q.0 ]) e)

  -- A piece is only used where its next free address is not far.
  allocate_in-near :
      (address n : ℕ) (memories : List Arena) (r : ℕ × List Arena)
      → allocate_in system address n memories ≡ some r
      → is_relatively_far address r.0 5 ≡ false
  unfolding allocate_in
  allocate_in-near address n [] r e = cc
  allocate_in-near address n (arena ∷ memories) r e =
      elim (Bool-cases (is_relatively_far address (get_ptr arena) 5)) [
        | inl far ↦ later (allocate_in-near address n memories) (rw (far, allocate_in) at e)
        | inr near ↦ elim (Option-cases (allocate n arena)) [
          | inl full ↦
              later (allocate_in-near address n memories) (rw full at (rw (near, allocate_in) at e))
          | inr ((ptr, arena'), got) ↦
              let same : some (ptr, arena' ∷ memories) ≡ some r =
                rw got at (rw (near, allocate_in) at e) in
              let first : ptr ≡ r.0 = ap (λ o. elim o [ none ↦ ptr | some q ↦ q.0 ]) same in
              subst (λ x. is_relatively_far address x 5 ≡ false)
                (sym (allocate-get_ptr n arena arena' ptr got) ∙ first) near
        ]
      ]
    where
      later :
          ((q : ℕ × List Arena)
            → allocate_in system address n memories ≡ some q
            → is_relatively_far address q.0 5 ≡ false)
          → keep_piece arena (allocate_in system address n memories) ≡ some r
          → is_relatively_far address r.0 5 ≡ false
      later ih h =
          let (q, found, same) =
            keep_piece-some arena (allocate_in system address n memories) r h in
          subst (λ x. is_relatively_far address x 5 ≡ false) same (ih q found)

  module _ (pointer : ℕ) (memories : List Arena) (least : 16 ≤ granularity)
      (small : granularity ≤ 2 ^ 32) (low : 2 ^ 31 ≤ pointer)
      (high : pointer + 2 ^ 31 + 5 + granularity < size_mod) where
    abbrev fresh : ℕ → Arena
    fresh buffer = record { buffer = buffer; size = granularity; offset = 0 }

    fresh-allocate :
        (buffer : ℕ)
        → 0 < buffer
        → allocate 14 (fresh buffer)
          ≡ some (buffer + 0, record { buffer = buffer; size = granularity; offset = 14 })
    unfolding allocate
    fresh-allocate buffer some_address =
        let used : (buffer == 0) ≡ false = ==_ne buffer 0 (λ e. absurd (omega arith)) in
        let room : ltb granularity ((0 + 14) % size_mod) ≡ false =
          ltb-false granularity ((0 + 14) % size_mod) (omega arith) in
        rw (used, room)

    pub get_memory_near_lem : FindsMemory pointer (get_memory_near system pointer 14 memories)
    unfolding get_memory_near
    get_memory_near_lem = elim (Option-cases (allocate_in system pointer 14 memories)) [
      | inr ((to, memories'), found) ↦ inr (
        to,
        memories',
        rw (found, get_memory_near) refl,
        allocate_in-near pointer 14 memories (to, memories') found,
      )
      | inl missed ↦
          let (o, e, near) =
            allocate_somewhere_near_lem (map (λ arena. arena.buffer) memories) pointer least small
              low high in
          rw (missed, e, get_memory_near) (new_piece o near)
    ]
      where
        new_piece :
            (o : Option ℕ)
            → IsNear pointer o
            → FindsMemory pointer (
                new_arena system o >>= λ arena.
                returns (back_allocate arena memories (allocate 14 arena)))
        new_piece none near = inl refl
        new_piece (some to) (near, some_address) = rw (fresh-allocate to some_address) (
            inr (
              to + 0,
              _,
              refl,
              subst (λ x. is_relatively_far pointer x 5 ≡ false) (omega arith) near,
            ))
