-- ===== src/Hook/Room.antt =====
-- Where the memory lies that src/common/utils/hook.cpp takes for a branch.
use mathlib.Core.Path.{subst}
use w3m.Prelude.{
  ℕ, zero, suc, ◌+◌, ◌%◌, ◌^◌, ◌≤◌, ◌≡◌, refl, ap, ◌⊎◌, inl, inr, true, false, ◌||◌, List, [], ◌∷◌,
  Option, none, some, arith, ◌==◌, ltb, map, Bool-cases, Option-cases, All, All-append,
}
use w3m.Prelude.Words.{size_mod}
use w3m.Prelude.Outcome.{Outcome, returns, ◌>>=◌}
use w3m.Hook.{
  is_relatively_far, Arena, get_ptr, allocate, System, allocate_loop, allocate_somewhere_near,
  new_arena, back_allocate, keep_piece, allocate_in, get_memory_near,
}
use w3m.Hook.Branches.{IsApart}

-- A piece of memory of at most 2 ^ 32 bytes, with none of the five bytes at the pointer.
abbrev pub IsRegion : ℕ → Arena → Type 0
IsRegion pointer arena =
    (arena.offset ≤ arena.size)
    × (arena.size ≤ 2 ^ 32)
    × (arena.buffer + arena.size ≤ size_mod)
    × ((arena.buffer + arena.size ≤ pointer) ⊎ (pointer + 5 ≤ arena.buffer))

-- The system gives no memory that holds the five bytes.
abbrev pub GivesApart : System → ℕ → Type 0
GivesApart system pointer =
    (buffers : List ℕ) (target : ℕ)
    → system.virtual_alloc buffers target ≡ true
    → (target + system.granularity ≤ size_mod)
      × ((target + system.granularity ≤ pointer) ⊎ (pointer + 5 ≤ target))

module _ {A : Type 0} where
  abbrev pub some_or : A → Option A → A
  some_or x none = x
  some_or x (some y) = y

  abbrev pub returned : A → Outcome A → A
  returned x (returns y) = y
  returned x o = x

room_lem :
    (pointer : ℕ) (arena : Arena)
    → IsRegion pointer arena
    → (arena.buffer == 0 || ltb arena.size ((arena.offset + 14) % size_mod)) ≡ false
    → IsApart pointer (get_ptr arena)
      × IsRegion pointer (record arena { offset = (arena.offset + 14) % size_mod })
room_lem pointer arena (used, small, whole, inl before) h =
    let room : (arena.offset + 14) % size_mod ≤ arena.size = ground arith in
    ((omega arith, inl (omega arith)), (room, small, whole, inl before))
room_lem pointer arena (used, small, whole, inr after) h =
    let room : (arena.offset + 14) % size_mod ≤ arena.size = ground arith in
    ((omega arith, inr (omega arith)), (room, small, whole, inr after))

module _ (pointer : ℕ) where
  allocate-IsApart :
      (arena : Arena) (r : ℕ × Arena)
      → IsRegion pointer arena
      → allocate 14 arena ≡ some r
      → IsApart pointer r.0 × IsRegion pointer r.1
  unfolding allocate
  allocate-IsApart arena r region e =
      elim (Bool-cases (arena.buffer == 0 || ltb arena.size ((arena.offset + 14) % size_mod))) [
        | inl full ↦ let clash : ◌≡◌ {A = Option (ℕ × Arena)} none (some r) = rw full at e in cc
        | inr room ↦
            let same : some
                  (get_ptr arena, record arena { offset = (arena.offset + 14) % size_mod })
                ≡ some r =
              rw room at e in
            subst (λ q. IsApart pointer q.0 × IsRegion pointer q.1) (ap (some_or r) same)
              (room_lem pointer arena region room)
      ]

  module _ (system : System) where
    allocate_in-IsApart :
        (memories : List Arena) (r : ℕ × List Arena)
        → All (IsRegion pointer) memories
        → allocate_in system pointer 14 memories ≡ some r
        → IsApart pointer r.0 × All (IsRegion pointer) r.1
    unfolding allocate_in
    allocate_in-IsApart [] r regions e = cc
    allocate_in-IsApart (arena ∷ memories) r (region, regions) e =
        elim (Bool-cases (is_relatively_far pointer (get_ptr arena) 5)) [
          | inl far ↦
              later (allocate_in system pointer 14 memories)
                (λ q. allocate_in-IsApart memories q regions) (rw (far, allocate_in) at e)
          | inr near ↦ elim (Option-cases (allocate 14 arena)) [
            | inl full ↦
                later (allocate_in system pointer 14 memories)
                  (λ q. allocate_in-IsApart memories q regions)
                  (rw full at (rw (near, allocate_in) at e))
            | inr ((ptr, arena'), got) ↦
                let same : some (ptr, arena' ∷ memories) ≡ some r =
                  rw got at (rw (near, allocate_in) at e) in
                let (apart, left) = allocate-IsApart arena (ptr, arena') region got in
                subst (λ q. IsApart pointer q.0 × All (IsRegion pointer) q.1) (ap (some_or r) same)
                  (apart, (left, regions))
          ]
        ]
      where
        later :
            (o : Option (ℕ × List Arena))
            → ((q : ℕ × List Arena) → o ≡ some q → IsApart pointer q.0 × All (IsRegion pointer) q.1)
            → keep_piece arena o ≡ some r
            → IsApart pointer r.0 × All (IsRegion pointer) r.1
        later none ih h = cc
        later (some (ptr, ms)) ih h =
            let (apart, left) = ih (ptr, ms) refl in
            subst (λ q. IsApart pointer q.0 × All (IsRegion pointer) q.1) (ap (some_or r) h)
              (apart, (region, left))

    module _ (buffers : List ℕ) (gives : GivesApart system pointer)
        (small : system.granularity ≤ 2 ^ 32) where
      fresh : ℕ → Arena
      fresh buffer = record { buffer = buffer; size = system.granularity; offset = 0 }

      allocate_loop-IsRegion :
          (fuel base target buffer : ℕ)
          → allocate_loop system fuel buffers base target ≡ returns (some buffer)
          → IsRegion pointer (fresh buffer)
      unfolding allocate_loop fresh
      allocate_loop-IsRegion zero base target buffer e = cc
      allocate_loop-IsRegion (suc fuel) base target buffer e =
          elim (Bool-cases (is_relatively_far base ((target + system.granularity) % size_mod) 5)) [
            | inl far ↦
                let clash : ◌≡◌ {A = Outcome (Option ℕ)} (returns none) (returns (some buffer)) =
                  rw (far, allocate_loop) at e in
                cc
            | inr near ↦
                elim (Bool-cases
                  (system.virtual_alloc buffers ((target + system.granularity) % size_mod))) [
                    | inl got ↦
                        let same : returns (some ((target + system.granularity) % size_mod))
                            ≡ returns (some buffer) =
                          rw got at (rw (near, allocate_loop) at e) in
                        let (whole, apart) =
                          gives buffers ((target + system.granularity) % size_mod) got in
                        subst (λ t. IsRegion pointer (fresh t))
                          (ap (λ o. some_or 0 (returned none o)) same)
                          (zero-le, small, whole, apart)
                    | inr missed ↦
                        allocate_loop-IsRegion fuel base ((target + system.granularity) % size_mod)
                          buffer (rw missed at (rw (near, allocate_loop) at e))
                  ]
          ]
        where
          zero-le : 0 ≤ system.granularity
          zero-le = omega arith

    -- What is given for a branch, and what is had afterwards, holds none of its five bytes.
    pub get_memory_near-IsApart :
        (memories : List Arena) (r : Option ℕ × List Arena)
        → GivesApart system pointer
        → system.granularity ≤ 2 ^ 32
        → All (IsRegion pointer) memories
        → get_memory_near system pointer 14 memories ≡ returns r
        → ((t : ℕ) → r.0 ≡ some t → IsApart pointer t) × All (IsRegion pointer) r.1
    unfolding get_memory_near allocate_somewhere_near fresh
    get_memory_near-IsApart memories r gives small regions e =
        elim (Option-cases (allocate_in system pointer 14 memories)) [
          | inr ((t, ms), found) ↦
              let (apart, left) = allocate_in-IsApart memories (t, ms) regions found in
              let same : returns (some t, ms) ≡ returns r = rw (found, get_memory_near) at e in
              subst Good (ap (returned r) same)
                ((λ u h. subst (IsApart pointer) (ap (some_or t) h) apart), left)
          | inl missed ↦
              new_piece
                (allocate_somewhere_near system (map (λ arena. arena.buffer) memories) pointer)
                (λ buffer.
                  allocate_loop-IsRegion (map (λ arena. arena.buffer) memories) gives small _
                    pointer _ buffer)
                (rw (missed, get_memory_near) at e)
        ]
      where
        Good : Option ℕ × List Arena → Type 0
        Good q = ((t : ℕ) → q.0 ≡ some t → IsApart pointer t) × All (IsRegion pointer) q.1

        last_piece :
            (arena : Arena) (o : Option (ℕ × Arena))
            → IsRegion pointer arena
            → allocate 14 arena ≡ o
            → Good (back_allocate arena memories o)
        last_piece arena none region h = (
          (λ t clash. cc),
          All-append (IsRegion pointer) memories (arena ∷ []) regions (region, tt),
        )
        last_piece arena (some (t, arena')) region h =
            let (apart, left) = allocate-IsApart arena (t, arena') region h in
            (
              (λ u same. subst (IsApart pointer) (ap (some_or t) same) apart),
              All-append (IsRegion pointer) memories (arena' ∷ []) regions (left, tt),
            )

        new_piece :
            (o : Outcome (Option ℕ))
            → ((buffer : ℕ)
                → o ≡ returns (some buffer)
                → IsRegion pointer
                    (record { buffer = buffer; size = system.granularity; offset = 0 }))
            → (o >>= λ buffer. new_arena system buffer >>= λ arena.
                returns (back_allocate arena memories (allocate 14 arena)))
              ≡ returns r
            → Good r
        new_piece (returns none) region h = cc
        new_piece (returns (some buffer)) region h =
            subst Good (ap (returned r) h) (last_piece _ _ (region buffer refl) refl)
        new_piece _ region h = cc
