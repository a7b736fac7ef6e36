-- ===== src/Hook/Distance.antt =====
-- Distances of 32 bits in src/common/utils/hook.cpp.
use w3m.Prelude.{
  ◌||◌, ◌&&◌, ℕ, ◌+◌, ◌-◌, ◌%◌, ◌^◌, ◌<◌, ◌≤◌, ◌≡◌, refl, sym, ap, ◌∙◌, Bool, true, false, not,
  ◌==◌, ltb, arith, ==_iff,
}
use w3m.Prelude.Words.{size_mod}
use w3m.Hook.{sign_extend, difference, is_relatively_far}

-- A place that is not far is reached by adding the distance, cut to 32 bits and extended again.
pub reached :
    (pointer to offset : ℕ)
    → pointer + offset < size_mod
    → to < size_mod
    → is_relatively_far pointer to offset ≡ false
    → (pointer + offset + sign_extend (difference pointer to offset % 2 ^ 32)) % size_mod ≡ to
unfolding is_relatively_far difference
reached pointer to offset hp ht near =
    let same : difference pointer to offset ≡ sign_extend (difference pointer to offset % 2 ^ 32) =
      (==_iff _ _).0 (not_not _ near) in
    ap (λ d. (pointer + offset + d) % size_mod) (sym same) ∙ omega arith
  where
    not_not : (b : Bool) → not b ≡ false → b ≡ true
    not_not true h = refl
    not_not false h = sym h

far_lem :
    (d : ℕ)
    → d < size_mod
    → not (d == sign_extend (d % 2 ^ 32))
      ≡ (not (ltb d (2 ^ 31)) && not (ltb (2 ^ 64 - 2 ^ 31 - 1) d))
unfolding sign_extend
far_lem d h = ground arith

pub is_relatively_far_iff :
    (pointer to offset : ℕ)
    → is_relatively_far pointer to offset ≡ (
        not (ltb (difference pointer to offset) (2 ^ 31))
        && not (ltb (2 ^ 64 - 2 ^ 31 - 1) (difference pointer to offset)))
unfolding is_relatively_far difference
is_relatively_far_iff pointer to offset = far_lem (difference pointer to offset) (omega arith)

-- Where the place at the offset behind the pointer is at least 2 ^ 31 away from both ends of the
-- address space, an address is far from it exactly if it is more than 2 ^ 31 below it, or 2 ^ 31 or
-- more above it.
pub is_relatively_far_lem :
    (pointer to offset : ℕ)
    → 2 ^ 31 ≤ pointer + offset
    → pointer + offset + 2 ^ 31 ≤ size_mod
    → to < size_mod
    → is_relatively_far pointer to offset
      ≡ (ltb (to + 2 ^ 31) (pointer + offset) || not (ltb to (pointer + offset + 2 ^ 31)))
unfolding difference
is_relatively_far_lem pointer to offset low high word =
    is_relatively_far_iff pointer to offset ∙ sides (pointer + offset) to low high word
  where
    sides :
        (p to : ℕ)
        → 2 ^ 31 ≤ p
        → p + 2 ^ 31 ≤ size_mod
        → to < size_mod
        → (not (ltb ((to + (size_mod - p % size_mod)) % size_mod) (2 ^ 31))
            && not (ltb (2 ^ 64 - 2 ^ 31 - 1) ((to + (size_mod - p % size_mod)) % size_mod)))
          ≡ (ltb (to + 2 ^ 31) p || not (ltb to (p + 2 ^ 31)))
    sides p to low high word = ground arith
