-- ===== src/Hook/Branches.antt =====
-- Where the branches lead that src/common/utils/hook.cpp writes.
use mathlib.Core.Path.{subst}
use w3m.Prelude.{
  ℕ, suc, ◌+◌, ◌%◌, ◌^◌, ◌≤◌, ◌<◌, ◌≡◌, sym, ap, ◌∙◌, ◌⊎◌, inl, inr, true, false, ◌&&◌, ◌||◌, List,
  [], ◌∷◌, ◌++◌, Option, none, some, arith, if◌then◌else◌, ◌==◌, length, drop,
}
use w3m.Prelude.Words.{size_mod, le_bytes, le_value, length-le_bytes, le_value-le_bytes}
use w3m.Prelude.Outcome.{Outcome, returns, throws, failed_to_allocate}
use w3m.Hook.{
  sign_extend, difference, is_relatively_far, Code, write_bytes, read_bytes, near_branch,
  far_branch, Process,
}
use w3m.Hook.Distance.{reached}
use w3m.Hook.Bytes.{write_bytes_outside, read_bytes_same, read_bytes-write_bytes, read_bytes_add}

-- Where the processor goes on behind the branch at an address: `E8` and `E9` with a distance from
-- their end, and `FF 25 00 00 00 00` with an address behind it.
unfoldable pub destination : Code → ℕ → Option ℕ
unfolding read_bytes sign_extend
destination code pointer =
    if code pointer == 0xe8 || code pointer == 0xe9
    then some ((pointer + 5 + sign_extend (le_value (read_bytes 4 (suc pointer) code))) % size_mod)
    else if code pointer == 0xff
        && code (suc pointer) == 0x25
        && le_value (read_bytes 4 (suc (suc pointer)) code) == 0
    then some (le_value (read_bytes 8 (pointer + 6) code))
    else none

-- The branch leads to the address at once, or by way of one other branch.
abbrev pub Lands : Code → ℕ → ℕ → Type 0
Lands code pointer to =
    (destination code pointer ≡ some to)
    ⊎ ((trampoline : ℕ) × (destination code pointer ≡ some trampoline)
        × (destination code trampoline ≡ some to))

abbrev pub head_or : List ℕ → ℕ
head_or [] = 0
head_or (x ∷ xs) = x

pub near_bytes :
    (opcode pointer to : ℕ) (code : Code)
    → read_bytes 5 pointer (write_bytes pointer (near_branch opcode pointer to) code)
      ≡ near_branch opcode pointer to
unfolding near_branch
near_bytes opcode pointer to code =
    let five : length (near_branch opcode pointer to) ≡ 5 =
      ap suc (length-le_bytes 4 (difference pointer to 5 % 2 ^ 32)) in
    subst
      (λ n.
        read_bytes n pointer (write_bytes pointer (near_branch opcode pointer to) code)
        ≡ near_branch opcode pointer to)
      five (read_bytes-write_bytes (near_branch opcode pointer to) pointer code)

module _ (pointer to : ℕ) (code : Code) (low : pointer + 5 < size_mod) (small : to < size_mod)
    (near : is_relatively_far pointer to 5 ≡ false) where
  pub distance_bytes :
      (opcode : ℕ)
      → read_bytes 5 pointer code ≡ near_branch opcode pointer to
      → (code pointer ≡ opcode)
        × (le_value (read_bytes 4 (suc pointer) code) ≡ difference pointer to 5 % 2 ^ 32)
  unfolding near_branch read_bytes
  distance_bytes opcode e =
      let tails : read_bytes 4 (suc pointer) code ≡ le_bytes 4 (difference pointer to 5 % 2 ^ 32) =
        ap (drop 1) e in
      (
        ap head_or e,
        ap le_value tails ∙ le_value-le_bytes 4 (difference pointer to 5 % 2 ^ 32) (omega arith),
      )

  pub near_destination :
      (opcode : ℕ)
      → (opcode == 0xe8 || opcode == 0xe9) ≡ true
      → read_bytes 5 pointer code ≡ near_branch opcode pointer to
      → destination code pointer ≡ some to
  unfolding destination
  near_destination opcode branch e =
      let (first, distance) = distance_bytes opcode e in
      rw (first, branch, distance, reached pointer to 5 low small near)

far_bytes :
    (pointer to : ℕ) (code : Code)
    → read_bytes 14 pointer (write_bytes pointer (far_branch true to) code) ≡ far_branch true to
unfolding far_branch
far_bytes pointer to code =
    let fourteen : length (far_branch true to) ≡ 14 =
      ap (λ n. suc (suc (suc (suc (suc (suc n)))))) (length-le_bytes 8 to) in
    subst
      (λ n.
        read_bytes n pointer (write_bytes pointer (far_branch true to) code) ≡ far_branch true to)
      fourteen (read_bytes-write_bytes (far_branch true to) pointer code)

module _ (pointer to : ℕ) (code : Code) (small : to < size_mod)
    (written : read_bytes 14 pointer code ≡ far_branch true to) where
  far_parts : read_bytes 6 pointer code ++ read_bytes 8 (pointer + 6) code ≡ far_branch true to
  far_parts = sym (read_bytes_add 6 8 pointer code) ∙ written

  far_destination : destination code pointer ≡ some to
  unfolding destination far_branch read_bytes le_value
  far_destination =
      let first : code pointer ≡ 0xff = ap head_or far_parts in
      let second : code (suc pointer) ≡ 0x25 = ap (λ l. head_or (drop 1 l)) far_parts in
      let third : code (suc (suc pointer)) ≡ 0 = ap (λ l. head_or (drop 2 l)) far_parts in
      let fourth : code (suc (suc (suc pointer))) ≡ 0 = ap (λ l. head_or (drop 3 l)) far_parts in
      let fifth : code (suc (suc (suc (suc pointer)))) ≡ 0 =
        ap (λ l. head_or (drop 4 l)) far_parts in
      let sixth : code (suc (suc (suc (suc (suc pointer))))) ≡ 0 =
        ap (λ l. head_or (drop 5 l)) far_parts in
      let address : le_value (read_bytes 8 (pointer + 6) code) ≡ to =
        ap (λ l. le_value (drop 6 l)) far_parts ∙ le_value-le_bytes 8 to (omega arith) in
      rw (first, second, third, fourth, fifth, sixth, address)

-- Fourteen bytes at an address are in the address space, and none of the five at the pointer.
abbrev pub IsApart : ℕ → ℕ → Type 0
IsApart pointer t = (t + 14 ≤ size_mod) × ((t + 14 ≤ pointer) ⊎ (pointer + 5 ≤ t))

-- The processor reaches the address, or there was no memory for a trampoline.
abbrev pub Leads : ℕ → ℕ → Outcome Process → Type 0
Leads pointer to result =
    (result ≡ throws failed_to_allocate)
    ⊎ ((p : Process) × (result ≡ returns p) × Lands p.code pointer to)

module _ (pointer to : ℕ) (low : pointer + 5 < size_mod) (small : to < size_mod) where
  pub written_near :
      (opcode : ℕ) (code : Code)
      → (opcode == 0xe8 || opcode == 0xe9) ≡ true
      → is_relatively_far pointer to 5 ≡ false
      → destination (write_bytes pointer (near_branch opcode pointer to) code) pointer ≡ some to
  written_near opcode code branch near =
      near_destination pointer to (write_bytes pointer (near_branch opcode pointer to) code) low
        small near opcode branch (near_bytes opcode pointer to code)

  pub written_far :
      (opcode t : ℕ) (code : Code)
      → (opcode == 0xe8 || opcode == 0xe9) ≡ true
      → is_relatively_far pointer t 5 ≡ false
      → IsApart pointer t
      → Lands
          (write_bytes t
            (far_branch true to)
            (write_bytes pointer (near_branch opcode pointer t) code))
          pointer
          to
  unfolding far_branch
  written_far opcode t code branch near (inside, apart) =
      let branched = write_bytes pointer (near_branch opcode pointer t) code in
      let both = write_bytes t (far_branch true to) branched in
      let fourteen : length (far_branch true to) ≡ 14 =
        ap (λ n. suc (suc (suc (suc (suc (suc n)))))) (length-le_bytes 8 to) in
      let kept : read_bytes 5 pointer both ≡ near_branch opcode pointer t =
        read_bytes_same 5 pointer both branched (λ a least below.
          write_bytes_outside (far_branch true to) t a branched
            (outside a least below fourteen apart))
        ∙ near_bytes opcode pointer t code in
      inr (
        t,
        near_destination pointer t both low (omega arith) near opcode branch kept,
        far_destination t to both small (far_bytes t to branched),
      )
    where
      outside :
          (a : ℕ)
          → pointer ≤ a
          → a < pointer + 5
          → length (far_branch true to) ≡ 14
          → (t + 14 ≤ pointer) ⊎ (pointer + 5 ≤ t)
          → (a < t) ⊎ (t + length (far_branch true to) ≤ a)
      outside a least below fourteen (inl e) = inr (omega arith)
      outside a least below fourteen (inr e) = inl (omega arith)
