-- ===== src/Hook/Landing.antt =====
-- The branches of src/common/utils/hook.cpp as a whole: where the processor goes, by way of a
-- trampoline or not.
use w3m.Prelude.{
  ℕ, suc, ◌+◌, ◌%◌, ◌^◌, ◌≤◌, ◌<◌, ◌≡◌, refl, inl, inr, Bool, true, false, not, ◌&&◌, List, some,
  arith, ◌==◌, Bool-cases, All,
}
use w3m.Prelude.Words.{size_mod}
use w3m.Prelude.Outcome.{returns, ◌>>=◌}
use w3m.Hook.{
  sign_extend, difference, is_relatively_far, Arena, System, write_bytes, near_branch, far_branch,
  Process, patch, jump, call, follow_branch,
}
use w3m.Hook.Distance.{reached}
use w3m.Hook.Arenas.{get_memory_near_lem}
use w3m.Hook.Branches.{Leads, written_near, written_far, distance_bytes, near_bytes}
use w3m.Hook.Room.{IsRegion, GivesApart, get_memory_near-IsApart}

-- The process with a branch to a trampoline that leads on.
abbrev via : ℕ → ℕ → ℕ → ℕ → List Arena → Process → Process
via opcode pointer t to memories p = record {
  code =
      write_bytes t (far_branch true to)
        (write_bytes pointer (near_branch opcode pointer t) p.code);
  memories = memories;
}

module _ (system : System) (pointer to : ℕ) (p : Process) (least : 16 ≤ system.granularity)
    (small : system.granularity ≤ 2 ^ 32) (low : 2 ^ 31 ≤ pointer)
    (high : pointer + 2 ^ 31 + 5 + system.granularity < size_mod) (word : to < size_mod)
    (gives : GivesApart system pointer) (regions : All (IsRegion pointer) p.memories) where
  jump-Leads :
      (fuel : ℕ) (use_safe : Bool)
      → Leads pointer to (jump system (suc (suc fuel)) pointer to false use_safe p)
  unfolding jump
  jump-Leads fuel use_safe = elim (Bool-cases (is_relatively_far pointer to 5)) [
    | inr near ↦ inr (
      patch pointer (near_branch 0xe9 pointer to) p,
      rw (near, jump) refl,
      inl (written_near pointer to (omega arith) word 0xe9 p.code refl near),
    )
    | inl far ↦ elim (get_memory_near_lem system pointer p.memories least small low high) [
      | inl failed ↦ inl (rw (far, jump) (rw failed refl))
      | inr (t, ms, found, near) ↦
          let (apart, left) =
            get_memory_near-IsApart pointer system p.memories (some t, ms) gives small regions
              found in
          inr (
            via 0xe9 pointer t to ms p,
            rw (far, jump) (rw found (rw (near, jump) refl)),
            written_far pointer to (omega arith) word 0xe9 t p.code refl near (apart t refl),
          )
    ]
  ]

  call-Leads : (fuel : ℕ) → Leads pointer to (call system (suc (suc fuel)) pointer to p)
  unfolding call jump
  call-Leads fuel = elim (Bool-cases (is_relatively_far pointer to 5)) [
    | inr near ↦ inr (
      patch pointer (near_branch 0xe8 pointer to) p,
      rw (near, call) refl,
      inl (written_near pointer to (omega arith) word 0xe8 p.code refl near),
    )
    | inl far ↦ elim (get_memory_near_lem system pointer p.memories least small low high) [
      | inl failed ↦ inl (rw (far, call) (rw failed refl))
      | inr (t, ms, found, near) ↦
          let (apart, left) =
            get_memory_near-IsApart pointer system p.memories (some t, ms) gives small regions
              found in
          inr (
            via 0xe8 pointer t to ms p,
            rw (far, call) (rw found (rw (near, call) refl)),
            written_far pointer to (omega arith) word 0xe8 t p.code refl near (apart t refl),
          )
    ]
  ]

  -- Where the system's pieces of memory have between 16 and 2 ^ 32 bytes, the branch lies at least
  -- 2 ^ 31 from both ends of the address space, with one piece less at the upper one, the address is
  -- one of 64 bits, every piece that the system gives or the process has lies inside of the address
  -- space and holds none of the five bytes at the branch, and of the pieces that the process has none
  -- is larger than 2 ^ 32 bytes or used beyond its end: a jump, safe or not, and a call, on two or
  -- more rounds, either throw as the system has no memory for a trampoline, or leave a process whose
  -- code leads from the branch to the address, at once or by way of one trampoline.
  pub branch-Leads :
      (fuel : ℕ) (use_safe : Bool)
      → Leads pointer to (jump system (suc (suc fuel)) pointer to false use_safe p)
        × Leads pointer to (call system (suc (suc fuel)) pointer to p)
  branch-Leads fuel use_safe = (jump-Leads fuel use_safe, call-Leads fuel)

module _ (system : System) (pointer to : ℕ) (p : Process) (low : pointer + 5 < size_mod)
    (word : to < size_mod) (near : is_relatively_far pointer to 5 ≡ false) where
  followed :
      (opcode : ℕ)
      → (not (opcode == 0xe8) && not (opcode == 0xe9)) ≡ false
      → follow_branch pointer (write_bytes pointer (near_branch opcode pointer to) p.code)
        ≡ returns to
  unfolding follow_branch
  followed opcode branch =
      let code = write_bytes pointer (near_branch opcode pointer to) p.code in
      let (first, distance) =
        distance_bytes pointer to code low word near opcode (near_bytes opcode pointer to p.code) in
      let next : pointer + 1 ≡ suc pointer = omega arith in
      let place : suc pointer + sign_extend (difference pointer to 5 % 2 ^ 32) + 4
          ≡ pointer + 5 + sign_extend (difference pointer to 5 % 2 ^ 32) =
        omega arith in
      rw (first, branch, next, distance, place, reached pointer to 5 low word near)

  -- Where the branch ends inside of the address space, the address is one of 64 bits and not far, a
  -- jump that is not to be a far one, and a call, are followed by `follow_branch` to the address.
  pub follow_branch-jump :
      (fuel : ℕ) (use_safe : Bool)
      → ((jump system (suc fuel) pointer to false use_safe p >>= λ q. follow_branch pointer q.code)
          ≡ returns to)
        × ((call system (suc fuel) pointer to p >>= λ q. follow_branch pointer q.code) ≡ returns to)
  unfolding jump call
  follow_branch-jump fuel use_safe =
      (rw (near, jump) (followed 0xe9 refl), rw (near, call) (followed 0xe8 refl))
