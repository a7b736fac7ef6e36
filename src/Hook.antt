-- ===== src/Hook.antt =====
-- The branches that src/common/utils/hook.cpp writes into code, and the memory it takes for those
-- that lead far away. Addresses and differences are unsigned numbers of 64 bits, that wrap around;
-- what `VirtualAlloc` answers is a parameter.
pub mod Distance
pub mod Bytes
pub mod Branches
pub mod Arenas
pub mod Room
pub mod Landing
pub mod Detours
pub mod Moved
pub mod Tests
use w3m.Prelude.{
  ℕ, zero, suc, ◌+◌, ◌-◌, ◌*◌, ◌/◌, ◌%◌, ◌^◌, Bool, true, false, not, ◌&&◌, ◌||◌, List, [], ◌∷◌,
  ◌++◌, Option, none, some, ltb, ◌==◌, if◌then◌else◌, map, length, replicate,
}
use w3m.Prelude.Words.{size_mod, le_bytes, le_value}
use w3m.Prelude.Outcome.{
  Outcome, returns, throws, terminates, undefined, ◌>>=◌, failed_to_allocate, too_far_away,
  no_branch_instruction,
}

-- A signed number of 32 bits, as an unsigned one of 64.
unfoldable pub sign_extend : ℕ → ℕ
sign_extend n = if ltb n (2 ^ 31) then n else n + (2 ^ 64 - 2 ^ 32)

unfoldable pub difference : ℕ → ℕ → ℕ → ℕ
difference pointer to offset = (to + (size_mod - (pointer + offset) % size_mod)) % size_mod

unfoldable pub is_relatively_far : ℕ → ℕ → ℕ → Bool
unfolding difference sign_extend
is_relatively_far pointer to offset =
    let diff = difference pointer to offset in not (diff == sign_extend (diff % 2 ^ 32))

-- A piece of memory for trampolines: the class `memory`.
pub record Arena : Type 0 where
  pub buffer : ℕ
  pub size : ℕ
  pub offset : ℕ

abbrev pub get_ptr : Arena → ℕ
get_ptr arena = arena.buffer + arena.offset

-- `memory::allocate`; no address where there is no room.
unfoldable pub allocate : ℕ → Arena → Option (ℕ × Arena)
allocate n arena =
    if arena.buffer == 0 || ltb arena.size ((arena.offset + n) % size_mod)
    then none
    else some (get_ptr arena, record arena { offset = (arena.offset + n) % size_mod })

-- What the system answers: its granularity, and whether a region can be had at an address when those
-- with the given buffers were had before.
pub record System : Type 0 where
  pub granularity : ℕ
  pub virtual_alloc : List ℕ → ℕ → Bool

abbrev pub back_allocate : Arena → List Arena → Option (ℕ × Arena) → Option ℕ × List Arena
back_allocate arena memories none = (none, memories ++ (arena ∷ []))
back_allocate arena memories (some (ptr, arena')) = (some ptr, memories ++ (arena' ∷ []))

abbrev pub keep_piece : Arena → Option (ℕ × List Arena) → Option (ℕ × List Arena)
keep_piece arena none = none
keep_piece arena (some (ptr, memories)) = some (ptr, arena ∷ memories)

module _ (system : System) where
  open system use {granularity, virtual_alloc}

  -- The loop, with as many rounds as may be needed, and `undefined` behind them.
  unfoldable pub allocate_loop : ℕ → List ℕ → ℕ → ℕ → Outcome (Option ℕ)
  unfolding is_relatively_far
  allocate_loop zero buffers base_address target_address = undefined
  allocate_loop (suc fuel) buffers base_address target_address =
      let target = (target_address + granularity) % size_mod in
      elim (is_relatively_far base_address target 5) [
        | true ↦ returns none
        | false ↦ elim (virtual_alloc buffers target) [
          | true ↦ returns (some target)
          | false ↦ allocate_loop fuel buffers base_address target
        ]
      ]

  -- `& ~(granularity - 1)`, where the granularity is a power of two.
  unfoldable pub round_down : ℕ → ℕ
  round_down address = address - address % granularity

  unfoldable pub allocate_somewhere_near : List ℕ → ℕ → Outcome (Option ℕ)
  unfolding allocate_loop round_down
  allocate_somewhere_near buffers base_address =
      allocate_loop (2 ^ 32 / granularity + 3) buffers base_address
        (round_down ((base_address + (size_mod - 2 ^ 31)) % size_mod))

  abbrev pub new_arena : Option ℕ → Outcome Arena
  new_arena none = throws failed_to_allocate
  new_arena (some buffer) = returns (record { buffer = buffer; size = granularity; offset = 0 })

  -- The loop over the pieces that there are.
  unfoldable pub allocate_in : ℕ → ℕ → List Arena → Option (ℕ × List Arena)
  unfolding is_relatively_far allocate
  allocate_in address n [] = none
  allocate_in address n (arena ∷ memories) =
      let rest = keep_piece arena (allocate_in address n memories) in
      if is_relatively_far address (get_ptr arena) 5 then rest else elim (allocate n arena) [
        | none ↦ rest
        | some (ptr, arena') ↦ some (ptr, arena' ∷ memories)
      ]

  -- The address, or none, and the pieces afterwards.
  unfoldable pub get_memory_near : ℕ → ℕ → List Arena → Outcome (Option ℕ × List Arena)
  unfolding allocate_in allocate_somewhere_near allocate
  get_memory_near address n memories = elim (allocate_in address n memories) [
    | some (ptr, memories') ↦ returns (some ptr, memories')
    | none ↦ allocate_somewhere_near (map (λ arena. arena.buffer) memories) address >>= λ buffer.
        new_arena buffer >>= λ arena. returns (back_allocate arena memories (allocate n arena))
  ]

-- The bytes of the process.
abbrev pub Code : Type 0
Code = ℕ → ℕ

-- `copy(place, data, length)`
unfoldable pub write_bytes : ℕ → List ℕ → Code → Code
write_bytes place [] code = code
write_bytes place (b ∷ bytes) code =
    write_bytes (suc place) bytes (λ a. if a == place then b else code a)

unfoldable pub read_bytes : ℕ → ℕ → Code → List ℕ
read_bytes zero place code = []
read_bytes (suc n) place code = code place ∷ read_bytes n (suc place) code

-- The five bytes of `E8` or `E9` and the distance.
unfoldable pub near_branch : ℕ → ℕ → ℕ → List ℕ
unfolding difference
near_branch opcode pointer to = opcode ∷ le_bytes 4 (difference pointer to 5 % 2 ^ 32)

-- `jump_data` and `jump_data_safe` with the address put in.
unfoldable pub far_branch : Bool → ℕ → List ℕ
far_branch true to = (0xff ∷ 0x25 ∷ 0 ∷ 0 ∷ 0 ∷ 0 ∷ []) ++ le_bytes 8 to
far_branch false to = (0x48 ∷ 0xb8 ∷ []) ++ (le_bytes 8 to ++ (0xff ∷ 0xe0 ∷ []))

pub record Process : Type 0 where
  pub code : Code
  pub memories : List Arena

abbrev pub patch : ℕ → List ℕ → Process → Process
patch place bytes p = record p { code = write_bytes place bytes p.code }

module _ (system : System) where
  -- What follows `get_memory_near(pointer, 14)`.
  abbrev pub with_trampoline :
      Process → (ℕ → Process → Outcome Process) → Option ℕ × List Arena → Outcome Process
  with_trampoline p rest (none, memories) = throws too_far_away
  with_trampoline p rest (some trampoline, memories) =
      rest trampoline (record p { memories = memories })

  -- A jump to a trampoline may in turn need one; `undefined` where that goes on for more than `fuel`
  -- rounds.
  unfoldable pub jump : ℕ → ℕ → ℕ → Bool → Bool → Process → Outcome Process
  unfolding near_branch far_branch write_bytes get_memory_near is_relatively_far
  jump zero pointer to use_far use_safe p = undefined
  jump (suc fuel) pointer to true use_safe p = returns (patch pointer (far_branch use_safe to) p)
  jump (suc fuel) pointer to false use_safe p = elim (is_relatively_far pointer to 5) [
    | false ↦ returns (patch pointer (near_branch 0xe9 pointer to) p)
    | true ↦
        get_memory_near system pointer 14 p.memories
        >>= with_trampoline p (λ trampoline p'.
          jump fuel pointer trampoline false false p' >>= jump fuel trampoline to true true)
  ]

  unfoldable pub call : ℕ → ℕ → ℕ → Process → Outcome Process
  unfolding near_branch write_bytes get_memory_near is_relatively_far jump
  call zero pointer to p = undefined
  call (suc fuel) pointer to p = elim (is_relatively_far pointer to 5) [
    | false ↦ returns (patch pointer (near_branch 0xe8 pointer to) p)
    | true ↦
        get_memory_near system pointer 14 p.memories
        >>= with_trampoline p (λ trampoline p'.
          call fuel pointer trampoline p' >>= jump (suc fuel) trampoline to true true)
  ]

-- `extract` on a distance of 32 bits.
unfoldable pub extract : ℕ → Code → ℕ
unfolding read_bytes sign_extend
extract address code = (address + sign_extend (le_value (read_bytes 4 address code)) + 4) % size_mod

unfoldable pub follow_branch : ℕ → Code → Outcome ℕ
unfolding extract
follow_branch address code =
    if not (code address == 0xe8) && not (code address == 0xe9)
    then throws no_branch_instruction
    else returns (extract (address + 1) code)

unfoldable pub inject : ℕ → ℕ → Process → Outcome Process
unfolding is_relatively_far write_bytes
inject pointer to p =
    if is_relatively_far pointer to 4
    then throws too_far_away
    else returns (patch pointer (le_bytes 4 (difference pointer to 4 % 2 ^ 32)) p)
