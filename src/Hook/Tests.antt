-- ===== src/Hook/Tests.antt =====
-- Runs of the branches of src/common/utils/hook.cpp.
use w3m.Prelude.{◌⊎◌, ◌-◌, ◌^◌, ◌≡◌, refl, inl, true, false, not, ◌||◌, ◌+◌, [], ◌∷◌, ltb, arith}
use w3m.Prelude.Words.{le_bytes, le_value}
use w3m.Prelude.Outcome.{returns, throws, no_branch_instruction, ◌>>=◌}
use w3m.Hook.{
  Code, extract, write_bytes, read_bytes, System, is_relatively_far, near_branch, Process, jump,
  call, follow_branch,
}
use w3m.Hook.Distance.{is_relatively_far_lem}
use w3m.Hook.Branches.{Leads}
use w3m.Hook.Room.{GivesApart}
use w3m.Hook.Detours.{Detour, move}
use w3m.Hook.Moved.{hooked, IsMoved, move_lem}
use w3m.Hook.Landing.{branch-Leads, follow_branch-jump}

-- Memory is free below an address a little before the branch.
abbrev windows : System
windows = record {
  granularity = 0x10000;
  virtual_alloc = λ buffers target. ltb target (2 ^ 40 - 2 ^ 20);
}

abbrev game : Process
game = record {
  code = λ a. 0x90;
  memories = record { buffer = 2 ^ 36; size = 0x10000; offset = 28 } ∷ [];
}

windows_apart : GivesApart windows (2 ^ 40)
windows_apart buffers target free = ground arith

branch-Leads_example :
    Leads (2 ^ 40) (2 ^ 42) (jump windows 2 (2 ^ 40) (2 ^ 42) false true game)
    × Leads (2 ^ 40) (2 ^ 42) (call windows 2 (2 ^ 40) (2 ^ 42) game)
branch-Leads_example =
    branch-Leads windows (2 ^ 40) (2 ^ 42) game (omega arith) (omega arith) (omega arith)
      (omega arith) (omega arith) windows_apart
      ((omega arith, omega arith, omega arith, inl (omega arith)), tt) 0 true

close : is_relatively_far 0x2000 0x1000 5 ≡ false
unfolding is_relatively_far
close = refl

follow_branch-jump_example :
    ((jump windows 1 0x2000 0x1000 false false game >>= λ q. follow_branch 0x2000 q.code)
      ≡ returns 0x1000)
    × ((call windows 1 0x2000 0x1000 game >>= λ q. follow_branch 0x2000 q.code) ≡ returns 0x1000)
follow_branch-jump_example =
    follow_branch-jump windows 0x2000 0x1000 game (omega arith) (omega arith) close 0 false

is_relatively_far_lem_example :
    is_relatively_far (2 ^ 40) (2 ^ 42) 5
    ≡ (ltb (2 ^ 42 + 2 ^ 31) (2 ^ 40 + 5) || not (ltb (2 ^ 42) (2 ^ 40 + 5 + 2 ^ 31)))
is_relatively_far_lem_example =
    is_relatively_far_lem (2 ^ 40) (2 ^ 42) 5 (omega arith) (omega arith) (omega arith)

-- Four kilobytes back.
back_branch : near_branch 0xe9 0x2000 0x1000 ≡ 0xe9 ∷ 0xfb ∷ 0xef ∷ 0xff ∷ 0xff ∷ []
unfolding near_branch le_bytes
back_branch = refl

-- A near jump stands at one place of the program.
abbrev hooked_code : Code
hooked_code = write_bytes 0x2000 (0xe9 ∷ 0xfb ∷ 0xef ∷ 0xff ∷ 0xff ∷ []) (λ a. 0x55)

abbrev hooked_game : Process
hooked_game = record { code = hooked_code; memories = [] }

abbrev detour : Detour
detour = record { moved_data = []; place = 0x2000; original = 0x3000 }

still_close : is_relatively_far 0x2001 (extract 0x2001 hooked_code) 5 ≡ false
unfolding is_relatively_far extract write_bytes read_bytes le_value
still_close = refl

first_byte : hooked_code 0x2000 ≡ 0xe9
unfolding write_bytes
first_byte = refl

no_far :
    hooked_code 0x2000 ≡ 0xff
    → hooked_code 0x2001 ≡ 0x25
    → le_value (read_bytes 4 0x2002 hooked_code) ≡ 0
no_far e f = absurd (omega (arith, first_byte, e))

move_lem_example :
    ((hooked hooked_code 0x2000 ≡ true)
      × IsMoved detour hooked_game (move windows detour hooked_game))
    ⊎ ((hooked hooked_code 0x2000 ≡ false)
        × (move windows detour hooked_game ≡ throws no_branch_instruction))
move_lem_example = move_lem windows detour hooked_game (omega arith) (λ branch. still_close) no_far
