-- ===== src/Hook/Detours.antt =====
-- The class `detour` of src/common/utils/hook.cpp, and the moving of a branch by one byte. What the
-- library MinHook does is a parameter.
use w3m.Prelude.{
  ℕ, suc, false, ◌&&◌, List, [], ◌∷◌, Option, none, some, ◌==◌, if◌then◌else◌, replicate,
}
use w3m.Prelude.Outcome.{Outcome, returns, throws, ◌>>=◌, no_branch_instruction, unable_to_hook}
use w3m.Hook.{Code, System, Process, read_bytes, patch, jump, follow_branch}

abbrev pub nop : ℕ → ℕ → Process → Process
nop place n = patch place (replicate n 0x90)

module _ (system : System) where
  -- The bytes that were there, and the process with the branch one byte further on.
  unfoldable pub move_hook : ℕ → Process → Outcome (List ℕ × Process)
  move_hook pointer p =
      if p.code pointer == 0xe9
      then (follow_branch pointer p.code >>= λ target.
          jump system 2 (suc pointer) target false false (nop pointer 1 p) >>= λ p'.
          returns (read_bytes 6 pointer p.code, p'))
      else if p.code pointer == 0xff && p.code (suc pointer) == 0x25
      then returns (
        read_bytes 15 pointer p.code,
        nop pointer 1 (patch (suc pointer) (read_bytes 14 pointer p.code) p),
      )
      else throws no_branch_instruction

-- The library's functions on its own state and the code; `create_hook` makes the code that calls the
-- original.
pub record MinHook (S : Type 0) : Type 0 where
  pub create_hook : ℕ → ℕ → S → Option (ℕ × S)
  pub enable_hook : ℕ → S × Code → S × Code
  pub disable_hook : ℕ → S × Code → S × Code
  pub remove_hook : ℕ → S × Code → S × Code

-- The place 0 is the null pointer.
pub record Detour : Type 0 where
  pub moved_data : List ℕ
  pub place : ℕ
  pub original : ℕ

abbrev pub no_detour : Detour
no_detour = record { moved_data = []; place = 0; original = 0 }

unfoldable pub un_move : Detour → Process → Process
un_move detour p = elim detour.moved_data [ [] ↦ p | b ∷ bytes ↦ patch detour.place (b ∷ bytes) p ]

unfoldable pub move : System → Detour → Process → Outcome (Detour × Process)
move system detour p = move_hook system detour.place p >>= λ (bytes, p').
    returns (record detour { moved_data = bytes }, p')

module _ {S : Type 0} (library : MinHook S) (system : System) where
  open library use {create_hook, enable_hook, disable_hook, remove_hook}

  abbrev pub on_code : (S × Code → S × Code) → S → Process → S × Process
  on_code f s p = let (s', code) = f (s, p.code) in (s', record p { code = code })

  unfoldable pub enable : Detour → S → Process → Outcome (Detour × (S × Process))
  enable detour s p =
      let (s', p') = on_code (enable_hook detour.place) s p in
      elim detour.moved_data [
        | [] ↦ returns (detour, (s', p'))
        | b ∷ bytes ↦ move system detour p' >>= λ (moved, p''). returns (moved, (s', p''))
      ]

  unfoldable pub disable : Detour → S → Process → S × Process
  unfolding un_move
  disable detour s p = on_code (disable_hook detour.place) s (un_move detour p)

  unfoldable pub clear : Detour → S → Process → Detour × (S × Process)
  unfolding un_move
  clear detour s p =
      if detour.place == 0
      then (no_detour, (s, p))
      else (no_detour, on_code (remove_hook detour.place) s (un_move detour p))

  abbrev pub with_original : ℕ → S → Process → Option (ℕ × S) → Outcome (Detour × (S × Process))
  unfolding enable
  with_original place s p none = throws unable_to_hook
  with_original place s p (some (original, s')) =
      enable (record { moved_data = []; place = place; original = original }) s' p

  unfoldable pub create : ℕ → ℕ → Detour → S → Process → Outcome (Detour × (S × Process))
  unfolding clear enable
  create place target detour s p =
      let (cleared, (s', p')) = clear detour s p in
      with_original place s' p' (create_hook place target s')
