-- ===== src/Game.antt =====
-- src/common/game/structs.hpp: the player data of the protocol and its layout in memory. A `double`
-- and a `float` are their bit patterns, and so is an `int32_t`.
use w3m.Prelude.{ℕ, ◌≡◌, refl, List, [], ◌∷◌}
use w3m.ByteBuffer.Objects.{Layout, u32, u64, chars, array, pair, struct}

abbrev pub protocol : ℕ
protocol = 6

pub record PlayerState : Type 0 where
  pub angles : List ℕ
  pub position : List ℕ
  pub velocity : List ℕ
  pub speed : ℕ
  pub move_type : ℕ
  pub state_id : ℕ

pub record Player : Type 0 where
  pub guid : ℕ
  pub name : List ℕ
  pub state : PlayerState

-- `player_state{}` and `player{}`: everything is zero (`speed`, which has no initializer, too).
abbrev pub default_state : PlayerState
default_state = record {
  angles = 0 ∷ 0 ∷ 0 ∷ [];
  position = 0 ∷ 0 ∷ 0 ∷ 0 ∷ [];
  velocity = 0 ∷ 0 ∷ 0 ∷ 0 ∷ [];
  speed = 0;
  move_type = 0;
  state_id = 0;
}

abbrev vec3 : Layout (List ℕ)
vec3 = array u64 3

abbrev vec4 : Layout (List ℕ)
vec4 = array u64 4

abbrev StateTuple : Type 0
StateTuple = List ℕ × (List ℕ × (List ℕ × (ℕ × (ℕ × ℕ))))

abbrev pub state_members : PlayerState → StateTuple
state_members s = (s.angles, (s.position, (s.velocity, (s.speed, (s.move_type, s.state_id)))))

abbrev pub state_of_members : StateTuple → PlayerState
state_of_members t = record {
  angles = t.0;
  position = t.1.0;
  velocity = t.1.1.0;
  speed = t.1.1.1.0;
  move_type = t.1.1.1.1.0;
  state_id = t.1.1.1.1.1;
}

unfoldable pub player_state_layout : Layout PlayerState
player_state_layout =
    struct state_members state_of_members (λ s. refl)
      (pair vec3 (pair vec4 (pair vec4 (pair u32 (pair u32 u64)))))

abbrev pub player_members : Player → ℕ × (List ℕ × PlayerState)
player_members p = (p.guid, (p.name, p.state))

abbrev pub player_of_members : ℕ × (List ℕ × PlayerState) → Player
player_of_members t = record { guid = t.0; name = t.1.0; state = t.1.1 }

unfoldable pub player_layout : Layout Player
unfolding player_state_layout
player_layout =
    struct player_members player_of_members (λ p. refl)
      (pair u64 (pair (chars 64) player_state_layout))

-- There is no padding.
pub sizeof_player : player_layout.size ≡ 176
unfolding player_layout
sizeof_player = refl
