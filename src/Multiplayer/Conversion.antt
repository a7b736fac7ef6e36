-- ===== src/Multiplayer/Conversion.antt =====
-- A player's own state on its way to the other players' scripts
-- (src/client/module/scripting_experiments.cpp).
use w3m.Prelude.{ℕ, ◌≡◌, refl, true, List, [], ◌∷◌, ◌++◌, take, replicate, codes}
use w3m.ByteBuffer.{write, write_object, empty_buffer}
use w3m.Text.{copy, up_to_zero}
use w3m.Text.Copy.{up_to_zero-copy}
use w3m.Game.{Player}
use w3m.Network.Address.{Address}
use w3m.Network.Manager.{SendTo, send}
use w3m.Server.Messages.{state_payload}
use w3m.Multiplayer.{
  Floats, W3mPlayerState, Sent, EulerAngles, Vector, convert_angles, convert_vec3, convert_vector,
  convert_vec4, convert_state, convert_name, convert_player, script_string, store_player_state,
}

module _ (f : Floats) (narrow-widen : (x : ℕ) → f.narrow (f.widen x) ≡ x) where
  angles_back : (a : EulerAngles) → convert_vec3 f (convert_angles f a) ≡ a
  unfolding convert_vec3 convert_angles
  angles_back a = λ i. record {
    pitch = narrow-widen a.pitch i;
    yaw = narrow-widen a.yaw i;
    roll = narrow-widen a.roll i;
  }

  vector_back : (v : Vector) → convert_vec4 f (convert_vector f v) ≡ v
  unfolding convert_vec4 convert_vector
  vector_back v = λ i. record {
    x = narrow-widen v.x i;
    y = narrow-widen v.y i;
    z = narrow-widen v.z i;
    w = narrow-widen v.w i;
  }

  -- Where a `float` survives its conversion to `double` and back, `store_player_state` sends one state
  -- packet to the master server, with a player that another script is given as the same state, under
  -- the sender's guid, and the first 63 characters of the name up to a zero.
  pub store_player_state-convert_player :
      (sendto : SendTo) (master : Address) (own_guid : ℕ) (username : List ℕ)
      (state : W3mPlayerState) (sent : Sent)
      → (player : Player) × (store_player_state f sendto master own_guid username state sent
          ≡ sent ++ (send sendto master (codes "state") (state_payload player) b' ').sent)
        × (convert_player f player true ≡ record {
          guid = own_guid;
          name = script_string (take 63 (up_to_zero username));
          state = state ∷ [];
        })
  unfolding store_player_state state_payload convert_player convert_state convert_name write_object
      write empty_buffer
  store_player_state-convert_player sendto master own_guid username state sent = (
    record {
      guid = own_guid;
      name = copy (replicate 64 0) username;
      state = record {
        angles = convert_angles f state.angles;
        position = convert_vector f state.position;
        velocity = convert_vector f state.velocity;
        speed = state.speed;
        move_type = state.move_type;
        state_id = 0;
      };
    },
    refl,
    λ i. record {
      guid = own_guid;
      name = script_string ((up_to_zero-copy 0 (replicate 63 0) username).0 i);
      state =
          record {
            angles = angles_back state.angles i;
            position = vector_back state.position i;
            velocity = vector_back state.velocity i;
            speed = state.speed;
            move_type = state.move_type;
          }
          ∷ [];
    },
  )
