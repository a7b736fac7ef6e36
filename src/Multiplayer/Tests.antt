-- ===== src/Multiplayer/Tests.antt =====
-- Examples for src/client/module/scripting_experiments.cpp.
use w3m.Prelude.{
  ℕ, ◌≡◌, ◌++◌, ◌<◌, ◌^◌, refl, sym, append-nil, true, false, map, keep, List, [], ◌∷◌, some, arith,
  codes, take, length, bytes_eq_refl,
}
use w3m.Prelude.Words.{le_bytes}
use w3m.Prelude.Outcome.{returns}
use w3m.ByteBuffer.{write, write_object, write_string, write_vector, empty_buffer}
use w3m.ByteBuffer.Objects.{encode_all}
use w3m.Text.{up_to_zero, copy, dump_hex, hex_byte, hex_digit}
use w3m.Game.{Player, player_layout, player_state_layout}
use w3m.Cryptography.{pk_public, serialize, sign_message, get_challenge}
use w3m.Network.Address.{address_eq, get_port}
use w3m.Network.Manager.{send}
use w3m.Server.Clients.{Client, default_client, client_at}
use w3m.Server.Handlers.{
  states, states_payload, authenticated_clients, player_of, request_payload, handle_player_state,
  handle_authentication_response, store_state, choose_nonce,
}
use w3m.Server.Messages.{IsPayload, state_payload}
use w3m.Server.Effects.{after_state, handle_player_state_lem}
use w3m.Server.Tests.{
  toy, env, late, source, player, key, crowd, nowhere, state_payload-IsPayload, player-IsObject,
  source-is_supported, nowhere-unknown, key-hash,
}
use w3m.Multiplayer.{
  Floats, Players, has_guid, W3mPlayerState, convert_player, script_string, get_player_states,
  receive_player_states, store_player_state, auth_response,
}
use w3m.Multiplayer.PlayerList.{
  Distinct, newer, get_player_states_lem, told, is_other, is_other_guid,
  receive_player_states-states_payload,
}
use w3m.Multiplayer.Conversion.{store_player_state-convert_player}
use w3m.Multiplayer.Handshake.{handshake-auth_response}

abbrev floats : Floats
floats = record { widen = λ x. x; narrow = λ x. x }

abbrev two_players : Players
two_players = record { infos = player ∷ record player { guid = 3 } ∷ []; state_ids = [] }

two_players-Distinct : Distinct two_players.infos
unfolding has_guid
two_players-Distinct = (refl, (refl, tt))

get_player_states_lem_example :
    ((get_player_states floats two_players).0 ≡ newer floats [] two_players.infos)
    × ((get_player_states floats (get_player_states floats two_players).1).0
        ≡ map (λ (info : Player). convert_player floats info false) two_players.infos)
get_player_states_lem_example = get_player_states_lem floats two_players two_players-Distinct

crowd-IsPayload : IsPayload (states_payload toy crowd.clients)
unfolding states_payload states authenticated_clients player_of copy write_vector write_object write
    empty_buffer encode_all le_bytes player_layout player_state_layout
crowd-IsPayload = record { small = omega arith; bytes = omega arith }

receive_player_states-states_payload_example :
    receive_player_states source 9 source (states_payload toy crowd.clients) two_players ≡ (
      record {
        infos = map (told toy) (keep (λ entry. is_other toy 9 entry.1) crowd.clients);
        state_ids = keep (λ entry. is_other_guid toy 9 entry.0 crowd.clients) two_players.state_ids;
      },
      returns tt,
    )
unfolding states authenticated_clients player_of copy player_layout player_state_layout
receive_player_states-states_payload_example =
    receive_player_states-states_payload toy source 9 crowd.clients two_players source-is_supported
      crowd-IsPayload (omega arith) (omega arith)

abbrev script_state : W3mPlayerState
script_state = record {
  angles = record { pitch = 1; yaw = 2; roll = 3 };
  position = record { x = 1; y = 2; z = 3; w = 4 };
  velocity = record { x = 0; y = 0; z = 0; w = 0 };
  speed = 5;
  move_type = 1;
}

store_player_state-convert_player_example :
    (sent : Player) × (store_player_state floats env.sendto source 9
        (codes "Geralt")
        script_state
        []
      ≡ [] ++ (send env.sendto source (codes "state") (state_payload sent) b' ').sent)
    × (convert_player floats sent true ≡ record {
      guid = 9;
      name = script_string (take 63 (up_to_zero (codes "Geralt")));
      state = script_state ∷ [];
    })
store_player_state-convert_player_example =
    store_player_state-convert_player floats (λ x. refl) env.sendto source 9 (codes "Geralt")
      script_state []

abbrev asked : Client (List ℕ)
asked = record default_client { authentication_nonce = codes "01" }

asked-IsPayload : IsPayload (request_payload toy asked)
unfolding request_payload write_string write_object write empty_buffer le_bytes
asked-IsPayload = record { small = omega arith; bytes = omega arith }

nonce_held :
    (client_at source
      (handle_player_state toy env source
        (state_payload player)
        nowhere).0.clients).authentication_nonce
    ≡ codes "01"
unfolding client_at address_eq after_state store_state choose_nonce get_challenge dump_hex hex_byte
    hex_digit get_port
nonce_held =
    let h =
      handle_player_state_lem toy env source player [] (state_payload player) nowhere
        source-is_supported state_payload-IsPayload player-IsObject
        (sym (append-nil (state_payload player))) in
    rw (h.0.clients source) refl

response-IsPayload : IsPayload (
    auth_response toy key
      (client_at source
        (handle_player_state toy env source
          (state_payload player)
          nowhere).0.clients).authentication_nonce)
unfolding auth_response serialize sign_message write_string write_object write empty_buffer le_bytes
response-IsPayload = rw nonce_held (record { small = omega arith; bytes = omega arith })

signature_small :
    length (
      sign_message toy key
        (client_at source
          (handle_player_state toy env source
            (state_payload player)
            nowhere).0.clients).authentication_nonce)
    < 2 ^ 32
unfolding sign_message
signature_small = rw nonce_held (omega arith)

key_small : length (serialize toy pk_public key) < 2 ^ 32
unfolding serialize
key_small = omega arith

handshake-auth_response_example :
    let between = (handle_player_state toy env source (state_payload player) nowhere).0 in
    (client_at source
      (handle_authentication_response toy late source
        (auth_response toy key (client_at source between.clients).authentication_nonce)
        between).0.clients).public_key
    ≡ some key
handshake-auth_response_example =
    handshake-auth_response toy key key key refl refl refl bytes_eq_refl env late source player []
      (state_payload player) nowhere source-is_supported nowhere-unknown refl key-hash
      state_payload-IsPayload player-IsObject (sym (append-nil (state_payload player)))
      response-IsPayload key_small signature_small
