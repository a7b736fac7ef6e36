-- ===== src/Multiplayer.antt =====
-- src/client/module/scripting_experiments.cpp: the player's end of the protocol. The game's script
-- calls `store_player_state` and `get_player_states`; the master server's packets arrive at
-- `receive_player_states` and `receive_auth_request`. The conversions between `float` and `double`
-- are those of the machine, on bit patterns, and are a parameter.
pub mod PlayerList
pub mod Conversion
pub mod Handshake
pub mod Tests
use w3m.Prelude.{
  ℕ, ◌+◌, ◌%◌, ◌^◌, Bool, true, false, not, List, [], ◌∷◌, ◌++◌, map, ltb, ◌==◌, if◌then◌else◌,
  get_elem?, keep, replicate, codes, Option, none, some,
}
use w3m.Prelude.Outcome.{Outcome, returns, ◌>>=◌}
use w3m.Text.{up_to_zero, copy}
use w3m.ByteBuffer.{
  Deserializer, read_string, read_vector, empty_buffer, write_object, write_string,
}
use w3m.ByteBuffer.Objects.{u32}
use w3m.Game.{protocol, Player, PlayerState, player_layout}
use w3m.Cryptography.{Tomcrypt, pk_public, serialize, sign_message}
use w3m.Network.Address.{Address, address_eq}
use w3m.Network.Manager.{Callback, Datagram, SendTo, send}
use w3m.Server.Handlers.{with_protocol, after_reading}

pub record Floats : Type 0 where
  pub widen : ℕ → ℕ
  pub narrow : ℕ → ℕ

pub record EulerAngles : Type 0 where
  pub pitch : ℕ
  pub yaw : ℕ
  pub roll : ℕ

pub record Vector : Type 0 where
  pub x : ℕ
  pub y : ℕ
  pub z : ℕ
  pub w : ℕ

pub record W3mPlayerState : Type 0 where
  pub angles : EulerAngles
  pub position : Vector
  pub velocity : Vector
  pub speed : ℕ
  pub move_type : ℕ

-- `name` is the script string's array of `wchar_t`, its terminating zero included; `state` has one
-- element or none.
pub record W3mPlayer : Type 0 where
  pub guid : ℕ
  pub name : List ℕ
  pub state : List W3mPlayerState

-- `state_ids` is the map from guids to the last state identifiers that the script was given.
pub record Players : Type 0 where
  pub infos : List Player
  pub state_ids : List (ℕ × ℕ)

-- Element `i` of a `std::array`.
abbrev component : List ℕ → ℕ → ℕ
component v i = elim (get_elem? v i) [ none ↦ 0 | some x ↦ x ]

module _ (f : Floats) where
  unfoldable pub convert_angles : EulerAngles → List ℕ
  convert_angles a = f.widen a.roll ∷ f.widen a.pitch ∷ f.widen a.yaw ∷ []

  unfoldable pub convert_vec3 : List ℕ → EulerAngles
  convert_vec3 angles = record {
    pitch = f.narrow (component angles 1);
    yaw = f.narrow (component angles 2);
    roll = f.narrow (component angles 0);
  }

  unfoldable pub convert_vector : Vector → List ℕ
  convert_vector v = f.widen v.x ∷ f.widen v.y ∷ f.widen v.z ∷ f.widen v.w ∷ []

  unfoldable pub convert_vec4 : List ℕ → Vector
  convert_vec4 vector = record {
    x = f.narrow (component vector 0);
    y = f.narrow (component vector 1);
    z = f.narrow (component vector 2);
    w = f.narrow (component vector 3);
  }

-- `char` is signed and `wchar_t` has sixteen bits.
unfoldable pub wide : ℕ → ℕ
wide c = if ltb c 128 then c else c + 0xFF00

-- `scripting::string(const char*, size_t)`
unfoldable pub script_string : List ℕ → List ℕ
unfolding wide
script_string text = map wide text ++ (0 ∷ [])

unfoldable pub convert_name : List ℕ → List ℕ
unfolding script_string
convert_name name = script_string (up_to_zero name)

module _ (f : Floats) where
  unfoldable pub convert_state : PlayerState → W3mPlayerState
  unfolding convert_vec3 convert_vec4
  convert_state state = record {
    angles = convert_vec3 f state.angles;
    position = convert_vec4 f state.position;
    velocity = convert_vec4 f state.velocity;
    speed = state.speed;
    move_type = state.move_type;
  }

  unfoldable pub convert_player : Player → Bool → W3mPlayer
  unfolding convert_name convert_state
  convert_player player attach_state = record {
    guid = player.guid;
    name = convert_name player.name;
    state = if attach_state then convert_state player.state ∷ [] else [];
  }

-- `players.state_ids[guid]`, which is 0 for a new key.
unfoldable pub last_state : ℕ → List (ℕ × ℕ) → ℕ
last_state guid [] = 0
last_state guid ((key, state_id) ∷ ids) = if key == guid then state_id else last_state guid ids

unfoldable pub store_last_state : ℕ → ℕ → List (ℕ × ℕ) → List (ℕ × ℕ)
store_last_state guid state_id [] = (guid, state_id) ∷ []
store_last_state guid state_id ((key, old) ∷ ids) =
    let rest = store_last_state guid state_id ids in
    if key == guid then (key, state_id) ∷ ids else (key, old) ∷ rest

-- The loop of `get_player_states`.
unfoldable pub states_loop : Floats → List Player → List (ℕ × ℕ) → List W3mPlayer × List (ℕ × ℕ)
unfolding last_state store_last_state convert_player
states_loop f [] ids = ([], ids)
states_loop f (info ∷ infos) ids =
    let has_new_state = ltb (last_state info.guid ids) info.state.state_id in
    let (w3m_players, ids') =
      states_loop f infos (store_last_state info.guid info.state.state_id ids) in
    (convert_player f info has_new_state ∷ w3m_players, ids')

unfoldable pub get_player_states : Floats → Players → List W3mPlayer × Players
unfolding states_loop
get_player_states f players =
    let (w3m_players, ids) = states_loop f players.infos players.state_ids in
    (w3m_players, record players { state_ids = ids })

unfoldable pub read_players : Deserializer → Outcome (List Player)
read_players buffer = do
  (player_data, buffer') ← read_vector player_layout buffer
  returns player_data

unfoldable pub has_guid : ℕ → List Player → Bool
has_guid guid [] = false
has_guid guid (player ∷ players) = if player.guid == guid then true else has_guid guid players

-- `guids` is the set of the guids of the new `infos`.
unfoldable pub update_players : ℕ → List Player → Players → Players
unfolding has_guid
update_players own_guid player_data players =
    let infos = keep (λ (player : Player). not (player.guid == own_guid)) player_data in
    record { infos = infos; state_ids = keep (λ entry. has_guid entry.0 infos) players.state_ids }

unfoldable pub receive_player_states : Address → ℕ → Callback Players
unfolding update_players read_players
receive_player_states master own_guid address payload players =
    if not (address_eq address master)
    then (players, returns tt)
    else after_reading (with_protocol read_players payload) (update_players own_guid) players

-- What is sent so far, as state.
abbrev pub Sent : Type 0
Sent = List Datagram

unfoldable pub store_player_state :
    Floats → SendTo → Address → ℕ → List ℕ → W3mPlayerState → Sent → Sent
unfolding convert_angles convert_vector
store_player_state f sendto master own_guid username state sent =
    let player_state : PlayerState = record {
      angles = convert_angles f state.angles;
      position = convert_vector f state.position;
      velocity = convert_vector f state.velocity;
      speed = state.speed;
      move_type = state.move_type;
      state_id = 0;
    } in
    let player : Player = record {
      guid = own_guid;
      name = copy (replicate 64 0) username;
      state = player_state;
    } in
    let buffer = write_object player_layout (write_object u32 empty_buffer protocol) player in
    sent ++ (send sendto master (codes "state") buffer.buffer b' ').sent

unfoldable pub read_nonce : Deserializer → Outcome (List ℕ)
read_nonce buffer = do (nonce, buffer') ← read_string buffer; returns nonce

module _ (t : Tomcrypt) where
  open t use {Key}

  unfoldable pub auth_response : Key → List ℕ → List ℕ
  auth_response key nonce =
      (write_string
        (write_string (write_object u32 empty_buffer protocol) (serialize t pk_public key))
        (sign_message t key nonce)).buffer

  unfoldable pub receive_auth_request : SendTo → Address → Key → Callback Sent
  unfolding read_nonce auth_response
  receive_auth_request sendto master key address payload sent =
      if not (address_eq address master)
      then (sent, returns tt)
      else after_reading (with_protocol read_nonce payload)
          (λ nonce sent.
            sent
            ++ (send sendto address (codes "authResponse") (auth_response key nonce) b' ').sent)
          sent
