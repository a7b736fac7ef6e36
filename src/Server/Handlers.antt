-- ===== src/Server/Handlers.antt =====
-- The handlers and the frame of src/server/server.cpp.
use w3m.Prelude.{
  ℕ, ◌+◌, ◌-◌, ◌%◌, ◌^◌, Bool, true, not, ◌&&◌, List, [], ◌∷◌, ◌++◌, map, Option, none, some, ltb,
  ◌==◌, if◌then◌else◌, is_empty, replicate, keep, codes,
}
use w3m.Prelude.Outcome.{Outcome, returns, throws, terminates, undefined, ◌>>=◌}
use w3m.Text.{copy, up_to_zero}
use w3m.ByteBuffer.{
  Deserializer, open_buffer, read_object, read_string, empty_buffer, write_object, write_string,
  write_vector,
}
use w3m.ByteBuffer.Objects.{u32, u64}
use w3m.Game.{protocol, Player, player_layout}
use w3m.Cryptography.{Tomcrypt, deserialize, get_hash, verify_message, get_challenge}
use w3m.Network.Address.{Address}
use w3m.Network.Manager.{CallbackMap, Callback, Datagram, SendTo, send, on, handle_data}
use w3m.Server.Clients.{Client, ClientMap, is_authenticated, client_at, change_client}

-- What a call takes from outside: the time in nanoseconds, eight random bytes, and the sockets.
pub record Environment : Type 0 where
  pub now : ℕ
  pub random : List ℕ
  pub sendto : SendTo

-- The map of clients, and every datagram sent so far, the newest last.
pub record World (Key : Type 0) : Type 0 where
  pub clients : ClientMap Key
  pub sent : List Datagram

-- `manager.send(target, command, data)`, its result unused.
unfoldable pub transmit :
    {Key : Type 0} → Environment → Address → List ℕ → List ℕ → World Key → World Key
transmit env target command payload w = record w {
  sent = w.sent ++ (send env.sendto target command payload b' ').sent;
}

abbrev pub timeout : ℕ
timeout = 20_000_000_000

-- `buffer.read<uint32_t>()` and what follows if it is the protocol's number; `none` is an early
-- return.
unfoldable pub with_protocol :
    {A : Type 0} → (Deserializer → Outcome A) → List ℕ → Outcome (Option A)
with_protocol rest payload = do
  (version, buffer) ← read_object u32 (open_buffer payload)
  if version == protocol then rest buffer >>= (λ a. returns (some a)) else returns none

unfoldable pub read_authentication : Deserializer → Outcome (List ℕ × List ℕ)
read_authentication buffer = do
  (key, buffer') ← read_string buffer
  (signature, buffer'') ← read_string buffer'
  returns (key, signature)

unfoldable pub read_player : Deserializer → Outcome Player
read_player buffer = do (player, buffer') ← read_object player_layout buffer; returns player

-- A handler that reads first and acts afterwards: an exception while it reads leaves the state.
abbrev pub after_reading :
    {A S : Type 0} → Outcome (Option A) → (A → S → S) → S → S × Outcome (Unit {0})
after_reading (returns none) act s = (s, returns tt)
after_reading (returns (some a)) act s = (act a s, returns tt)
after_reading (throws e) act s = (s, throws e)
after_reading terminates act s = (s, terminates)
after_reading undefined act s = (s, undefined)

module _ (t : Tomcrypt) where
  open t use {Key}

  unfoldable pub print_failure : Client Key → Client Key
  print_failure client = record client { has_printed_failure = true }

  -- The checks of `handle_authentication_response` on the client of the source.
  unfoldable pub check_response : Environment → Key → List ℕ → Client Key → Client Key
  unfolding print_failure
  check_response env crypto_key signature client =
      if is_empty client.authentication_nonce
      then print_failure client
      else if not (get_hash t crypto_key == client.guid)
      then print_failure client
      else if not (verify_message t crypto_key client.authentication_nonce signature)
      then print_failure client
      else record client { public_key = some crypto_key; last_packet = env.now }

  unfoldable pub accept_response : Environment → Address → List ℕ × List ℕ → World Key → World Key
  unfolding check_response
  accept_response env source (key, signature) w = elim (deserialize t key) [
    | none ↦ w
    | some crypto_key ↦ record w {
      clients = change_client source (check_response env crypto_key signature) w.clients;
    }
  ]

  unfoldable pub handle_authentication_response : Environment → Callback (World Key)
  unfolding with_protocol read_authentication accept_response
  handle_authentication_response env source payload w =
      after_reading (with_protocol read_authentication payload) (accept_response env source) w

  unfoldable pub killed_payload : Client Key → List ℕ
  killed_payload killer =
      (write_object u64 (write_object u32 empty_buffer protocol) killer.guid).buffer

  -- The first client in the order of iteration that is authenticated and has the guid.
  unfoldable pub find_victim : ℕ → ClientMap Key → Option Address
  find_victim player_guid [] = none
  find_victim player_guid ((key, client) ∷ clients) =
      if is_authenticated client && client.guid == player_guid
      then some key
      else find_victim player_guid clients

  unfoldable pub send_killed_command :
      Environment → Client Key → Option Address → World Key → World Key
  unfolding transmit killed_payload
  send_killed_command env killer none w = w
  send_killed_command env killer (some victim) w =
      transmit env victim (codes "killed") (killed_payload killer) w

  unfoldable pub kill_player : Environment → Address → ℕ → World Key → World Key
  unfolding send_killed_command find_victim
  kill_player env source player_guid w =
      send_killed_command env (client_at source w.clients) (find_victim player_guid w.clients) w

  unfoldable pub read_guid : Deserializer → Outcome ℕ
  read_guid buffer = do (guid, buffer') ← read_object u64 buffer; returns guid

  -- `clients[source]` adds an unknown source to the map before the guid is read.
  abbrev pub touch : Address → World Key → World Key
  touch source w = record w { clients = change_client source (λ c. c) w.clients }

  unfoldable pub kill_from :
      Environment → Address → Deserializer → World Key → World Key × Outcome (Unit {0})
  unfolding kill_player read_guid
  kill_from env source buffer w =
      if is_authenticated (client_at source w.clients)
      then after_reading (read_guid buffer >>= λ guid. returns (some guid)) (kill_player env source)
          w
      else (w, returns tt)

  unfoldable pub handle_player_kill : Environment → Callback (World Key)
  unfolding kill_from with_protocol
  handle_player_kill env source payload w =
      elim (with_protocol (λ buffer. returns buffer) payload) [
        | returns none ↦ (w, returns tt)
        | returns (some buffer) ↦ kill_from env source buffer (touch source w)
        | throws e ↦ (w, throws e)
        | terminates ↦ (w, terminates)
        | undefined ↦ (w, undefined)
      ]

  -- `client.state_id` is a `uint64_t`.
  unfoldable pub store_state : Environment → Player → Client Key → Client Key
  store_state env player client = record client {
    last_packet = env.now;
    guid = player.guid;
    name = up_to_zero player.name;
    current_state = player.state;
    state_id = (client.state_id + 1) % 2 ^ 64;
  }

  unfoldable pub choose_nonce : Environment → Client Key → Client Key
  choose_nonce env client =
      if is_empty client.authentication_nonce
      then record client { authentication_nonce = get_challenge env.random }
      else client

  unfoldable pub request_payload : Client Key → List ℕ
  request_payload client =
      (write_string (write_object u32 empty_buffer protocol) client.authentication_nonce).buffer

  unfoldable pub send_authentication_request : Environment → Address → World Key → World Key
  unfolding transmit choose_nonce request_payload
  send_authentication_request env source w =
      let clients = change_client source (choose_nonce env) w.clients in
      transmit env source (codes "authRequest") (request_payload (client_at source clients))
        (record w { clients = clients })

  unfoldable pub player_state : Environment → Address → Player → World Key → World Key
  unfolding store_state send_authentication_request
  player_state env source player w =
      let w' = record w { clients = change_client source (store_state env player) w.clients } in
      if is_authenticated (client_at source w'.clients)
      then w'
      else send_authentication_request env source w'

  unfoldable pub handle_player_state : Environment → Callback (World Key)
  unfolding with_protocol read_player player_state
  handle_player_state env source payload w =
      after_reading (with_protocol read_player payload) (player_state env source) w

  -- `game::player player{}` and `string::copy` into its name.
  unfoldable pub player_of : Client Key → Player
  player_of client = record {
    guid = client.guid;
    name = copy (replicate 64 0) client.name;
    state = record client.current_state { state_id = client.state_id };
  }

  unfoldable pub authenticated_clients : ClientMap Key → ClientMap Key
  authenticated_clients = keep (λ entry. is_authenticated entry.1)

  unfoldable pub states : ClientMap Key → List Player
  unfolding authenticated_clients player_of
  states clients = map (λ entry. player_of entry.1) (authenticated_clients clients)

  unfoldable pub states_payload : ClientMap Key → List ℕ
  unfolding states
  states_payload clients =
      (write_vector player_layout (write_object u32 empty_buffer protocol) (states clients)).buffer

  unfoldable pub send_to_all : Environment → List ℕ → ClientMap Key → World Key → World Key
  unfolding transmit
  send_to_all env payload [] w = w
  send_to_all env payload ((key, client) ∷ clients) w =
      send_to_all env payload clients
        (if is_authenticated client then transmit env key (codes "states") payload w else w)

  unfoldable pub send_state : Environment → World Key → World Key
  unfolding states_payload send_to_all
  send_state env w = send_to_all env (states_payload w.clients) w.clients w

  -- `last_packet_diff > 20s`; the difference of two time points may be negative.
  unfoldable pub is_stale : Environment → Client Key → Bool
  is_stale env client = ltb timeout (env.now - client.last_packet)

  unfoldable pub remove_stale : Environment → ClientMap Key → ClientMap Key
  unfolding is_stale
  remove_stale env = keep (λ entry. not (is_stale env entry.1))

  unfoldable pub run_frame : Environment → World Key → World Key
  unfolding remove_stale send_state
  run_frame env w = send_state env (record w { clients = remove_stale env w.clients })

  -- The constructor `server(port)`.
  unfoldable pub callbacks : Environment → CallbackMap (World Key)
  unfolding handle_player_state handle_player_kill handle_authentication_response on
  callbacks env =
      on (codes "authResponse") (handle_authentication_response env) (
        on (codes "kill") (handle_player_kill env)
          (on (codes "state") (handle_player_state env) []))

  -- A packet that arrives at the server.
  unfoldable pub receive :
      Environment → Address → List ℕ → World Key → World Key × Outcome (Unit {0})
  unfolding callbacks handle_data
  receive env source packet w = handle_data (callbacks env) source packet w
