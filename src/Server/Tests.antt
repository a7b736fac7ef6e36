-- ===== src/Server/Tests.antt =====
-- Examples for src/server/server.cpp, with cryptography that is the identity.
use w3m.Prelude.{
  length, none, ◌<◌, ◌^◌, ℕ, ◌≡◌, ◌↔◌, ◌++◌, refl, ◌⊎◌, true, false, List, [], ◌∷◌, some, arith,
  replicate, bytes_eq, bytes_eq_refl, append-nil, sym, codes, In,
}
use w3m.Prelude.Words.{le_bytes, le_value}
use w3m.Prelude.Outcome.{returns}
use w3m.ByteBuffer.Objects.{encode_all}
use w3m.ByteBuffer.RoundTrip.{string_bytes}
use w3m.Text.{dump_hex, hex_byte, hex_digit}
use w3m.Game.{Player, default_state, player_layout, player_state_layout}
use w3m.Cryptography.{Tomcrypt, deserialize, get_hash, verify_message, get_challenge}
use w3m.Network.Address.{Address, af_inet, address_eq, is_supported, is_ipv4, is_ipv6, get_port}
use w3m.Network.Manager.{magic}
use w3m.Server.Clients.{AllClients, Client, default_client, client_at, is_authenticated}
use w3m.Server.Handlers.{
  Environment, World, handle_player_state, handle_authentication_response, handle_player_kill,
  store_state, choose_nonce, run_frame, remove_stale, states_payload, authenticated_clients,
  receive,
}
use w3m.Server.Messages.{IsPayload, state_payload, response_payload}
use w3m.Server.Authentication.{packet, frame, step, start, after, IsProven, Reachable-IsProven}
use w3m.Server.Isolation.{client_at-receive}
use w3m.Server.Frame.{IsFresh, In-run_frame, broadcast, run_frame-sent}
use w3m.Server.Takeover.{TakesOver, IsAnswered, handle_player_state-TakesOver}
use w3m.Server.Verification.{IsChecked, handle_authentication_response-IsChecked}
use w3m.Server.Effects.{after_state, handle_player_state_lem, handle_player_state-guid}
use w3m.Server.Handshake.{handshake_lem}
use w3m.Server.Kill.{kill_payload, KillEffect, handle_player_kill_lem}

abbrev pub toy : Tomcrypt
toy = record {
  Key = List ℕ;
  ecc_import = λ key. some key;
  ecc_export = λ type key. some key;
  ecc_ansi_x963_export = λ key. key;
  sha1 = λ message. message;
  sha512 = λ message. message;
  ecc_sign_hash = λ key digest. digest;
  ecc_verify_hash = λ key digest signature. bytes_eq digest signature;
}

abbrev pub env : Environment
env = record { now = 7; random = 1 ∷ []; sendto = λ d. 0 }

abbrev pub source : Address
source = record { family = af_inet; net_port = 1; word = 2; head = 0; tail = 0; scope = 0 }

abbrev pub player : Player
player = record { guid = 0; name = replicate 64 0; state = default_state }

abbrev pub key : List ℕ
key = replicate 8 0

abbrev pub nowhere : World (List ℕ)
nowhere = record { clients = []; sent = [] }

pub state_payload-IsPayload : IsPayload (state_payload player)
unfolding state_payload player_layout player_state_layout le_bytes encode_all
state_payload-IsPayload = record { small = omega arith; bytes = omega arith }

pub player-IsObject : player_layout.IsObject player
unfolding player_layout player_state_layout
player-IsObject = omega arith

abbrev pub known : Client (List ℕ)
known = record default_client { public_key = some key; last_packet = 7 }

abbrev old : Client (List ℕ)
old = record default_client { public_key = some key; last_packet = 0 }

abbrev pub crowd : World (List ℕ)
crowd = record { clients = (source, known) ∷ []; sent = [] }

abbrev pub late : Environment
late = record env { now = 20_000_000_001 }

abbrev nonce : List ℕ
nonce = 48 ∷ 49 ∷ []

response-IsPayload : IsPayload (response_payload key nonce)
unfolding response_payload string_bytes le_bytes
response-IsPayload = record { small = omega arith; bytes = omega arith }

kill_payload-IsPayload : IsPayload (kill_payload 0)
unfolding kill_payload le_bytes
kill_payload-IsPayload = record { small = omega arith; bytes = omega arith }

pub source-is_supported : is_supported source ≡ true
unfolding is_supported is_ipv4 is_ipv6
source-is_supported = refl

-- Another address of the same host.
abbrev pub elsewhere : Address
elsewhere = record source { net_port = 2 }

pub elsewhere-apart : address_eq source elsewhere ≡ false
unfolding address_eq get_port
elsewhere-apart = refl

short_nonce :
    length
      (client_at source
        (handle_player_state toy env source
          (state_payload player)
          nowhere).0.clients).authentication_nonce
    < 2 ^ 32
unfolding client_at address_eq after_state store_state choose_nonce get_challenge dump_hex hex_byte
    hex_digit get_port
short_nonce =
    let h =
      handle_player_state_lem toy env source player [] (state_payload player) nowhere
        source-is_supported state_payload-IsPayload player-IsObject
        (sym (append-nil (state_payload player))) in
    rw (h.0.clients source) (omega arith)

handle_player_state-TakesOver_example :
    let r = handle_player_state toy env source (state_payload player) nowhere in
    (r.1 ≡ returns tt)
    × TakesOver toy env player (client_at source nowhere.clients) (client_at source r.0.clients)
    × IsAnswered toy env player source
        (client_at source nowhere.clients)
        (client_at source r.0.clients)
        nowhere.sent
        r.0.sent
    × (client_at elsewhere r.0.clients ≡ client_at elsewhere nowhere.clients)
handle_player_state-TakesOver_example =
    handle_player_state-TakesOver toy env player source elsewhere [] (state_payload player) nowhere
      source-is_supported state_payload-IsPayload player-IsObject
      (sym (append-nil (state_payload player))) elsewhere-apart short_nonce

verified :
    verify_message toy key
      (client_at source
        (handle_player_state toy env source
          (state_payload player)
          nowhere).0.clients).authentication_nonce
      nonce
    ≡ true
unfolding client_at address_eq after_state verify_message store_state choose_nonce get_challenge
    dump_hex hex_byte hex_digit get_port
verified =
    let h =
      handle_player_state_lem toy env source player [] (state_payload player) nowhere
        source-is_supported state_payload-IsPayload player-IsObject
        (sym (append-nil (state_payload player))) in
    rw (h.0.clients source) (bytes_eq_refl nonce)

crowd-known : is_authenticated (client_at source crowd.clients) ≡ true
unfolding client_at address_eq get_port
crowd-known = refl

handle_player_state-guid_example :
    let after = (handle_player_state toy env source (state_payload player) crowd).0 in
    ((client_at source after.clients).guid ≡ 0)
    × ((client_at source after.clients).public_key ≡ (client_at source crowd.clients).public_key)
    × (after.sent ≡ [])
handle_player_state-guid_example =
    handle_player_state-guid toy env source player [] (state_payload player) crowd
      source-is_supported state_payload-IsPayload player-IsObject
      (sym (append-nil (state_payload player))) crowd-known

handle_authentication_response-IsChecked_example :
    let r = handle_authentication_response toy env source (response_payload key nonce) crowd in
    (r.1 ≡ returns tt)
    × (r.0.sent ≡ crowd.sent)
    × (client_at elsewhere r.0.clients ≡ client_at elsewhere crowd.clients)
    × (((deserialize toy key ≡ none) × (r.0.clients ≡ crowd.clients))
        ⊎ ((k : List ℕ) × (deserialize toy key ≡ some k)
            × IsChecked toy env k nonce
                (client_at source crowd.clients)
                (client_at source r.0.clients)))
handle_authentication_response-IsChecked_example =
    handle_authentication_response-IsChecked toy env source elsewhere key nonce []
      (response_payload key nonce) crowd source-is_supported response-IsPayload (omega arith)
      (omega arith) (sym (append-nil (response_payload key nonce))) elsewhere-apart

pub nowhere-unknown : is_authenticated (client_at source nowhere.clients) ≡ false
unfolding client_at
nowhere-unknown = refl

key-found : deserialize toy key ≡ some key
unfolding deserialize
key-found = refl

pub key-hash : player.guid ≡ get_hash toy key
unfolding get_hash le_value
key-hash = refl

handshake_lem_example :
    let between = (handle_player_state toy env source (state_payload player) nowhere).0 in
    (client_at source
      (handle_authentication_response toy late source
        (response_payload key nonce)
        between).0.clients).public_key
    ≡ some key
handshake_lem_example =
    handshake_lem toy env late source player key key nonce [] (state_payload player) []
      (response_payload key nonce) nowhere source-is_supported nowhere-unknown refl
      state_payload-IsPayload player-IsObject (sym (append-nil (state_payload player)))
      response-IsPayload (omega arith) (omega arith) (sym (append-nil (response_payload key nonce)))
      key-found key-hash verified

handle_player_kill_lem_example :
    ((is_authenticated (client_at source crowd.clients) ≡ false)
      × ((handle_player_kill toy env source (kill_payload 0) crowd).0.sent ≡ crowd.sent))
    ⊎ ((is_authenticated (client_at source crowd.clients) ≡ true)
        × KillEffect toy env source 0 []
            (kill_payload 0)
            crowd
            kill_payload-IsPayload
            (omega arith)
            (sym (append-nil (kill_payload 0)))
            (handle_player_kill toy env source (kill_payload 0) crowd).0)
handle_player_kill_lem_example =
    handle_player_kill_lem toy env source 0 [] (kill_payload 0) crowd kill_payload-IsPayload
      (omega arith) (sym (append-nil (kill_payload 0)))

abbrev asked : Client (List ℕ)
asked = record default_client { authentication_nonce = nonce }

In-run_frame_example :
    In (source, known) (run_frame toy late crowd).clients
    ↔ (In (source, known) crowd.clients × IsFresh toy late known)
In-run_frame_example = In-run_frame toy late source known crowd

run_frame-sent_example :
    let left = remove_stale toy late crowd.clients in
    (run_frame toy late crowd).sent
    ≡ crowd.sent ++ broadcast toy late (states_payload toy left) (authenticated_clients toy left)
run_frame-sent_example = run_frame-sent toy late crowd

abbrev seen : World (List ℕ)
seen =
    step toy nowhere (packet env source (magic ++ (codes "state" ++ (b' ' ∷ state_payload player))))

Reachable-IsProven_example :
    AllClients
      (IsProven toy (
        frame late
        ∷ packet env source (magic ++ (codes "state" ++ (b' ' ∷ state_payload player)))
        ∷ []))
      (step toy seen (frame late)).clients
Reachable-IsProven_example = Reachable-IsProven toy (after (after start _) (frame late))

abbrev stranger : Address
stranger = record source { net_port = 9 }

source-ne-stranger : address_eq source stranger ≡ false
unfolding address_eq is_supported is_ipv4 is_ipv6 get_port
source-ne-stranger = refl

client_at-receive_example :
    client_at stranger
      (receive toy env source
        (magic ++ (codes "state" ++ (b' ' ∷ state_payload player)))
        crowd).0.clients
    ≡ client_at stranger crowd.clients
client_at-receive_example =
    client_at-receive toy stranger source source-ne-stranger env
      (magic ++ (codes "state" ++ (b' ' ∷ state_payload player))) crowd
