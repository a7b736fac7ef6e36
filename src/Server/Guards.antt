-- ===== src/Server/Guards.antt =====
-- What the handlers of src/server/server.cpp may do to the state, by the cases of their guards.
use w3m.Prelude.{
  ℕ, ◌≡◌, refl, inl, inr, Bool, List, [], ◌∷◌, Option, none, some, Bool-cases, Option-cases, keep,
  codes,
}
use w3m.Prelude.Outcome.{Outcome, returns, throws, terminates, undefined}
use w3m.Game.{Player}
use w3m.Cryptography.{Tomcrypt, deserialize}
use w3m.ByteBuffer.{Deserializer}
use w3m.Network.Address.{Address}
use w3m.Network.Manager.{on, read_packet}
use w3m.Network.Manager.Dispatch.{AllPreserve, on-AllPreserve, handle_data-Preserves}
use w3m.Server.Clients.{
  AllClients, IsEntryOf, default_client, change_client-AllClients, Client, ClientMap, change_client,
  client_at, is_authenticated,
}
use w3m.Server.Handlers.{
  Environment, World, after_reading, touch, kill_player, kill_from, find_victim,
  send_killed_command, transmit, check_response, accept_response, store_state, choose_nonce,
  player_state, send_authentication_request, send_to_all, send_state, remove_stale, states_payload,
  run_frame, with_protocol, read_authentication, handle_player_state, handle_player_kill,
  handle_authentication_response, callbacks, receive,
}

after_reading_lem {κ} :
    {A S : Type 0} (P : S → Type κ) (r : Outcome (Option A)) (act : A → S → S) (s : S)
    → P s
    → ((a : A) → r ≡ returns (some a) → P (act a s))
    → P (after_reading r act s).0
after_reading_lem P (returns none) act s h k = h
after_reading_lem P (returns (some a)) act s h k = k a refl
after_reading_lem P (throws e) act s h k = h
after_reading_lem P terminates act s h k = h
after_reading_lem P undefined act s h k = h

module _ (t : Tomcrypt) where
  open t use {Key}

  send_to_all-clients :
      (env : Environment) (payload : List ℕ) (clients : ClientMap Key) (w : World Key)
      → (send_to_all t env payload clients w).clients ≡ w.clients
  unfolding send_to_all
  send_to_all-clients env payload [] w = refl
  send_to_all-clients env payload ((key, client) ∷ clients) w =
      elim (Bool-cases (is_authenticated client)) [
        | inl e ↦
            rw (e, send_to_all)
              (send_to_all-clients env payload clients
                (transmit env key (codes "states") payload w))
        | inr e ↦ rw (e, send_to_all) (send_to_all-clients env payload clients w)
      ]

  pub run_frame-clients :
      (env : Environment) (w : World Key)
      → (run_frame t env w).clients ≡ remove_stale t env w.clients
  unfolding run_frame send_state
  run_frame-clients env w =
      let clients = remove_stale t env w.clients in
      send_to_all-clients env (states_payload t clients) clients (record w { clients = clients })

  send_killed_command-clients :
      (env : Environment) (killer : Client Key) (o : Option Address) (w : World Key)
      → (send_killed_command t env killer o w).clients ≡ w.clients
  unfolding send_killed_command transmit
  send_killed_command-clients env killer none w = refl
  send_killed_command-clients env killer (some victim) w = refl

  -- A property of the map of clients that survives the changes that a payload of a source makes is
  -- kept by every handler; a response's key and signature are those that stand in the payload.
  module _ {κ} (P : ClientMap Key → Type κ) (env : Environment) (source : Address)
      (payload : List ℕ) where
    pub record Changes : Type κ where
      pub looked_up :
          (clients : ClientMap Key) → P clients → P (change_client source (λ c. c) clients)
      pub stored :
          (player : Player) (clients : ClientMap Key)
          → P clients
          → P (change_client source (store_state t env player) clients)
      pub chosen :
          (clients : ClientMap Key)
          → P clients
          → P (change_client source (choose_nonce t env) clients)
      pub checked :
          (bytes signature : List ℕ) (key : Key) (clients : ClientMap Key)
          → with_protocol read_authentication payload ≡ returns (some (bytes, signature))
          → deserialize t bytes ≡ some key
          → P clients
          → P (change_client source (check_response t env key signature) clients)

    module _ (ch : Changes) where
      player_state-keeps :
          (player : Player) (w : World Key)
          → P w.clients
          → P (player_state t env source player w).clients
      unfolding player_state send_authentication_request transmit
      player_state-keeps player w h =
          let stored = ch.stored player w.clients h in
          elim (Bool-cases (
            is_authenticated
              (client_at source (change_client source (store_state t env player) w.clients)))) [
                | inl e ↦ rw (e, player_state) stored
                | inr e ↦ rw (e, player_state) (ch.chosen _ stored)
              ]

      state-keeps :
          (w : World Key) → P w.clients → P (handle_player_state t env source payload w).0.clients
      unfolding handle_player_state
      state-keeps w h =
          after_reading_lem (λ x. P x.clients) _ (player_state t env source) w h
            (λ player e. player_state-keeps player w h)

      kill_from-keeps :
          (buffer : Deserializer) (w : World Key)
          → P w.clients
          → P (kill_from t env source buffer w).0.clients
      unfolding kill_from kill_player
      kill_from-keeps buffer w h =
          elim (Bool-cases (is_authenticated (client_at source w.clients))) [
            | inl e ↦
                rw (e, kill_from)
                  (after_reading_lem (λ x. P x.clients) _ (kill_player t env source) w h
                    (λ guid e'.
                      rw
                        (send_killed_command-clients env (client_at source w.clients)
                          (find_victim t guid w.clients) w)
                        h))
            | inr e ↦ rw (e, kill_from) h
          ]

      kill-keeps :
          (w : World Key) → P w.clients → P (handle_player_kill t env source payload w).0.clients
      unfolding handle_player_kill
      kill-keeps w h = cases (with_protocol (λ buffer. returns buffer) payload) refl
        where
          cases :
              (r : Outcome (Option Deserializer))
              → with_protocol (λ buffer. returns buffer) payload ≡ r
              → P (handle_player_kill t env source payload w).0.clients
          cases (returns none) e = rw (e, handle_player_kill) h
          cases (returns (some buffer)) e =
              rw (e, handle_player_kill)
                (kill_from-keeps buffer (touch t source w) (ch.looked_up w.clients h))
          cases (throws x) e = rw (e, handle_player_kill) h
          cases terminates e = rw (e, handle_player_kill) h
          cases undefined e = rw (e, handle_player_kill) h

      accept_response-keeps :
          (bytes signature : List ℕ) (w : World Key)
          → with_protocol read_authentication payload ≡ returns (some (bytes, signature))
          → P w.clients
          → P (accept_response t env source (bytes, signature) w).clients
      unfolding accept_response
      accept_response-keeps bytes signature w r h = elim (Option-cases (deserialize t bytes)) [
        | inl e ↦ rw (e, accept_response) h
        | inr (k, e) ↦ rw (e, accept_response) (ch.checked bytes signature k w.clients r e h)
      ]

      response-keeps :
          (w : World Key)
          → P w.clients
          → P (handle_authentication_response t env source payload w).0.clients
      unfolding handle_authentication_response
      response-keeps w h =
          after_reading_lem (λ x. P x.clients) _ (accept_response t env source) w h
            (λ p e. accept_response-keeps p.0 p.1 w e h)

    keeps_all :
        Changes → AllPreserve (λ (w : World Key). P w.clients) source payload (callbacks t env)
    unfolding callbacks
    keeps_all ch =
        let Q = λ (w : World Key). P w.clients in
        let state_map = on (codes "state") (handle_player_state t env) [] in
        let kill_map = on (codes "kill") (handle_player_kill t env) state_map in
        on-AllPreserve Q source payload (codes "authResponse")
          (handle_authentication_response t env) kill_map (response-keeps ch)
          (on-AllPreserve Q source payload (codes "kill") (handle_player_kill t env) state_map
            (kill-keeps ch)
            (on-AllPreserve Q source payload (codes "state") (handle_player_state t env) []
              (state-keeps ch) tt))

  pub receive-keeps {κ} :
      (P : ClientMap Key → Type κ) (env : Environment) (source : Address) (packet : List ℕ)
      → ((command payload : List ℕ)
          → read_packet packet ≡ some (command, payload)
          → Changes P env source payload)
      → (w : World Key) → P w.clients
      → P (receive t env source packet w).0.clients
  unfolding receive
  receive-keeps P env source packet ch =
      handle_data-Preserves (λ (w : World Key). P w.clients) (callbacks t env) source packet
        (λ command payload e. keeps_all P env source payload (ch command payload e))

  -- A property of single entries that a new entry has and that the changes keep.
  module _ {κ} (P : Address → Client Key → Type κ) where
    pub record ClientChanges (env : Environment) (source : Address) (packet : List ℕ) : Type κ where
      pub default : P source default_client
      pub stored :
          (player : Player) (key : Address) (c : Client Key)
          → IsEntryOf source key
          → P key c
          → P key (store_state t env player c)
      pub chosen :
          (key : Address) (c : Client Key)
          → IsEntryOf source key
          → P key c
          → P key (choose_nonce t env c)
      pub checked :
          (command payload bytes signature : List ℕ) (k : Key)
          → read_packet packet ≡ some (command, payload)
          → with_protocol read_authentication payload ≡ returns (some (bytes, signature))
          → deserialize t bytes ≡ some k
          → (key : Address) (c : Client Key) → IsEntryOf source key
          → P key c
          → P key (check_response t env k signature c)

    keep-AllClients :
        (p : Address × Client Key → Bool) (clients : ClientMap Key)
        → AllClients P clients
        → AllClients P (keep p clients)
    keep-AllClients p [] h = tt
    keep-AllClients p ((key, client) ∷ clients) (hc, h) = elim (Bool-cases (p (key, client))) [
      | inl e ↦ rw e (hc, keep-AllClients p clients h)
      | inr e ↦ rw e (keep-AllClients p clients h)
    ]

    pub receive-AllClients :
        (env : Environment) (source : Address) (packet : List ℕ)
        → ClientChanges env source packet
        → (w : World Key) → AllClients P w.clients
        → AllClients P (receive t env source packet w).0.clients
    receive-AllClients env source packet ch =
        receive-keeps (AllClients P) env source packet (λ command payload found. record {
          looked_up = λ clients.
              change_client-AllClients P source (λ c. c) clients ch.default (λ key c i h. h);
          stored = λ player clients.
              change_client-AllClients P source (store_state t env player) clients ch.default
                (ch.stored player);
          chosen = λ clients.
              change_client-AllClients P source (choose_nonce t env) clients ch.default ch.chosen;
          checked = λ bytes signature k clients r e.
              change_client-AllClients P source (check_response t env k signature) clients
                ch.default (ch.checked command payload bytes signature k found r e);
        })

    pub run_frame-AllClients :
        (env : Environment) (w : World Key)
        → AllClients P w.clients
        → AllClients P (run_frame t env w).clients
    unfolding remove_stale
    run_frame-AllClients env w h = rw (run_frame-clients env w) (keep-AllClients _ w.clients h)
