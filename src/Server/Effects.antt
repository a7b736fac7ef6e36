-- ===== src/Server/Effects.antt =====
-- The whole effect of each handler of src/server/server.cpp on every client and on what is sent.
use w3m.Prelude.{
  ℕ, ◌≡◌, refl, sym, ap, ◌∙◌, inl, inr, true, false, List, [], ◌++◌, append-nil, if◌then◌else◌,
  Bool-cases, codes,
}
use w3m.Prelude.Outcome.{returns}
use w3m.Game.{Player, player_layout}
use w3m.Cryptography.{Tomcrypt}
use w3m.Network.Address.{Address, address_eq, is_supported}
use w3m.Network.Address.Equality.{address_eq_refl}
use w3m.Network.Manager.{Datagram, send}
use w3m.Server.Clients.{
  Client, ClientMap, client_at, change_client, client_at-change_client, is_authenticated,
}
use w3m.Server.Handlers.{
  Environment, World, transmit, store_state, choose_nonce, request_payload, player_state,
  send_authentication_request, handle_player_state,
}
use w3m.Server.Messages.{IsPayload, state_payload, read_player-state_payload}

module _ (t : Tomcrypt) (env : Environment) where
  open t use {Key}

  -- The client after a state packet: the state is stored, and a client that is not authenticated and
  -- has no nonce gets one.
  unfoldable pub after_state : Player → Client Key → Client Key
  unfolding store_state choose_nonce
  after_state player c =
      let stored = store_state t env player c in
      if is_authenticated c then stored else choose_nonce t env stored

  -- What is sent in answer to a state packet.
  unfoldable pub state_answer : Address → Player → Client Key → List Datagram
  unfolding after_state
  state_answer source player c =
      if is_authenticated c
      then []
      else (send env.sendto source (codes "authRequest") (request_payload t (after_state player c))
          b' ').sent

  self : (source : Address) → is_supported source ≡ true → address_eq source source ≡ true
  self source s = address_eq_refl source ∙ s

  looked :
      (source : Address) (f : Client Key → Client Key) (clients : ClientMap Key)
      → is_supported source ≡ true
      → client_at source (change_client source f clients) ≡ f (client_at source clients)
  looked source f clients s = client_at-change_client source source f clients ∙ rw (self source s)

  module _ (source : Address) (player : Player) (w : World Key)
      (s : is_supported source ≡ true) where
    before : Client Key
    before = client_at source w.clients

    stored : ClientMap Key
    stored = change_client source (store_state t env player) w.clients

    guard : is_authenticated (client_at source stored) ≡ is_authenticated before
    unfolding stored before store_state
    guard =
        ap (λ (c : Client Key). is_authenticated c)
          (looked source (store_state t env player) w.clients s)

    player_state-known :
        is_authenticated before ≡ true
        → player_state t env source player w ≡ record w { clients = stored }
    unfolding player_state stored
    player_state-known e = rw (guard ∙ e, player_state)

    player_state-unknown :
        is_authenticated before ≡ false
        → player_state t env source player w
          ≡ send_authentication_request t env source (record w { clients = stored })
    unfolding player_state stored
    player_state-unknown e = rw (guard ∙ e, player_state)

    pub record StateEffect (after : World Key) : Type 0 where
      pub clients :
          (other : Address)
          → client_at other after.clients ≡ (
              if address_eq source other
              then after_state player (client_at source w.clients)
              else client_at other w.clients)
      pub sent : after.sent ≡ w.sent ++ state_answer source player (client_at source w.clients)

    chosen :
        (other : Address)
        → is_authenticated before ≡ false
        → client_at other (change_client source (choose_nonce t env) stored) ≡ (
            if address_eq source other
            then after_state player (client_at source w.clients)
            else client_at other w.clients)
    unfolding before stored after_state
    chosen other unknown = elim (Bool-cases (address_eq source other)) [
      | inl e ↦
          client_at-change_client source other (choose_nonce t env) stored
          ∙ rw (e, unknown, looked source (store_state t env player) w.clients s)
      | inr e ↦
          client_at-change_client source other (choose_nonce t env) stored
          ∙ rw (client_at-change_client source other (store_state t env player) w.clients) (rw e)
    ]

    player_state_lem : StateEffect (player_state t env source player w)
    unfolding before stored send_authentication_request transmit state_answer after_state
    player_state_lem = elim (Bool-cases (is_authenticated before)) [
      | inl known ↦ rw (player_state-known known) (record {
        clients = λ other.
            client_at-change_client source other (store_state t env player) w.clients ∙ rw known;
        sent = rw known (sym (append-nil w.sent));
      })
      | inr unknown ↦ rw (player_state-unknown unknown) (record {
        clients = λ other. chosen other unknown;
        sent = rw (
          unknown,
          looked source (choose_nonce t env) stored s,
          looked source (store_state t env player) w.clients s,
        );
      })
    ]

  -- A state packet's payload, and what may follow it.
  module _ (source : Address) (player : Player) (tail payload : List ℕ) (w : World Key)
      (s : is_supported source ≡ true) (h : IsPayload payload)
      (object : player_layout.IsObject player) (e : payload ≡ state_payload player ++ tail) where
    -- A well-formed state packet from a supported address is handled without an error: the client of that address,
    -- and no other, takes over the packet's state, name and guid, an authentication request with the
    -- client's nonce is sent to it if it is not authenticated, and nothing else is sent.
    pub handle_player_state_lem :
        (StateEffect source player w s (handle_player_state t env source payload w).0)
        × ((handle_player_state t env source payload w).1 ≡ returns tt)
    unfolding handle_player_state
    handle_player_state_lem =
        rw (read_player-state_payload player tail payload h object e)
          (player_state_lem source player w s, refl)

    -- A supported address that is authenticated and sends a well-formed state packet stays authenticated under the same key,
    -- gets the guid of the packet, whatever the key's hash is, and is asked for no new response.
    pub handle_player_state-guid :
        is_authenticated (client_at source w.clients) ≡ true
        → let after = (handle_player_state t env source payload w).0 in
          ((client_at source after.clients).guid ≡ player.guid)
          × ((client_at source after.clients).public_key ≡ (client_at source w.clients).public_key)
          × (after.sent ≡ w.sent)
    unfolding after_state state_answer store_state
    handle_player_state-guid known =
        let r = handle_player_state_lem.0 in
        let c : client_at source (handle_player_state t env source payload w).0.clients
            ≡ store_state t env player (client_at source w.clients) =
          r.clients source ∙ rw (self source s, known) in
        (rw c, rw c, r.sent ∙ rw (known, append-nil))
