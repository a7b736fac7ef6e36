-- ===== src/Server/Handshake.antt =====
-- The handshake of src/server/server.cpp: a state packet, the request it is answered by, and the
-- response to that request.
use w3m.Prelude.{
  ℕ, ◌^◌, ◌<◌, ◌≡◌, refl, sym, ◌∙◌, ◌⊎◌, inl, inr, true, false, List, [], ◌++◌, none, some, ==_refl,
  if◌then◌else◌, is_empty, Bool-cases, Option-cases, length,
}
use mathlib.Core.Path.{subst}
use mathlib.Core.Option.{some-injective}
use w3m.Prelude.Outcome.{Outcome, returns}
use w3m.Text.Hex.{dump_hex-filled}
use w3m.Game.{Player, player_layout}
use w3m.Cryptography.{Tomcrypt, deserialize, get_hash, verify_message, get_challenge}
use w3m.Network.Address.{Address, address_eq, is_supported}
use w3m.Network.Address.Equality.{address_eq_refl}
use w3m.Server.Clients.{Client, client_at, client_at-change_client, is_authenticated}
use w3m.Server.Handlers.{
  Environment, World, store_state, choose_nonce, check_response, accept_response,
  handle_player_state, handle_authentication_response,
}
use w3m.Server.Messages.{
  IsPayload, state_payload, response_payload, read_authentication-response_payload,
}
use w3m.Server.Authentication.{accepts, check_response_lem}
use w3m.Server.Effects.{after_state, handle_player_state_lem}

module _ (t : Tomcrypt) where
  open t use {Key}

  -- A response's payload, and what may follow it.
  module _ (env : Environment) (source : Address) (key signature tail payload : List ℕ)
      (w : World Key) (h : IsPayload payload) (hk : length key < 2 ^ 32)
      (hs : length signature < 2 ^ 32) (e : payload ≡ response_payload key signature ++ tail) where
    pub record ResponseEffect (r : World Key × Outcome (Unit {0})) : Type 0 where
      pub outcome : r.1 ≡ returns tt
      pub sent : r.0.sent ≡ w.sent
      pub clients :
          ((deserialize t key ≡ none) × (r.0.clients ≡ w.clients))
          ⊎ ((k : Key) × (deserialize t key ≡ some k)
              × ((other : Address)
                  → client_at other r.0.clients ≡ (
                      if address_eq source other
                      then check_response t env k signature (client_at source w.clients)
                      else client_at other w.clients)))

    accept_response_lem :
        ResponseEffect (accept_response t env source (key, signature) w, returns tt)
    unfolding accept_response
    accept_response_lem = elim (Option-cases (deserialize t key)) [
      | inl absent ↦ record {
        outcome = refl;
        sent = rw (absent, accept_response);
        clients = inl (absent, rw (absent, accept_response));
      }
      | inr (k, found) ↦ record {
        outcome = refl;
        sent = rw (found, accept_response);
        clients = inr (
          k,
          found,
          rw (found, accept_response)
              (λ other.
                client_at-change_client source other (check_response t env k signature) w.clients),
        );
      }
    ]

    accepted_key :
        (r : World Key × Outcome (Unit {0}))
        → ResponseEffect r
        → (k : Key) → deserialize t key ≡ some k
        → (other : Address)
        → client_at other r.0.clients ≡ (
            if address_eq source other
            then check_response t env k signature (client_at source w.clients)
            else client_at other w.clients)
    accepted_key r h k found other = cases h.clients
      where
        cases :
            ((deserialize t key ≡ none) × (r.0.clients ≡ w.clients))
              ⊎ ((k : Key) × (deserialize t key ≡ some k)
                  × ((other : Address)
                      → client_at other r.0.clients ≡ (
                          if address_eq source other
                          then check_response t env k signature (client_at source w.clients)
                          else client_at other w.clients)))
            → client_at other r.0.clients ≡ (
                if address_eq source other
                then check_response t env k signature (client_at source w.clients)
                else client_at other w.clients)
        cases (inl (absent, same)) = cc
        cases (inr (k', found', f)) =
            subst
              (λ x. client_at other r.0.clients ≡ (
                if address_eq source other
                then check_response t env x signature (client_at source w.clients)
                else client_at other w.clients))
              (some-injective k' k (sym found' ∙ found)) (f other)

    -- A well-formed response is handled without an error and nothing is sent. If its key cannot be imported, no
    -- client changes; otherwise the client of the source is checked against the key and the
    -- signature, and no other client changes.
    pub handle_authentication_response_lem :
        ResponseEffect (handle_authentication_response t env source payload w)
    unfolding handle_authentication_response
    handle_authentication_response_lem =
        rw (read_authentication-response_payload key signature tail payload h hk hs e)
          accept_response_lem

  -- What the state packet stored, and the nonce that was sent for it.
  after_state-ready :
      (env : Environment) (player : Player) (c : Client Key)
      → is_authenticated c ≡ false
      → is_empty env.random ≡ false
      → ((after_state t env player c).guid ≡ player.guid)
        × (is_empty (after_state t env player c).authentication_nonce ≡ false)
  unfolding after_state store_state choose_nonce get_challenge
  after_state-ready env player c unknown random =
      elim (Bool-cases (is_empty c.authentication_nonce)) [
        | inl e ↦ rw (unknown, e) (refl, dump_hex-filled env.random [] random)
        | inr e ↦ rw (unknown, e) (refl, e)
      ]

  -- A supported address that is not authenticated sends a well-formed state packet with the hash of a key as its guid, and
  -- then, perhaps at another time, that key with a signature of the nonce that the server holds for
  -- it, to a server that has random bytes. It is authenticated under that key.
  pub handshake_lem :
      (env later : Environment) (source : Address) (player : Player) (k : Key)
      (key signature state_tail state response_tail response : List ℕ) (w : World Key)
      → is_supported source ≡ true
      → is_authenticated (client_at source w.clients) ≡ false
      → is_empty env.random ≡ false
      → IsPayload state
      → player_layout.IsObject player
      → state ≡ state_payload player ++ state_tail
      → IsPayload response
      → length key < 2 ^ 32
      → length signature < 2 ^ 32
      → response ≡ response_payload key signature ++ response_tail
      → deserialize t key ≡ some k
      → player.guid ≡ get_hash t k
      → let between = (handle_player_state t env source state w).0 in
        verify_message t k (client_at source between.clients).authentication_nonce signature ≡ true
        → (client_at source
            (handle_authentication_response t later source response between).0.clients).public_key
          ≡ some k
  handshake_lem env later source player k key signature state_tail state response_tail response w s
        unknown random hs object es hr hk hg er found guid verified =
      let first =
        (handle_player_state_lem t env source player state_tail state w s hs object es).0 in
      let between = (handle_player_state t env source state w).0 in
      let self : address_eq source source ≡ true = address_eq_refl source ∙ s in
      let c : client_at source between.clients
          ≡ after_state t env player (client_at source w.clients) =
        first.clients source ∙ rw self in
      let (g, n) = after_state-ready env player (client_at source w.clients) unknown random in
      let accepted : accepts t k signature (client_at source between.clients) ≡ true =
        rw verified (rw (c, n, g, guid, ==_refl)) in
      let second =
        handle_authentication_response_lem later source key signature response_tail response between
          hr hk hg er in
      rw (
        accepted_key later source key signature response_tail response between hr hk hg er _ second
            k found source,
        self,
        check_response_lem,
        accepted,
      )
