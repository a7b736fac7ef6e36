-- ===== src/Server/Takeover.antt =====
-- What a state packet makes of a client of src/server/server.cpp, field by field, and what is sent for
-- it.
use mathlib.Core.Path.{subst}
use w3m.Prelude.{
  ℕ, ◌+◌, ◌%◌, ◌^◌, ◌<◌, ◌≡◌, refl, sym, ap, ◌∙◌, ◌⊎◌, inl, inr, true, false, List, [], ◌∷◌, ◌++◌,
  append-nil, is_empty, arith, length, Bool-cases, codes,
}
use w3m.Prelude.Outcome.{returns}
use w3m.ByteBuffer.{write, write_object, empty_buffer}
use w3m.ByteBuffer.Objects.{u32}
use w3m.ByteBuffer.RoundTrip.{string_bytes, write_string-buffer}
use w3m.Text.{dump_hex, up_to_zero}
use w3m.Game.{protocol, Player, player_layout}
use w3m.Cryptography.{Tomcrypt, get_challenge}
use w3m.Network.Address.{Address, address_eq, is_supported, is_ipv4, is_ipv6}
use w3m.Network.Address.Equality.{address_eq_refl}
use w3m.Network.Manager.{Datagram, SendTo, magic, send}
use w3m.Server.Clients.{Client, client_at, is_authenticated}
use w3m.Server.Handlers.{
  Environment, World, store_state, choose_nonce, request_payload, handle_player_state,
}
use w3m.Server.Messages.{IsPayload, state_payload}
use w3m.Server.Effects.{after_state, state_answer, handle_player_state_lem}

-- The datagram with a command and its data.
abbrev pub packet_to : Address → List ℕ → List ℕ → Datagram
packet_to target command payload = record {
  v6 = is_ipv6 target;
  target = target;
  payload = magic ++ (command ++ (b' ' ∷ payload));
}

pub send-packet_to :
    (sendto : SendTo) (target : Address) (command payload : List ℕ)
    → is_supported target ≡ true
    → (send sendto target command payload b' ').sent ≡ packet_to target command payload ∷ []
unfolding send is_supported is_ipv4 is_ipv6
send-packet_to sendto target command payload h = ground arith

pub send-unsupported :
    (sendto : SendTo) (target : Address) (command payload : List ℕ)
    → is_supported target ≡ false
    → (send sendto target command payload b' ').sent ≡ []
unfolding send is_supported is_ipv4 is_ipv6
send-unsupported sendto target command payload h = ground arith

pub request_payload-bytes :
    (t : Tomcrypt) (c : Client t.Key)
    → length c.authentication_nonce < 2 ^ 32
    → request_payload t c ≡ u32.encode protocol ++ string_bytes c.authentication_nonce
unfolding request_payload write_object write empty_buffer
request_payload-bytes t c h = write_string-buffer _ c.authentication_nonce h

module _ (t : Tomcrypt) (env : Environment) (player : Player) where
  open t use {Key}

  -- A client before and after a state packet. Its nonce stays, or is made of the random bytes where the
  -- client is not authenticated and had none.
  pub record TakesOver (c after : Client Key) : Type 0 where
    pub guid : after.guid ≡ player.guid
    pub name : after.name ≡ up_to_zero player.name
    pub current_state : after.current_state ≡ player.state
    pub state_id : after.state_id ≡ (c.state_id + 1) % 2 ^ 64
    pub last_packet : after.last_packet ≡ env.now
    pub public_key : after.public_key ≡ c.public_key
    pub has_printed_failure : after.has_printed_failure ≡ c.has_printed_failure
    pub nonce :
        (((is_authenticated c ≡ true) ⊎ (is_empty c.authentication_nonce ≡ false))
          × (after.authentication_nonce ≡ c.authentication_nonce))
        ⊎ ((is_authenticated c ≡ false)
            × (is_empty c.authentication_nonce ≡ true)
            × (after.authentication_nonce ≡ dump_hex env.random []))

  after_state-TakesOver : (c : Client Key) → TakesOver c (after_state t env player c)
  unfolding after_state store_state choose_nonce get_challenge
  after_state-TakesOver c = elim (Bool-cases (is_authenticated c)) [
    | inl known ↦ rw known (record {
      guid = refl;
      name = refl;
      current_state = refl;
      state_id = refl;
      last_packet = refl;
      public_key = refl;
      has_printed_failure = refl;
      nonce = inl (inl known, refl);
    })
    | inr unknown ↦ elim (Bool-cases (is_empty c.authentication_nonce)) [
      | inl none_yet ↦
          rw (unknown, none_yet)
            (record {
              guid = refl;
              name = refl;
              current_state = refl;
              state_id = refl;
              last_packet = refl;
              public_key = refl;
              has_printed_failure = refl;
              nonce = inr (unknown, none_yet, refl);
            })
      | inr held ↦
          rw (unknown, held)
            (record {
              guid = refl;
              name = refl;
              current_state = refl;
              state_id = refl;
              last_packet = refl;
              public_key = refl;
              has_printed_failure = refl;
              nonce = inl (inr held, refl);
            })
    ]
  ]

  state_answer-known :
      (source : Address) (c : Client Key)
      → is_authenticated c ≡ true
      → state_answer t env source player c ≡ []
  unfolding state_answer
  state_answer-known source c known = rw known

  state_answer-unknown :
      (source : Address) (c : Client Key)
      → is_authenticated c ≡ false
      → state_answer t env source player c
        ≡ (send env.sendto source
            (codes "authRequest")
            (request_payload t (after_state t env player c))
            b' ').sent
  unfolding state_answer
  state_answer-unknown source c unknown = rw unknown

  -- Nothing for a client that is authenticated, and else one request with the client's nonce.
  abbrev pub IsAnswered : Address → Client Key → Client Key → List Datagram → List Datagram → Type 0
  IsAnswered source c after before sent =
      ((is_authenticated c ≡ true) × (sent ≡ before))
      ⊎ ((is_authenticated c ≡ false)
          × (sent
              ≡ before
                ++ (packet_to source (codes "authRequest")
                      (u32.encode protocol ++ string_bytes after.authentication_nonce)
                    ∷ [])))

  module _ (source other : Address) (tail payload : List ℕ) (w : World Key)
      (s : is_supported source ≡ true) (h : IsPayload payload)
      (object : player_layout.IsObject player) (e : payload ≡ state_payload player ++ tail)
      (apart : address_eq source other ≡ false)
      (short : length
          (client_at source
            (handle_player_state t env source payload w).0.clients).authentication_nonce
        < 2 ^ 32) where
    -- A well-formed state packet from a supported address, after which the client's nonce has less than
    -- 2 ^ 32 characters, is handled without an error. The client of that address takes over the
    -- packet's guid, its name up to the first zero and its state, counts its states on, around
    -- 2 ^ 64, notes the time, and keeps its key. If it is not authenticated, it has a nonce
    -- afterwards, the one that it had or else the random bytes in hexadecimal, and one request with
    -- that nonce is sent to it; otherwise its nonce stays and nothing is sent. The client of an
    -- address that does not equal the source stays.
    pub handle_player_state-TakesOver :
        let r = handle_player_state t env source payload w in
        (r.1 ≡ returns tt)
        × TakesOver (client_at source w.clients) (client_at source r.0.clients)
        × IsAnswered source
            (client_at source w.clients)
            (client_at source r.0.clients)
            w.sent
            r.0.sent
        × (client_at other r.0.clients ≡ client_at other w.clients)
    handle_player_state-TakesOver =
        let (effect, fine) =
          handle_player_state_lem t env source player tail payload w s h object e in
        let self : address_eq source source ≡ true = address_eq_refl source ∙ s in
        let c : client_at source (handle_player_state t env source payload w).0.clients
            ≡ after_state t env player (client_at source w.clients) =
          effect.clients source ∙ rw self in
        (
          fine,
          rw c (after_state-TakesOver (client_at source w.clients)),
          answered c effect.sent,
          effect.clients other ∙ rw apart,
        )
      where
        answered :
            client_at source (handle_player_state t env source payload w).0.clients
              ≡ after_state t env player (client_at source w.clients)
            → (handle_player_state t env source payload w).0.sent
              ≡ w.sent ++ state_answer t env source player (client_at source w.clients)
            → IsAnswered source
                (client_at source w.clients)
                (client_at source (handle_player_state t env source payload w).0.clients)
                w.sent
                (handle_player_state t env source payload w).0.sent
        answered c sent = elim (Bool-cases (is_authenticated (client_at source w.clients))) [
          | inl known ↦ inl (
            known,
            sent ∙ rw (state_answer-known source (client_at source w.clients) known, append-nil),
          )
          | inr unknown ↦ inr (
            unknown,
            sent
                ∙ ap (◌++◌ w.sent) (
                    state_answer-unknown source (client_at source w.clients) unknown
                    ∙ (send-packet_to env.sendto source (codes "authRequest")
                          (request_payload t
                            (after_state t env player (client_at source w.clients)))
                          s
                        ∙ ap (λ b. packet_to source (codes "authRequest") b ∷ [])
                            (request_payload-bytes t
                                (after_state t env player (client_at source w.clients))
                                (subst (λ x. length x.authentication_nonce < 2 ^ 32) c short)
                              ∙ ap (λ x. u32.encode protocol ++ string_bytes x.authentication_nonce)
                                  (sym c)))),
          )
        ]
