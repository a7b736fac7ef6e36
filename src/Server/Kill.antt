-- ===== src/Server/Kill.antt =====
-- What `handle_player_kill` of src/server/server.cpp does with a packet of a client.
use w3m.Prelude.{
  ℕ, ◌^◌, ◌<◌, ◌≡◌, ◌⊎◌, refl, ap, ◌∙◌, inl, inr, Bool, true, false, ◌&&◌, List, [], ◌∷◌, ◌++◌,
  append_assoc, append-nil, Option, none, some, arith, ◌==◌, Bool-cases, In, codes,
}
use w3m.Prelude.Outcome.{returns}
use w3m.ByteBuffer.{write, write_object, empty_buffer}
use w3m.ByteBuffer.Objects.{u32, u64}
use w3m.ByteBuffer.RoundTrip.{read_object-Reads}
use w3m.Game.{protocol}
use w3m.Cryptography.{Tomcrypt}
use w3m.Network.Address.{Address, address_eq, is_supported}
use w3m.Server.Clients.{AllClients, Client, ClientMap, client_at, change_client, is_authenticated}
use w3m.Server.Handlers.{
  Environment, World, transmit, read_guid, killed_payload, find_victim, send_killed_command,
  kill_player, kill_from, handle_player_kill,
}
use w3m.Server.Takeover.{packet_to, send-packet_to, send-unsupported}
use w3m.Server.Messages.{IsPayload, with_protocol_lem}

unfoldable pub kill_payload : ℕ → List ℕ
kill_payload guid = u32.encode protocol ++ u64.encode guid

module _ (t : Tomcrypt) where
  open t use {Key}

  -- Looking up an address that is authenticated adds no entry.
  change_client-known :
      (source : Address) (clients : ClientMap Key)
      → is_authenticated (client_at source clients) ≡ true
      → change_client source (λ c. c) clients ≡ clients
  unfolding client_at change_client
  change_client-known source [] h = cc
  change_client-known source ((key, client) ∷ clients) h =
      elim (Bool-cases (address_eq key source)) [
        | inl e ↦ rw (e, change_client)
        | inr e ↦
            rw (e, change_client)
              (ap (◌∷◌ (key, client)) (change_client-known source clients (rw (e, client_at) at h)))
      ]

  touched-unknown :
      (source : Address) (clients : ClientMap Key)
      → is_authenticated (client_at source clients) ≡ false
      → is_authenticated (client_at source (change_client source (λ c. c) clients)) ≡ false
  unfolding client_at change_client
  touched-unknown source [] h = elim (Bool-cases (address_eq source source)) [
    | inl e ↦ rw e
    | inr e ↦ rw e
  ]
  touched-unknown source ((key, client) ∷ clients) h = elim (Bool-cases (address_eq key source)) [
    | inl e ↦ rw (e, change_client) (rw (e, client_at) (rw (e, client_at) at h))
    | inr e ↦
        rw (e, change_client)
          (rw (e, client_at) (touched-unknown source clients (rw (e, client_at) at h)))
  ]

  abbrev pub is_victim : ℕ → Client Key → Bool
  is_victim guid client = is_authenticated client && client.guid == guid

  -- Whom `find_victim` finds: an authenticated client with the guid, or nobody if there is none.
  abbrev pub Finds : ℕ → ClientMap Key → Option Address → Type 0
  Finds guid clients none =
      AllClients (λ (key : Address) (client : Client Key). is_victim guid client ≡ false) clients
  Finds guid clients (some key) =
      (client : Client Key) × In (key, client) clients × (is_victim guid client ≡ true)

  behind :
      (guid : ℕ) (key : Address) (client : Client Key) (clients : ClientMap Key)
      (o : Option Address)
      → is_victim guid client ≡ false
      → Finds guid clients o
      → Finds guid ((key, client) ∷ clients) o
  behind guid key client clients (some other) e (c, m, v) = (c, inr m, v)
  behind guid key client clients none e h = (e, h)

  find_victim-Finds :
      (guid : ℕ) (clients : ClientMap Key) → Finds guid clients (find_victim t guid clients)
  unfolding find_victim
  find_victim-Finds guid [] = tt
  find_victim-Finds guid ((key, client) ∷ clients) = elim (Bool-cases (is_victim guid client)) [
    | inl e ↦ rw (e, find_victim) (client, inl refl, e)
    | inr e ↦
        rw (e, find_victim)
          (behind guid key client clients (find_victim t guid clients) e
            (find_victim-Finds guid clients))
  ]

  killed_payload-bytes :
      (c : Client Key) → killed_payload t c ≡ u32.encode protocol ++ u64.encode c.guid
  unfolding killed_payload write_object write empty_buffer
  killed_payload-bytes c = refl

  module _ (env : Environment) (source : Address) (guid : ℕ) (tail payload : List ℕ) (w : World Key)
      (h : IsPayload payload) (small : guid < 2 ^ 64)
      (e : payload ≡ kill_payload guid ++ tail) where
    -- The result for an authenticated source.
    abbrev pub KillEffect : World Key → Type 0
    KillEffect after =
        (after.clients ≡ w.clients)
        × (((key : Address) × (client : Client Key) × In (key, client) w.clients
              × (is_victim guid client ≡ true)
              × (((is_supported key ≡ true)
                    × (after.sent
                        ≡ w.sent
                          ++ (packet_to key (codes "killed") (
                                u32.encode protocol ++ u64.encode (client_at source w.clients).guid)
                              ∷ [])))
                  ⊎ ((is_supported key ≡ false) × (after.sent ≡ w.sent))))
            ⊎ (AllClients (λ (key : Address) (client : Client Key). is_victim guid client ≡ false)
                  w.clients
                × (after.sent ≡ w.sent)))

    kill_player_cases :
        (o : Option Address)
        → Finds guid w.clients o
        → KillEffect (send_killed_command t env (client_at source w.clients) o w)
    unfolding send_killed_command transmit
    kill_player_cases none f = (refl, inr (f, refl))
    kill_player_cases (some key) (client, m, v) = (
      refl,
      inl (
        key,
        client,
        m,
        v,
        elim (Bool-cases (is_supported key)) [
          | inl s ↦ inl (
            s,
            ap (◌++◌ w.sent) (
                send-packet_to env.sendto key (codes "killed")
                  (killed_payload t (client_at source w.clients)) s
                ∙ ap (λ b. packet_to key (codes "killed") b ∷ [])
                    (killed_payload-bytes (client_at source w.clients))),
          )
          | inr s ↦ inr (
            s,
            ap (◌++◌ w.sent) (
                  send-unsupported env.sendto key (codes "killed")
                    (killed_payload t (client_at source w.clients)) s)
                ∙ append-nil w.sent,
          )
        ],
      ),
    )

    -- For a well-formed kill packet: a source that is not authenticated gets nothing sent to anybody.
    -- For one that is, no client changes. If there is an authenticated client with the guid of the
    -- packet, one packet with the protocol's number and the source's own guid is sent to one such
    -- client, where its address is supported, and nothing where it is not. If there is none, nothing
    -- is sent.
    pub handle_player_kill_lem :
        ((is_authenticated (client_at source w.clients) ≡ false)
          × ((handle_player_kill t env source payload w).0.sent ≡ w.sent))
        ⊎ ((is_authenticated (client_at source w.clients) ≡ true)
            × KillEffect (handle_player_kill t env source payload w).0)
    unfolding handle_player_kill kill_from kill_player read_guid kill_payload
    handle_player_kill_lem =
        let (d, r, left, v) =
          with_protocol_lem (λ buffer. returns buffer) (u64.encode guid ++ tail) h
            (e ∙ append_assoc (u32.encode protocol) (u64.encode guid) tail) in
        let (d', r', left', v') =
          read_object-Reads d v tail u64 guid (omega arith) (omega arith) left in
        elim (Bool-cases (is_authenticated (client_at source w.clients))) [
          | inr unknown ↦ inl (
            unknown,
            rw (r, handle_player_kill) (rw (touched-unknown source w.clients unknown, kill_from)),
          )
          | inl known ↦ inr (
            known,
            rw (r, handle_player_kill)
                (rw (change_client-known source w.clients known) (
                  rw (known, kill_from)
                    (rw r' (
                      kill_player_cases (find_victim t guid w.clients)
                        (find_victim-Finds guid w.clients))))),
          )
        ]
