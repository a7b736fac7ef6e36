-- ===== src/Server/Verification.antt =====
-- What `handle_authentication_response` of src/server/server.cpp asks of a response, and what it makes
-- of the client.
use w3m.Prelude.{
  ℕ, ◌^◌, ◌<◌, ◌≡◌, ◌≢◌, refl, sym, ◌∙◌, ◌⊎◌, inl, inr, true, false, List, ◌++◌, none, some, ◌==◌,
  ==_iff, is_empty, Bool-cases, length,
}
use w3m.Prelude.Outcome.{returns}
use w3m.Cryptography.{Tomcrypt, deserialize, get_hash, verify_message}
use w3m.Network.Address.{Address, address_eq, is_supported}
use w3m.Network.Address.Equality.{address_eq_refl}
use w3m.Server.Clients.{Client, client_at}
use w3m.Server.Handlers.{
  Environment, World, print_failure, check_response, handle_authentication_response,
}
use w3m.Server.Messages.{IsPayload, response_payload}
use w3m.Server.Handshake.{handle_authentication_response_lem}

module _ (t : Tomcrypt) (env : Environment) where
  open t use {Key}

  -- There is a nonce, the key's hash is the guid of the client, and the key verifies the signature of
  -- the nonce.
  abbrev pub IsProof : Key → List ℕ → Client Key → Type 0
  IsProof k signature c =
      (is_empty c.authentication_nonce ≡ false)
      × (get_hash t k ≡ c.guid)
      × (verify_message t k c.authentication_nonce signature ≡ true)

  -- One of the three fails.
  abbrev pub IsNoProof : Key → List ℕ → Client Key → Type 0
  IsNoProof k signature c =
      (is_empty c.authentication_nonce ≡ true)
      ⊎ ((get_hash t k ≢ c.guid) ⊎ (verify_message t k c.authentication_nonce signature ≡ false))

  -- The client gets the key and the time exactly if the response is a proof.
  abbrev pub IsChecked : Key → List ℕ → Client Key → Client Key → Type 0
  IsChecked k signature c after =
      (IsProof k signature c × (after ≡ record c { public_key = some k; last_packet = env.now }))
      ⊎ (IsNoProof k signature c × (after ≡ record c { has_printed_failure = true }))

  check_response-IsChecked :
      (k : Key) (signature : List ℕ) (c : Client Key)
      → IsChecked k signature c (check_response t env k signature c)
  unfolding check_response print_failure
  check_response-IsChecked k signature c = elim (Bool-cases (is_empty c.authentication_nonce)) [
    | inl empty ↦ inr (inl empty, rw empty refl)
    | inr held ↦ elim (Bool-cases (get_hash t k == c.guid)) [
      | inr other ↦ inr (inr (inl (λ same. ne other same)), rw (held, other) refl)
      | inl same ↦ elim (Bool-cases (verify_message t k c.authentication_nonce signature)) [
        | inr wrong ↦ inr (inr (inr wrong), rw (held, same, wrong) refl)
        | inl right ↦ inl ((held, (==_iff _ _).0 same, right), rw (held, same, right) refl)
      ]
    ]
  ]
    where
      ne : (get_hash t k == c.guid) ≡ false → get_hash t k ≡ c.guid → ⊥
      ne other same = let clash : true ≡ false = sym ((==_iff _ _).1 same) ∙ other in cc

  module _ (source other : Address) (key signature tail payload : List ℕ) (w : World Key)
      (s : is_supported source ≡ true) (h : IsPayload payload) (hk : length key < 2 ^ 32)
      (hs : length signature < 2 ^ 32) (e : payload ≡ response_payload key signature ++ tail)
      (apart : address_eq source other ≡ false) where
    -- A well-formed response from a supported address is handled without an error, nothing is sent, and
    -- the client of an address that does not equal the source stays. If the key cannot be imported, no
    -- client changes. Otherwise, if the client of the source has a nonce, the key's hash is the
    -- client's guid and the key verifies the signature of the nonce, then the client gets the key and
    -- the time and nothing else; if one of the three fails, nothing but the note that a failure was
    -- printed changes.
    pub handle_authentication_response-IsChecked :
        let r = handle_authentication_response t env source payload w in
        (r.1 ≡ returns tt)
        × (r.0.sent ≡ w.sent)
        × (client_at other r.0.clients ≡ client_at other w.clients)
        × (((deserialize t key ≡ none) × (r.0.clients ≡ w.clients))
            ⊎ ((k : Key) × (deserialize t key ≡ some k)
                × IsChecked k signature
                    (client_at source w.clients)
                    (client_at source r.0.clients)))
    handle_authentication_response-IsChecked =
        let effect =
          handle_authentication_response_lem t env source key signature tail payload w h hk hs e in
        let self : address_eq source source ≡ true = address_eq_refl source ∙ s in
        elim effect.clients [
          | inl (absent, same) ↦ (effect.outcome, effect.sent, rw same refl, inl (absent, same))
          | inr (k, found, clients) ↦
              let c : client_at source
                    (handle_authentication_response t env source payload w).0.clients
                  ≡ check_response t env k signature (client_at source w.clients) =
                clients source ∙ rw self in
              (
                effect.outcome,
                effect.sent,
                clients other ∙ rw apart,
                inr (
                  k,
                  found,
                  rw c (check_response-IsChecked k signature (client_at source w.clients)),
                ),
              )
        ]
