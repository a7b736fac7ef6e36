-- ===== src/Server/Isolation.antt =====
-- What a packet cannot do to the other clients of src/server/server.cpp, and that the map of clients
-- stays one.
use w3m.Prelude.{ℕ, ◌≡◌, refl, ◌∙◌, inl, inr, Bool, false, List, [], ◌∷◌, keep, Bool-cases}
use w3m.Cryptography.{Tomcrypt}
use w3m.Network.Address.{Address, address_eq}
use w3m.Network.Address.Equality.{address_eq_symm}
use w3m.Server.Clients.{Client, ClientMap, client_at, change_client, client_at-change_client}
use w3m.Server.Handlers.{
  Environment, World, check_response, store_state, choose_nonce, remove_stale, receive,
}
use w3m.Server.Guards.{receive-keeps, run_frame-clients}
use w3m.Server.Authentication.{Event, packet, frame, step, Reachable, start, after}

module _ {Key : Type 0} where
  -- The address equals none of the keys.
  abbrev pub IsNew : Address → ClientMap Key → Type 0
  IsNew address [] = Unit {0}
  IsNew address ((key, client) ∷ clients) = (address_eq key address ≡ false) × IsNew address clients

  -- No two entries have equal keys.
  abbrev pub IsMap : ClientMap Key → Type 0
  IsMap [] = Unit {0}
  IsMap ((key, client) ∷ clients) = IsNew key clients × IsMap clients

  IsNew-change_client :
      (address source : Address) (f : Client Key → Client Key) (clients : ClientMap Key)
      → address_eq source address ≡ false
      → IsNew address clients
      → IsNew address (change_client source f clients)
  unfolding change_client
  IsNew-change_client address source f [] ne h = (ne, tt)
  IsNew-change_client address source f ((key, client) ∷ clients) ne (hk, h) =
      elim (Bool-cases (address_eq key source)) [
        | inl e ↦ rw (e, change_client) (hk, h)
        | inr e ↦ rw (e, change_client) (hk, IsNew-change_client address source f clients ne h)
      ]

  IsMap-change_client :
      (source : Address) (f : Client Key → Client Key) (clients : ClientMap Key)
      → IsMap clients
      → IsMap (change_client source f clients)
  unfolding change_client
  IsMap-change_client source f [] h = (tt, tt)
  IsMap-change_client source f ((key, client) ∷ clients) (new, h) =
      elim (Bool-cases (address_eq key source)) [
        | inl e ↦ rw (e, change_client) (new, h)
        | inr e ↦
            let other : address_eq source key ≡ false = address_eq_symm source key ∙ e in
            rw (e, change_client)
              (
                IsNew-change_client key source f clients other new,
                IsMap-change_client source f clients h,
              )
      ]

  IsNew-keep :
      (p : Address × Client Key → Bool) (address : Address) (clients : ClientMap Key)
      → IsNew address clients
      → IsNew address (keep p clients)
  IsNew-keep p address [] h = tt
  IsNew-keep p address ((key, client) ∷ clients) (hk, h) = elim (Bool-cases (p (key, client))) [
    | inl e ↦ rw e (hk, IsNew-keep p address clients h)
    | inr e ↦ rw e (IsNew-keep p address clients h)
  ]

  IsMap-keep :
      (p : Address × Client Key → Bool) (clients : ClientMap Key)
      → IsMap clients
      → IsMap (keep p clients)
  IsMap-keep p [] h = tt
  IsMap-keep p ((key, client) ∷ clients) (new, h) = elim (Bool-cases (p (key, client))) [
    | inl e ↦ rw e (IsNew-keep p key clients new, IsMap-keep p clients h)
    | inr e ↦ rw e (IsMap-keep p clients h)
  ]

module _ (t : Tomcrypt) where
  open t use {Key}

  step-IsMap : (w : World Key) (e : Event) → IsMap w.clients → IsMap (step t w e).clients
  unfolding step remove_stale
  step-IsMap w (packet env source bytes) h =
      receive-keeps t IsMap env source bytes
        (λ command payload found. record {
          looked_up = IsMap-change_client source (λ c. c);
          stored = λ player. IsMap-change_client source (store_state t env player);
          chosen = IsMap-change_client source (choose_nonce t env);
          checked = λ raw signature k clients r e.
              IsMap-change_client source (check_response t env k signature) clients;
        })
        w h
  step-IsMap w (frame env) h = rw (run_frame-clients t env w) (IsMap-keep _ w.clients h)

  -- In every state that the server reaches, no two entries of the map of clients have equal
  -- addresses.
  pub Reachable-IsMap :
      {events : List Event} {w : World Key} → Reachable t events w → IsMap w.clients
  Reachable-IsMap start = tt
  Reachable-IsMap (after {events} {w} r e) = step-IsMap w e (Reachable-IsMap r)

  module _ (other source : Address) (apart : address_eq source other ≡ false) where
    untouched :
        (f : Client Key → Client Key) (c : Client Key) (clients : ClientMap Key)
        → client_at other clients ≡ c
        → client_at other (change_client source f clients) ≡ c
    untouched f c clients h = client_at-change_client source other f clients ∙ rw apart h

    -- A packet, whatever is in it, leaves the client of every address that does not equal its source
    -- as it is: no packet changes the state, the key, the nonce or the time of another client.
    pub client_at-receive :
        (env : Environment) (bytes : List ℕ) (w : World Key)
        → client_at other (receive t env source bytes w).0.clients ≡ client_at other w.clients
    client_at-receive env bytes w =
        let c = client_at other w.clients in
        receive-keeps t (λ clients. client_at other clients ≡ c) env source bytes
          (λ command payload found. record {
            looked_up = untouched (λ x. x) c;
            stored = λ player. untouched (store_state t env player) c;
            chosen = untouched (choose_nonce t env) c;
            checked = λ raw signature k clients r e.
                untouched (check_response t env k signature) c clients;
          })
          w refl
