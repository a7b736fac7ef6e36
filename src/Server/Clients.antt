-- ===== src/Server/Clients.antt =====
-- src/server/client.hpp and the map of clients of src/server/server.hpp: an `unordered_map` with
-- addresses as keys, as the list of its entries in the order of iteration.
use w3m.Prelude.{
  ℕ, ◌≡◌, refl, ◌⊎◌, inl, inr, Bool, true, false, List, [], ◌∷◌, Option, none, arith, if◌then◌else◌,
  is_some, Bool-cases,
}
use w3m.Game.{PlayerState, default_state}
use w3m.Network.Address.{Address, address_eq}
use w3m.Network.Address.Equality.{address_eq_symm, address_eq_trans, address_eq_congr}

-- `Key` is the type of public keys.
pub record Client (Key : Type 0) : Type 0 where
  pub last_packet : ℕ
  pub guid : ℕ
  pub name : List ℕ
  pub current_state : PlayerState
  pub authentication_nonce : List ℕ
  pub public_key : Option Key
  pub state_id : ℕ
  pub has_printed_failure : Bool

module _ {Key : Type 0} where
  abbrev pub default_client : Client Key
  default_client = record {
    last_packet = 0;
    guid = 0;
    name = [];
    current_state = default_state;
    authentication_nonce = [];
    public_key = none;
    state_id = 0;
    has_printed_failure = false;
  }

  abbrev pub is_authenticated : Client Key → Bool
  is_authenticated c = is_some c.public_key

-- The entry with this address is the one that `clients[source]` refers to.
abbrev pub IsEntryOf : Address → Address → Type 0
IsEntryOf source key = (address_eq key source ≡ true) ⊎ (key ≡ source)

abbrev pub ClientMap : Type 0 → Type 0
ClientMap Key = List (Address × Client Key)

module _ {Key : Type 0} where
  -- The client that `clients[source]` refers to: the entry with an equal key, or a new one.
  unfoldable pub client_at : Address → ClientMap Key → Client Key
  client_at source [] = default_client
  client_at source ((key, client) ∷ clients) =
      if address_eq key source then client else client_at source clients

  -- `auto& client = clients[source]` and a change of `client` through the reference.
  unfoldable pub change_client : Address → (Client Key → Client Key) → ClientMap Key → ClientMap Key
  change_client source f [] = (source, f default_client) ∷ []
  change_client source f ((key, client) ∷ clients) =
      let rest = change_client source f clients in
      if address_eq key source then (key, f client) ∷ clients else (key, client) ∷ rest

  unfoldable pub contains_client : Address → ClientMap Key → Bool
  contains_client source [] = false
  contains_client source ((key, client) ∷ clients) =
      if address_eq key source then true else contains_client source clients

  -- What a change does to each client of the map.
  pub client_at-change_client :
      (source other : Address) (f : Client Key → Client Key) (clients : ClientMap Key)
      → client_at other (change_client source f clients) ≡ (
          if address_eq source other then f (client_at source clients) else client_at other clients)
  unfolding client_at change_client
  client_at-change_client source other f [] = elim (Bool-cases (address_eq source other)) [
    | inl e ↦ rw e
    | inr e ↦ rw e
  ]
  client_at-change_client source other f ((key, client) ∷ clients) =
      elim (Bool-cases (address_eq key source)) [
        | inl e ↦ rw (e, change_client) (ground (arith, address_eq_congr key source other e))
        | inr e ↦
            rw (e, change_client)
              (ground (
                arith,
                address_eq_symm source other,
                address_eq_trans key other source,
                client_at-change_client source other f clients,
              ))
      ]

  -- A predicate holds of every entry of the map, its address and its client.
  abbrev pub AllClients {κ} : (Address → Client Key → Type κ) → ClientMap Key → Type κ
  AllClients P [] = Unit {κ}
  AllClients P ((key, client) ∷ clients) = P key client × AllClients P clients

  pub change_client-AllClients {κ} :
      (P : Address → Client Key → Type κ) (source : Address) (f : Client Key → Client Key)
      (clients : ClientMap Key)
      → P source default_client
      → ((key : Address) (c : Client Key) → IsEntryOf source key → P key c → P key (f c))
      → AllClients P clients
      → AllClients P (change_client source f clients)
  unfolding change_client
  change_client-AllClients P source f [] d step h = (step source default_client (inr refl) d, tt)
  change_client-AllClients P source f ((key, client) ∷ clients) d step (hc, h) =
      elim (Bool-cases (address_eq key source)) [
        | inl e ↦ rw (e, change_client) (step key client (inl e) hc, h)
        | inr e ↦ rw (e, change_client) (hc, change_client-AllClients P source f clients d step h)
      ]
