-- ===== src/Server/Authentication.antt =====
-- Which clients of src/server/server.cpp are authenticated, in every state that the server reaches.
use w3m.Prelude.{
  ℕ, ◌≡◌, refl, inl, inr, Bool, true, false, not, ◌&&◌, List, [], ◌∷◌, Option, none, some, arith,
  ◌==◌, if◌then◌else◌, is_empty, Bool-cases, In,
}
use w3m.Prelude.Outcome.{returns}
use w3m.Game.{Player}
use w3m.Cryptography.{Tomcrypt, deserialize, get_hash, verify_message}
use w3m.Network.Address.{Address}
use w3m.Network.Manager.{read_packet}
use w3m.Server.Clients.{Client, ClientMap, AllClients, IsEntryOf}
use w3m.Server.Handlers.{
  with_protocol, read_authentication, Environment, World, check_response, store_state, choose_nonce,
  run_frame, receive,
}
use w3m.Server.Guards.{receive-AllClients, run_frame-AllClients}

-- What happens to the server: a packet, or the start of a frame.
pub data Event : Type 0 where
  packet : Environment → Address → List ℕ → Event
  frame : Environment → Event

module _ (t : Tomcrypt) where
  open t use {Key}

  -- Among the events is a packet from this address that is read as a response with the key and the
  -- signature.
  pub record Presented (events : List Event) (address : Address) (k : Key) (signature : List ℕ)
      : Type 0 where
    pub env : Environment
    pub source : Address
    pub bytes : List ℕ
    pub command : List ℕ
    pub payload : List ℕ
    pub key : List ℕ
    pub is_from : IsEntryOf source address
    pub happened : In (packet env source bytes) events
    pub is_packet : read_packet bytes ≡ some (command, payload)
    pub is_response : with_protocol read_authentication payload ≡ returns (some (key, signature))
    pub is_key : deserialize t key ≡ some k

  -- A key belongs to a nonce that is not empty, and was presented with a valid signature of it.
  abbrev pub Proven : List Event → Address → List ℕ → Option Key → Type 0
  Proven events address nonce none = Unit {0}
  Proven events address nonce (some k) =
      (is_empty nonce ≡ false)
      × (signature : List ℕ) × Presented events address k signature
      × (verify_message t k nonce signature ≡ true)

  abbrev pub IsProven : List Event → Address → Client Key → Type 0
  IsProven events address client =
      Proven events address client.authentication_nonce client.public_key

  Presented-later :
      (e : Event) (events : List Event) (address : Address) (k : Key) (signature : List ℕ)
      → Presented events address k signature
      → Presented (e ∷ events) address k signature
  Presented-later e events address k signature p = record {
    env = p.env;
    source = p.source;
    bytes = p.bytes;
    command = p.command;
    payload = p.payload;
    key = p.key;
    is_from = p.is_from;
    happened = inr p.happened;
    is_packet = p.is_packet;
    is_response = p.is_response;
    is_key = p.is_key;
  }

  Proven-later :
      (e : Event) (events : List Event) (address : Address) (nonce : List ℕ) (k : Option Key)
      → Proven events address nonce k
      → Proven (e ∷ events) address nonce k
  Proven-later e events address nonce none h = h
  Proven-later e events address nonce (some k) (n, signature, p, v) =
      (n, signature, Presented-later e events address k signature p, v)

  AllClients-later :
      (e : Event) (events : List Event) (clients : ClientMap Key)
      → AllClients (IsProven events) clients
      → AllClients (IsProven (e ∷ events)) clients
  AllClients-later e events [] h = tt
  AllClients-later e events ((key, client) ∷ clients) (hc, h) = (
    Proven-later e events key client.authentication_nonce client.public_key hc,
    AllClients-later e events clients h,
  )

  -- What a response must meet: a nonce was sent, the key's hash is the client's guid, and the
  -- signature is one of the nonce under the key.
  abbrev pub accepts : Key → List ℕ → Client Key → Bool
  accepts key signature c =
      not (is_empty c.authentication_nonce)
      && (get_hash t key == c.guid && verify_message t key c.authentication_nonce signature)

  -- A response changes the client in one of two ways: if it meets all three conditions, the key is
  -- stored and the time of the packet; otherwise only the failure is noted.
  pub check_response_lem :
      (env : Environment) (key : Key) (signature : List ℕ) (c : Client Key)
      → check_response t env key signature c ≡ (
          if accepts key signature c
          then record c { public_key = some key; last_packet = env.now }
          else record c { has_printed_failure = true })
  unfolding check_response
  check_response_lem env key signature c = ground arith

  check_response-IsProven :
      (env : Environment) (events : List Event) (address : Address) (key : Key) (signature : List ℕ)
      (c : Client Key)
      → Presented events address key signature
      → IsProven events address c
      → IsProven events address (check_response t env key signature c)
  check_response-IsProven env events address key signature c p h =
      elim (Bool-cases (accepts key signature c)) [
        | inl e ↦
            rw (check_response_lem env key signature c, e)
              (ground arith, signature, p, ground arith)
        | inr e ↦ rw (check_response_lem env key signature c, e) h
      ]

  store_state-IsProven :
      (env : Environment) (events : List Event) (player : Player) (address : Address)
      (c : Client Key)
      → IsProven events address c
      → IsProven events address (store_state t env player c)
  unfolding store_state
  store_state-IsProven env events player address c h = h

  -- A nonce is chosen only where there is none, and then there is no key.
  no_key :
      (events : List Event) (address : Address) (nonce : List ℕ) (k : Option Key)
      → is_empty nonce ≡ true
      → Proven events address nonce k
      → k ≡ none
  no_key events address nonce none e h = refl
  no_key events address nonce (some k) e h = cc (h.0)

  choose_nonce-IsProven :
      (env : Environment) (events : List Event) (address : Address) (c : Client Key)
      → IsProven events address c
      → IsProven events address (choose_nonce t env c)
  unfolding choose_nonce
  choose_nonce-IsProven env events address c h =
      elim (Bool-cases (is_empty c.authentication_nonce)) [
        | inl e ↦ rw e (rw (no_key events address c.authentication_nonce c.public_key e h) tt)
        | inr e ↦ rw e h
      ]

  unfoldable pub step : World Key → Event → World Key
  step w (packet env source bytes) = (receive t env source bytes w).0
  step w (frame env) = run_frame t env w

  -- The events so far, the newest first, and the world that they lead to.
  pub data Reachable : List Event → World Key → Type 0 where
    start : Reachable [] (record { clients = []; sent = [] })
    after :
        {events : List Event} {w : World Key}
        → Reachable events w
        → (e : Event) → Reachable (e ∷ events) (step w e)

  step-IsProven :
      (events : List Event) (w : World Key) (e : Event)
      → AllClients (IsProven events) w.clients
      → AllClients (IsProven (e ∷ events)) (step w e).clients
  unfolding step
  step-IsProven events w (packet env source bytes) h =
      let later = packet env source bytes ∷ events in
      receive-AllClients t (IsProven later) env source bytes
        (record {
          default = tt;
          stored = λ player address c i. store_state-IsProven env later player address c;
          chosen = λ address c i. choose_nonce-IsProven env later address c;
          checked = λ command payload key signature k found r i address c from.
              check_response-IsProven env later address k signature c (record {
                env = env;
                source = source;
                bytes = bytes;
                command = command;
                payload = payload;
                key = key;
                is_from = from;
                happened = inl refl;
                is_packet = found;
                is_response = r;
                is_key = i;
              });
        })
        w (AllClients-later (packet env source bytes) events w.clients h)
  step-IsProven events w (frame env) h =
      run_frame-AllClients t (IsProven (frame env ∷ events)) env w
        (AllClients-later (frame env) events w.clients h)

  -- In every state that the server reaches, whatever packets arrive and in whatever order, each
  -- client that counts as authenticated has a nonce that is not empty, and its key was presented by a
  -- packet that arrived before from the client's own address, together with a signature of that nonce
  -- that is valid under the key.
  pub Reachable-IsProven :
      {events : List Event} {w : World Key}
      → Reachable events w
      → AllClients (IsProven events) w.clients
  Reachable-IsProven start = tt
  Reachable-IsProven (after {events} {w} r e) = step-IsProven events w e (Reachable-IsProven r)
