-- ===== src/Server/Messages.antt =====
-- The payloads that the handlers of src/server/server.cpp read, and what they make of them.
use w3m.Prelude.{
  ℕ, ◌^◌, ◌<◌, ◌≡◌, ◌≢◌, ap, ◌∙◌, List, ◌++◌, append_assoc, none, some, arith, ==_ne, length, All,
}
use w3m.Prelude.Outcome.{Outcome, returns, ◌>>=◌}
use w3m.Prelude.Words.{IsByte}
use w3m.ByteBuffer.{Deserializer, open_buffer}
use w3m.ByteBuffer.Objects.{u32}
use w3m.ByteBuffer.Refinement.{IsValid, remaining, open_buffer-IsValid, open_buffer-remaining}
use w3m.ByteBuffer.RoundTrip.{string_bytes, read_object-Reads, read_string-Reads}
use w3m.Game.{protocol, Player, player_layout, sizeof_player}
use w3m.Server.Handlers.{with_protocol, read_authentication, read_player}

-- A payload of a datagram: bytes, and fewer than any object may have.
pub record IsPayload (payload : List ℕ) : Type 0 where
  pub small : length payload < 2 ^ 63
  pub bytes : All IsByte payload

opened : (payload : List ℕ) → IsPayload payload → IsValid (open_buffer payload)
opened payload h = open_buffer-IsValid payload h.small h.bytes

-- A payload that starts with the protocol's number is handed to the reader without it.
pub with_protocol_lem :
    {A : Type 0} (rest : Deserializer → Outcome A) (tail : List ℕ) {payload : List ℕ}
    → IsPayload payload
    → payload ≡ u32.encode protocol ++ tail
    → (d : Deserializer) × (with_protocol rest payload ≡ (rest d >>= λ a. returns (some a)))
      × (remaining d ≡ tail)
      × IsValid d
unfolding with_protocol
with_protocol_lem rest tail {payload} h e =
    let (d, r, left, v) =
      read_object-Reads (open_buffer payload) (opened payload h) tail u32 protocol (omega arith)
        (omega arith) (open_buffer-remaining payload ∙ e) in
    (d, rw r, left, v)

-- A payload with another number is dropped, whatever follows.
pub with_protocol_ne :
    {A : Type 0} (rest : Deserializer → Outcome A) (version : ℕ) (tail payload : List ℕ)
    → IsPayload payload
    → version < 2 ^ 32
    → version ≢ protocol
    → payload ≡ u32.encode version ++ tail
    → with_protocol rest payload ≡ returns none
unfolding with_protocol
with_protocol_ne rest version tail payload h small ne e =
    let (d, r, left, v) =
      read_object-Reads (open_buffer payload) (opened payload h) tail u32 version (omega arith)
        small (open_buffer-remaining payload ∙ e) in
    rw (r, ==_ne version protocol ne)

unfoldable pub state_payload : Player → List ℕ
state_payload player = u32.encode protocol ++ player_layout.encode player

pub read_player-state_payload :
    (player : Player) (tail payload : List ℕ)
    → IsPayload payload
    → player_layout.IsObject player
    → payload ≡ state_payload player ++ tail
    → with_protocol read_player payload ≡ returns (some player)
unfolding state_payload read_player
read_player-state_payload player tail payload h object e =
    let (d, r, left, v) =
      with_protocol_lem read_player (player_layout.encode player ++ tail) h
        (e ∙ append_assoc (u32.encode protocol) (player_layout.encode player) tail) in
    let (d', r', left', v') =
      read_object-Reads d v tail player_layout player (rw sizeof_player (omega arith)) object
        left in
    r ∙ rw r'

unfoldable pub response_payload : List ℕ → List ℕ → List ℕ
response_payload key signature = u32.encode protocol ++ (string_bytes key ++ string_bytes signature)

pub read_authentication-response_payload :
    (key signature tail payload : List ℕ)
    → IsPayload payload
    → length key < 2 ^ 32
    → length signature < 2 ^ 32
    → payload ≡ response_payload key signature ++ tail
    → with_protocol read_authentication payload ≡ returns (some (key, signature))
unfolding response_payload read_authentication
read_authentication-response_payload key signature tail payload h hk hs e =
    let (d, r, left, v) =
      with_protocol_lem read_authentication (string_bytes key ++ (string_bytes signature ++ tail)) h
        (e
          ∙ append_assoc (u32.encode protocol) (string_bytes key ++ string_bytes signature) tail
          ∙ ap (◌++◌ (u32.encode protocol))
              (append_assoc (string_bytes key) (string_bytes signature) tail)) in
    let (d', r', left', v') = read_string-Reads d v (string_bytes signature ++ tail) key hk left in
    let (d'', r'', left'', v'') = read_string-Reads d' v' tail signature hs left' in
    r ∙ rw (r', r'')
