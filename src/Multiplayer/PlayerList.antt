-- ===== src/Multiplayer/PlayerList.antt =====
-- The list of players of src/client/module/scripting_experiments.cpp: what the master server's packets
-- make of it, and which states the script is given.
use w3m.Prelude.{
  ℕ, ◌^◌, ◌<◌, ◌≡◌, refl, sym, ap, ◌∙◌, true, false, List, [], ◌∷◌, ◌++◌, map, append-nil, arith,
  Bool, not, ◌&&◌, ◌||◌, inl, inr, keep, replicate, Bool-cases, ◌==◌, ==_refl, ltb, if◌then◌else◌,
  length, All,
}
use w3m.Prelude.Outcome.{returns}
use w3m.ByteBuffer.{write, write_object, empty_buffer}
use w3m.ByteBuffer.Objects.{u32}
use w3m.ByteBuffer.RoundTrip.{vector_bytes, read_vector-Reads, write_vector-buffer}
use w3m.Game.{protocol, Player, player_layout, sizeof_player}
use w3m.Cryptography.{Tomcrypt}
use w3m.Network.Address.{Address, address_eq, is_supported}
use w3m.Network.Address.Equality.{address_eq_refl}
use w3m.Text.{copy}
use w3m.Server.Clients.{Client, ClientMap, is_authenticated}
use w3m.Server.Handlers.{player_of, authenticated_clients, states, states_payload}
use w3m.Server.Messages.{IsPayload, with_protocol_lem}
use w3m.Multiplayer.{
  Floats, W3mPlayer, Players, convert_player, last_state, store_last_state, states_loop,
  get_player_states, read_players, has_guid, update_players, receive_player_states,
}

last_state-store_last_state :
    (guid other state_id : ℕ) (ids : List (ℕ × ℕ))
    → last_state other (store_last_state guid state_id ids)
      ≡ (if guid == other then state_id else last_state other ids)
unfolding last_state store_last_state
last_state-store_last_state guid other state_id [] = refl
last_state-store_last_state guid other state_id ((key, old) ∷ ids) =
    ground (arith, last_state-store_last_state guid other state_id ids)

-- No two players have one guid.
abbrev pub Distinct : List Player → Type 0
Distinct [] = Unit {0}
Distinct (info ∷ infos) = (has_guid info.guid infos ≡ false) × Distinct infos

-- What the script gets if the state of each player is attached that is newer than the last one.
abbrev pub newer : Floats → List (ℕ × ℕ) → List Player → List W3mPlayer
newer f ids infos =
    map
      (λ (info : Player).
        convert_player f info (ltb (last_state info.guid ids) info.state.state_id))
      infos

newer-store_last_state :
    (f : Floats) (guid state_id : ℕ) (ids : List (ℕ × ℕ)) (infos : List Player)
    → has_guid guid infos ≡ false
    → newer f (store_last_state guid state_id ids) infos ≡ newer f ids infos
unfolding has_guid
newer-store_last_state f guid state_id ids [] h = refl
newer-store_last_state f guid state_id ids (info ∷ infos) h =
    let ne : (guid == info.guid) ≡ false = ground arith in
    let rest = newer-store_last_state f guid state_id ids infos (ground arith) in
    let same : last_state info.guid (store_last_state guid state_id ids)
        ≡ last_state info.guid ids =
      last_state-store_last_state guid info.guid state_id ids ∙ rw ne in
    λ i. convert_player f info (ltb (same i) info.state.state_id) ∷ rest i

states_loop-newer :
    (f : Floats) (infos : List Player) (ids : List (ℕ × ℕ))
    → Distinct infos
    → (states_loop f infos ids).0 ≡ newer f ids infos
unfolding states_loop
states_loop-newer f [] ids h = refl
states_loop-newer f (info ∷ infos) ids (fresh, h) =
    ap (◌∷◌ (convert_player f info (ltb (last_state info.guid ids) info.state.state_id))) (
      states_loop-newer f infos (store_last_state info.guid info.state.state_id ids) h
      ∙ newer-store_last_state f info.guid info.state.state_id ids infos fresh)

states_loop-other :
    (f : Floats) (guid : ℕ) (infos : List Player) (ids : List (ℕ × ℕ))
    → has_guid guid infos ≡ false
    → last_state guid (states_loop f infos ids).1 ≡ last_state guid ids
unfolding states_loop has_guid
states_loop-other f guid [] ids h = refl
states_loop-other f guid (info ∷ infos) ids h =
    let ne : (info.guid == guid) ≡ false = ground arith in
    states_loop-other f guid infos (store_last_state info.guid info.state.state_id ids)
      (ground arith)
    ∙ last_state-store_last_state info.guid guid info.state.state_id ids
    ∙ rw ne

-- After the loop the last state of each player is its current one.
states_loop-last :
    (f : Floats) (infos : List Player) (ids : List (ℕ × ℕ))
    → Distinct infos
    → All
        (λ (info : Player). last_state info.guid (states_loop f infos ids).1 ≡ info.state.state_id)
        infos
unfolding states_loop
states_loop-last f [] ids h = tt
states_loop-last f (info ∷ infos) ids (fresh, h) =
    let ids' = store_last_state info.guid info.state.state_id ids in
    (
      states_loop-other f info.guid infos ids' fresh
          ∙ last_state-store_last_state info.guid info.guid info.state.state_id ids
          ∙ rw (==_refl info.guid),
      states_loop-last f infos ids' h,
    )

newer-none :
    (f : Floats) (ids : List (ℕ × ℕ)) (infos : List Player)
    → All (λ (info : Player). last_state info.guid ids ≡ info.state.state_id) infos
    → newer f ids infos ≡ map (λ (info : Player). convert_player f info false) infos
newer-none f ids [] h = refl
newer-none f ids (info ∷ infos) (e, h) =
    let old : ltb (last_state info.guid ids) info.state.state_id ≡ false = ground arith in
    λ i. convert_player f info (old i) ∷ newer-none f ids infos h i

-- For players with different guids the script gets each player in order, with the state attached
-- exactly if its identifier is larger than that of the last state of that guid; and a second call
-- with no packet in between attaches no state.
pub get_player_states_lem :
    (f : Floats) (players : Players)
    → Distinct players.infos
    → ((get_player_states f players).0 ≡ newer f players.state_ids players.infos)
      × ((get_player_states f (get_player_states f players).1).0
          ≡ map (λ (info : Player). convert_player f info false) players.infos)
unfolding get_player_states
get_player_states_lem f players h = (
  states_loop-newer f players.infos players.state_ids h,
  states_loop-newer f players.infos (states_loop f players.infos players.state_ids).1 h
      ∙ newer-none f (states_loop f players.infos players.state_ids).1 players.infos
          (states_loop-last f players.infos players.state_ids h),
)

module _ (t : Tomcrypt) where
  open t use {Key}

  states_payload-bytes :
      (clients : ClientMap Key)
      → length (states t clients) < 2 ^ 32
      → states_payload t clients
        ≡ u32.encode protocol ++ vector_bytes player_layout (states t clients)
  unfolding states_payload write_object write empty_buffer
  states_payload-bytes clients h = write_vector-buffer player_layout _ (states t clients) h

  -- A client of whom the others are told: one that is authenticated, and not the player itself.
  abbrev pub is_other : ℕ → Client Key → Bool
  is_other own_guid client = is_authenticated client && not (client.guid == own_guid)

  -- What is told of a client.
  abbrev pub told : Address × Client Key → Player
  told (address, client) = record {
    guid = client.guid;
    name = copy (replicate 64 0) client.name;
    state = record client.current_state { state_id = client.state_id };
  }

  -- Another player has the guid.
  unfoldable pub is_other_guid : ℕ → ℕ → ClientMap Key → Bool
  is_other_guid own_guid guid [] = false
  is_other_guid own_guid guid ((address, client) ∷ clients) =
      (is_other own_guid client && client.guid == guid) || is_other_guid own_guid guid clients

  others-told :
      (own_guid : ℕ) (clients : ClientMap Key)
      → keep (λ (player : Player). not (player.guid == own_guid)) (states t clients)
        ≡ map told (keep (λ entry. is_other own_guid entry.1) clients)
  unfolding states authenticated_clients player_of
  others-told own_guid [] = refl
  others-told own_guid ((address, client) ∷ clients) = elim (Bool-cases (is_authenticated client)) [
    | inl e ↦ elim (Bool-cases (client.guid == own_guid)) [
      | inl same ↦ rw (e, same) (others-told own_guid clients)
      | inr other ↦ rw (e, other) (ap (◌∷◌ (told (address, client))) (others-told own_guid clients))
    ]
    | inr e ↦ rw e (others-told own_guid clients)
  ]

  has_guid-told :
      (own_guid guid : ℕ) (clients : ClientMap Key)
      → has_guid guid (map told (keep (λ entry. is_other own_guid entry.1) clients))
        ≡ is_other_guid own_guid guid clients
  unfolding has_guid is_other_guid
  has_guid-told own_guid guid [] = refl
  has_guid-told own_guid guid ((address, client) ∷ clients) =
      elim (Bool-cases (is_other own_guid client)) [
        | inl e ↦ elim (Bool-cases (client.guid == guid)) [
          | inl same ↦ rw (e, same) refl
          | inr other ↦ rw (e, other) (has_guid-told own_guid guid clients)
        ]
        | inr e ↦ rw e (has_guid-told own_guid guid clients)
      ]

  keep_ext :
      {A : Type 0} (p q : A → Bool) (xs : List A) → ((x : A) → p x ≡ q x) → keep p xs ≡ keep q xs
  keep_ext p q [] h = refl
  keep_ext p q (x ∷ xs) h = rw (h x, keep_ext p q xs h)

  update_players-states :
      (own_guid : ℕ) (clients : ClientMap Key) (players : Players)
      → update_players own_guid (states t clients) players ≡ record {
        infos = map told (keep (λ entry. is_other own_guid entry.1) clients);
        state_ids = keep (λ entry. is_other_guid own_guid entry.0 clients) players.state_ids;
      }
  unfolding update_players
  update_players-states own_guid clients players = rw (
    others-told own_guid clients,
    keep_ext
        (λ (entry : ℕ × ℕ). has_guid entry.0 (map told (keep (λ e. is_other own_guid e.1) clients)))
        (λ entry. is_other_guid own_guid entry.0 clients) players.state_ids
        (λ entry. has_guid-told own_guid entry.0 clients),
  )

  -- A packet with the states of less than 2^32 clients, of the layout's shape, that comes from the master
  -- server's address, which is supported, is read by a player without an error: the player's list
  -- becomes the guid, the name, cut to its field, and the state, with the server's count of states, of
  -- each client that is authenticated and does not have the player's own guid, in the server's order,
  -- and of the last states those stay whose guid such a client has.
  pub receive_player_states-states_payload :
      (master : Address) (own_guid : ℕ) (clients : ClientMap Key) (players : Players)
      → is_supported master ≡ true
      → IsPayload (states_payload t clients)
      → length (states t clients) < 2 ^ 32
      → All player_layout.IsObject (states t clients)
      → receive_player_states master own_guid master (states_payload t clients) players ≡ (
        record {
          infos = map told (keep (λ entry. is_other own_guid entry.1) clients);
          state_ids = keep (λ entry. is_other_guid own_guid entry.0 clients) players.state_ids;
        },
        returns tt,
      )
  unfolding receive_player_states read_players
  receive_player_states-states_payload master own_guid clients players s h n objects =
      let self : address_eq master master ≡ true = address_eq_refl master ∙ s in
      let bytes = states_payload-bytes clients n in
      let (d, r, left, v) =
        with_protocol_lem read_players (vector_bytes player_layout (states t clients)) h bytes in
      let (d', r', left', v') =
        read_vector-Reads d v [] player_layout (states t clients) (rw sizeof_player (omega arith)) n
          objects (left ∙ sym (append-nil (vector_bytes player_layout (states t clients)))) in
      rw (self, r, r', update_players-states own_guid clients players)
