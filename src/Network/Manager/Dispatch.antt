-- ===== src/Network/Manager/Dispatch.antt =====
-- How src/common/network/manager.cpp hands packets to callbacks.
use w3m.Prelude.{
  ℕ, ◌≡◌, ◌≢◌, refl, sym, ap, ◌∙◌, inl, inr, true, false, List, [], ◌∷◌, Option, none, some,
  if◌then◌else◌, bytes_eq, bytes_eq_refl, bytes_eq→eq, Bool-cases, Option-cases,
}
use w3m.Prelude.Outcome.{Outcome, Exception, returns, throws, terminates, undefined}
use w3m.Text.{to_lower}
use w3m.Network.Address.{Address}
use w3m.Network.Manager.{
  Callback, CallbackMap, find_callback, assign, on, contain, call, dispatch_command, is_divider,
  read_packet, handle_data, packet_of,
}
use w3m.Network.Manager.Packets.{IsCommand, read_packet_iff}

pub bytes_eq-ne : (xs ys : List ℕ) → xs ≢ ys → bytes_eq xs ys ≡ false
bytes_eq-ne xs ys h = elim (Bool-cases (bytes_eq xs ys)) [
  | inl e ↦ absurd (h (bytes_eq→eq xs ys e))
  | inr e ↦ e
]

module _ {S : Type 0} (command : List ℕ) (callback : Callback S) where
  find_callback-assign_self :
      (callbacks : CallbackMap S)
      → find_callback command (assign command callback callbacks) ≡ some callback
  unfolding find_callback assign
  find_callback-assign_self [] = rw (bytes_eq_refl command)
  find_callback-assign_self ((key, old) ∷ callbacks) = elim (Bool-cases (bytes_eq key command)) [
    | inl e ↦ rw (e, assign) (rw (e, find_callback))
    | inr e ↦ rw (e, assign) (rw (e, find_callback) (find_callback-assign_self callbacks))
  ]

  find_callback-assign_ne :
      (other : List ℕ)
      → command ≢ other
      → (callbacks : CallbackMap S)
      → find_callback other (assign command callback callbacks) ≡ find_callback other callbacks
  unfolding find_callback assign
  find_callback-assign_ne other ne [] = rw (bytes_eq-ne command other ne)
  find_callback-assign_ne other ne ((key, old) ∷ callbacks) =
      elim (Bool-cases (bytes_eq key command)) [
        | inl e ↦
            let differs : bytes_eq key other ≡ false =
              bytes_eq-ne key other (λ p. ne (sym (bytes_eq→eq key command e) ∙ p)) in
            rw (e, assign) (rw (differs, find_callback))
        | inr e ↦
            rw (e, assign)
              (ap (λ o. if bytes_eq key other then some old else o)
                (find_callback-assign_ne other ne callbacks))
      ]

module _ {S : Type 0} (callbacks : CallbackMap S) (name : List ℕ) (callback : Callback S)
    (source : Address) (command payload : List ℕ) (separator : ℕ) (s : S)
    (well_formed : IsCommand command) (divides : is_divider separator ≡ true) where
  dispatched :
      (m : CallbackMap S)
      → handle_data m source (packet_of command payload separator) s
        ≡ call (find_callback (to_lower command) m) source payload s
  unfolding handle_data dispatch_command
  dispatched m =
      rw
        ((read_packet_iff _ command payload).1 (separator, refl, divides, well_formed), handle_data)

  -- A packet of a command (not empty, and with no divider in it), a divider and data, where the name of
  -- the command is registered, in whatever case, runs the callback that was
  -- registered last on the packet's data, and an exception out of it goes no further.
  pub handle_data-on :
      to_lower name ≡ to_lower command
      → handle_data (on name callback callbacks) source (packet_of command payload separator) s
        ≡ contain (callback source payload s)
  unfolding on
  handle_data-on e =
      dispatched (on name callback callbacks)
      ∙ rw (← e) (
          ap (λ o. call o source payload s)
            (find_callback-assign_self (to_lower name) callback callbacks))

  -- The registration of another command does not change what a packet does.
  pub handle_data-on_ne :
      to_lower name ≢ to_lower command
      → handle_data (on name callback callbacks) source (packet_of command payload separator) s
        ≡ handle_data callbacks source (packet_of command payload separator) s
  unfolding on
  handle_data-on_ne ne =
      dispatched (on name callback callbacks)
      ∙ ap (λ o. call o source payload s)
          (find_callback-assign_ne (to_lower name) callback (to_lower command) ne callbacks)
      ∙ sym (dispatched callbacks)

contain-ne-throws :
    {S : Type 0} (r : S × Outcome (Unit {0})) (e : Exception) → (contain r).1 ≢ throws e
contain-ne-throws (s, returns u) e h = cc
contain-ne-throws (s, throws x) e h = cc
contain-ne-throws (s, terminates) e h = cc
contain-ne-throws (s, undefined) e h = cc

call-ne-throws :
    {S : Type 0} (o : Option (Callback S)) (source : Address) (payload : List ℕ) (s : S)
    (e : Exception)
    → (call o source payload s).1 ≢ throws e
call-ne-throws none source payload s e h = cc
call-ne-throws (some callback) source payload s e h =
    contain-ne-throws (callback source payload s) e h

-- Whatever bytes arrive, and whatever the callbacks do, no exception leaves `handle_data`.
pub handle_data-ne-throws :
    {S : Type 0} (callbacks : CallbackMap S) (source : Address) (packet : List ℕ) (s : S)
    (e : Exception)
    → (handle_data callbacks source packet s).1 ≢ throws e
unfolding handle_data dispatch_command
handle_data-ne-throws callbacks source packet s e = elim (Option-cases (read_packet packet)) [
  | inl dropped ↦ rw (dropped, handle_data) (λ h. cc)
  | inr ((command, payload), found) ↦
      rw (found, handle_data)
        (call-ne-throws (find_callback (to_lower command) callbacks) source payload s e)
]

-- A property of the state that every registered callback keeps, for the source and the data of a
-- packet, is kept by `handle_data`.
abbrev pub Preserves {κ} : {S : Type 0} → (S → Type κ) → Address → List ℕ → Callback S → Type κ
Preserves {S} P source payload callback = (s : S) → P s → P (callback source payload s).0

module _ {κ} {S : Type 0} (P : S → Type κ) (source : Address) (payload : List ℕ) where
  abbrev pub AllPreserve : CallbackMap S → Type κ
  AllPreserve [] = Unit {κ}
  AllPreserve ((key, callback) ∷ callbacks) =
      Preserves P source payload callback × AllPreserve callbacks

  assign-AllPreserve :
      (command : List ℕ) (callback : Callback S) (callbacks : CallbackMap S)
      → Preserves P source payload callback
      → AllPreserve callbacks
      → AllPreserve (assign command callback callbacks)
  unfolding assign
  assign-AllPreserve command callback [] h hs = (h, tt)
  assign-AllPreserve command callback ((key, old) ∷ callbacks) h (ho, hs) =
      elim (Bool-cases (bytes_eq key command)) [
        | inl e ↦ rw (e, assign) (h, hs)
        | inr e ↦ rw (e, assign) (ho, assign-AllPreserve command callback callbacks h hs)
      ]

  pub on-AllPreserve :
      (command : List ℕ) (callback : Callback S) (callbacks : CallbackMap S)
      → Preserves P source payload callback
      → AllPreserve callbacks
      → AllPreserve (on command callback callbacks)
  unfolding on
  on-AllPreserve command callback callbacks h hs =
      assign-AllPreserve (to_lower command) callback callbacks h hs

  find_callback-call :
      (command : List ℕ) (callbacks : CallbackMap S)
      → AllPreserve callbacks
      → (s : S) → P s
      → P (call (find_callback command callbacks) source payload s).0
  unfolding find_callback
  find_callback-call command [] hs s h = h
  find_callback-call command ((key, callback) ∷ callbacks) (hc, hs) s h =
      elim (Bool-cases (bytes_eq key command)) [
        | inl e ↦ rw (e, find_callback) (contain-state (callback source payload s) (hc s h))
        | inr e ↦ rw (e, find_callback) (find_callback-call command callbacks hs s h)
      ]
    where
      contain-state : (r : S × Outcome (Unit {0})) → P r.0 → P (contain r).0
      contain-state (s, returns u) h = h
      contain-state (s, throws e) h = h
      contain-state (s, terminates) h = h
      contain-state (s, undefined) h = h

pub handle_data-Preserves {κ} :
    {S : Type 0} (P : S → Type κ) (callbacks : CallbackMap S) (source : Address) (packet : List ℕ)
    → ((command payload : List ℕ)
        → read_packet packet ≡ some (command, payload)
        → AllPreserve P source payload callbacks)
    → (s : S) → P s
    → P (handle_data callbacks source packet s).0
unfolding handle_data dispatch_command
handle_data-Preserves P callbacks source packet hs s h = elim (Option-cases (read_packet packet)) [
  | inl dropped ↦ rw (dropped, handle_data) h
  | inr ((command, payload), found) ↦
      rw (found, handle_data)
        (find_callback-call P source payload (to_lower command) callbacks (hs command payload found)
          s h)
]
