-- ===== src/Network/Manager.antt =====
-- src/common/network/manager.hpp and manager.cpp, and the sending half of socket.cpp: binding,
-- sending, and the dispatch of received packets to callbacks. A callback works on a state `S` (of
-- the server or the client) and may throw after it has changed it. The sockets of the system are
-- parameters: whether `bind` succeeds, and how many bytes `sendto` takes.
pub mod Packets
pub mod Dispatch
pub mod Sockets
pub mod Tests
use w3m.Prelude.{
  ℕ, zero, suc, ◌+◌, ◌-◌, ◌*◌, ◌%◌, ◌^◌, Bool, true, false, not, ◌&&◌, ◌||◌, List, [], ◌∷◌, ◌++◌,
  Option, none, some, ltb, ◌==◌, if◌then◌else◌, length, take, drop, is_empty, bytes_eq,
}
use w3m.Prelude.Outcome.{Outcome, returns, throws, terminates, undefined, ◌>>=◌, failed_to_bind}
use w3m.Text.{to_lower}
use w3m.Network.Address.{
  Address, af_inet, af_inet6, unspecified, set_ipv4, set_ipv6, set_port, get_port, is_ipv4, is_ipv6,
}

-- `Callback S`: the source, the data, and the state before; the state after and how the call ended.
abbrev pub Callback : Type 0 → Type 0
Callback S = Address → List ℕ → S → S × Outcome (Unit {0})

abbrev pub CallbackMap : Type 0 → Type 0
CallbackMap S = List (List ℕ × Callback S)

module _ {S : Type 0} where
  unfoldable pub find_callback : List ℕ → CallbackMap S → Option (Callback S)
  find_callback command [] = none
  find_callback command ((key, callback) ∷ callbacks) =
      if bytes_eq key command then some callback else find_callback command callbacks

  -- `callbacks[key] = callback`
  pub assign : List ℕ → Callback S → CallbackMap S → CallbackMap S
  assign command callback [] = (command, callback) ∷ []
  assign command callback ((key, old) ∷ callbacks) =
      if bytes_eq key command
      then (key, callback) ∷ callbacks
      else (key, old) ∷ assign command callback callbacks

  unfoldable pub on : List ℕ → Callback S → CallbackMap S → CallbackMap S
  unfolding assign
  on command callback callbacks = assign (to_lower command) callback callbacks

  -- `catch (const std::exception& e)`: the error is printed, and the state stays as the callback
  -- left it.
  abbrev pub contain : S × Outcome (Unit {0}) → S × Outcome (Unit {0})
  contain (s, returns u) = (s, returns u)
  contain (s, throws e) = (s, returns tt)
  contain (s, terminates) = (s, terminates)
  contain (s, undefined) = (s, undefined)

  abbrev pub call : Option (Callback S) → Address → List ℕ → S → S × Outcome (Unit {0})
  call none source payload s = (s, returns tt)
  call (some callback) source payload s = contain (callback source payload s)

  unfoldable pub dispatch_command :
      CallbackMap S → Address → List ℕ → List ℕ → S → S × Outcome (Unit {0})
  dispatch_command callbacks source command payload s =
      call (find_callback (to_lower command) callbacks) source payload s

-- `find_first_of(" \n")`
abbrev pub is_divider : ℕ → Bool
is_divider c = c == b' ' || c == 10

unfoldable pub find_divider : List ℕ → Option ℕ
find_divider [] = none
find_divider (c ∷ text) =
    if is_divider c
    then some 0
    else elim (find_divider text) [ none ↦ none | some n ↦ some (suc n) ]

abbrev pub magic : List ℕ
magic = 0xFF ∷ 0xFF ∷ 0xFF ∷ 0xFF ∷ []

-- The command and the data behind the divider at `pos`.
cut_command : List ℕ → ℕ → Option (List ℕ × List ℕ)
cut_command buffer pos =
    if is_empty (take pos buffer) then none else some (take pos buffer, drop (pos + 1) buffer)

-- The guards of `handle_data`; `none` is a packet that is dropped.
unfoldable pub read_packet : List ℕ → Option (List ℕ × List ℕ)
unfolding cut_command
read_packet packet =
    if ltb (length packet) 5 || not (bytes_eq (take 4 packet) magic)
    then none
    else elim (find_divider (drop 4 packet)) [
      | none ↦ none
      | some pos ↦ cut_command (drop 4 packet) pos
    ]

unfoldable pub handle_data :
    {S : Type 0} → CallbackMap S → Address → List ℕ → S → S × Outcome (Unit {0})
handle_data callbacks source packet s = elim (read_packet packet) [
  | none ↦ (s, returns tt)
  | some (command, payload) ↦ dispatch_command callbacks source command payload s
]

-- A datagram on one of the two sockets, as it is handed to `sendto`.
pub record Datagram : Type 0 where
  pub v6 : Bool
  pub target : Address
  pub payload : List ℕ

-- The datagrams that a call sends, and the call's result. `sendto` says how many bytes are taken.
pub record Sending : Type 0 where
  pub sent : List Datagram
  pub result : Bool

abbrev pub SendTo : Type 0
SendTo = Datagram → ℕ

-- `socket::send`
socket_send : SendTo → Datagram → Sending
socket_send sendto d = record { sent = d ∷ []; result = sendto d == length d.payload % 2 ^ 32 }

unfoldable pub send_data : SendTo → Address → List ℕ → Sending
unfolding socket_send is_ipv4 is_ipv6
send_data sendto address payload =
    if is_ipv4 address
    then socket_send sendto (record { v6 = false; target = address; payload = payload })
    else if is_ipv6 address
    then socket_send sendto (record { v6 = true; target = address; payload = payload })
    else record { sent = []; result = false }

unfoldable pub packet_of : List ℕ → List ℕ → ℕ → List ℕ
packet_of command payload separator = magic ++ (command ++ (separator ∷ payload))

unfoldable pub send : SendTo → Address → List ℕ → List ℕ → ℕ → Sending
unfolding send_data packet_of
send sendto address command payload separator =
    send_data sendto address (packet_of command payload separator)

-- `bind` of the system on an address.
abbrev pub Bind : Type 0
Bind = Address → Bool

-- `try_bind_socket`; the result is the socket's port where `bind` succeeds.
bind_address : ℕ → Address
unfolding set_ipv4 set_ipv6
bind_address family =
    if family == af_inet
    then set_ipv4 unspecified 0
    else if family == af_inet6
    then set_ipv6 unspecified 0 0
    else unspecified

try_bind_socket : Bind → ℕ → ℕ → Outcome (Option ℕ)
unfolding bind_address set_port get_port
try_bind_socket bind family port = set_port (bind_address family) port >>= λ a.
    returns (if bind a then some (get_port a) else none)

-- The rounds of `for (uint16_t i = 0; i < 100; ++i)` that are left, from round `i` on; the sum
-- `port + i` is converted to `uint16_t`.
bind_rounds : ℕ → ℕ → Bind → ℕ → ℕ → Outcome ℕ
bind_rounds zero i bind family port = throws failed_to_bind
bind_rounds (suc n) i bind family port =
    let next = bind_rounds n (i + 1) bind family port in
    try_bind_socket bind family ((port + i) % 2 ^ 16) >>= λ bound. elim bound [
      | none ↦ next
      | some p ↦ returns p
    ]

pub bind_socket : Bind → ℕ → ℕ → Outcome ℕ
unfolding bind_rounds try_bind_socket
bind_socket bind family port = bind_rounds 100 0 bind family port

-- One round of `packet_receiver`: what `recvfrom` gave on each socket, if anything, is handled; the
-- second only where the first did not end the thread.
receive_socket_data :
    {S : Type 0} → CallbackMap S → Option (Address × List ℕ) → S → S × Outcome (Unit {0})
receive_socket_data callbacks none s = (s, returns tt)
receive_socket_data callbacks (some (source, packet)) s = handle_data callbacks source packet s

pub packet_receiver_round :
    {S : Type 0}
    → CallbackMap S
    → Option (Address × List ℕ)
    → Option (Address × List ℕ)
    → S
    → S × Outcome (Unit {0})
unfolding receive_socket_data
packet_receiver_round callbacks v4 v6 s =
    let (s', outcome) = receive_socket_data callbacks v4 s in
    let second = receive_socket_data callbacks v6 s' in
    elim outcome [ returns u ↦ second | other ↦ (s', other) ]
