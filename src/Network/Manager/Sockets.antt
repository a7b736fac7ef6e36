-- ===== src/Network/Manager/Sockets.antt =====
-- The sockets that src/common/network/manager.cpp binds and sends on.
use w3m.Prelude.{
  ℕ, zero, suc, ◌+◌, ◌%◌, ◌^◌, ◌<◌, ◌≡◌, refl, ◌⊎◌, inl, inr, true, false, List, [], ◌∷◌, none,
  some, arith, ◌==◌, if◌then◌else◌, length, Bool-cases,
}
use mathlib.Core.Path.{subst}
use w3m.Prelude.Outcome.{Outcome, returns, throws, failed_to_bind}
use w3m.Network.Address.{Address, swap16, af_inet, af_inet6, is_ipv6, is_supported}
use w3m.Network.Address.Equality.{swap16-swap16}
use w3m.Network.Manager.{
  Datagram, SendTo, send, packet_of, Bind, try_bind_socket, bind_rounds, bind_socket,
}

-- A supported target gets one datagram with the packet, on the socket of its family, and the result
-- tells whether all of it was taken; nothing is sent to any other target, and the result is false.
pub send_lem :
    (sendto : SendTo) (target : Address) (command payload : List ℕ) (separator : ℕ)
    → let d : Datagram = record {
      v6 = is_ipv6 target;
      target = target;
      payload = packet_of command payload separator;
    } in
      send sendto target command payload separator ≡ (
        if is_supported target
        then record { sent = d ∷ []; result = sendto d == length d.payload % 2 ^ 32 }
        else record { sent = []; result = false })
unfolding send is_supported
send_lem sendto target command payload separator = ground arith

-- The property holds of every number below the bound.
pub AllBelow : ℕ → (ℕ → Type 0) → Type 0
AllBelow zero P = Unit {0}
AllBelow (suc n) P = AllBelow n P × P n

-- The wildcard address that a round of the binding loop tries.
pub candidate : ℕ → ℕ → Address
candidate family port = record {
  family = family;
  net_port = swap16 port;
  word = 0;
  head = 0;
  tail = 0;
  scope = 0;
}

try_bind_socket_lem :
    (bind : Bind) (family port : ℕ)
    → (family ≡ af_inet) ⊎ (family ≡ af_inet6)
    → port < 2 ^ 16
    → try_bind_socket bind family port
      ≡ returns (if bind (candidate family port) then some port else none)
unfolding try_bind_socket candidate
try_bind_socket_lem bind family port (inl h) small = rw (h, swap16-swap16 port small)
try_bind_socket_lem bind family port (inr h) small = rw (h, swap16-swap16 port small)

module _ (bind : Bind) (family port : ℕ) (known : (family ≡ af_inet) ⊎ (family ≡ af_inet6)) where
  abbrev pub tried : ℕ → ℕ
  tried i = (port + i) % 2 ^ 16

  abbrev pub Accepts : ℕ → Type 0
  Accepts i = bind (candidate family (tried i)) ≡ true

  abbrev pub Refuses : ℕ → Type 0
  Refuses i = bind (candidate family (tried i)) ≡ false

  abbrev pub FirstOrNone : Outcome ℕ → Type 0
  FirstOrNone r =
      ((i : ℕ) × (i < 100) × (r ≡ returns (tried i)) × Accepts i × AllBelow i Refuses)
      ⊎ ((r ≡ throws failed_to_bind) × AllBelow 100 Refuses)

  extend_refusals : (i : ℕ) → AllBelow i Refuses → Refuses i → AllBelow (i + 1) Refuses
  unfolding AllBelow
  extend_refusals i before refused =
      subst (λ k. AllBelow k Refuses) (let e : suc i ≡ i + 1 = omega arith in e) (before, refused)

  bind_rounds_lem :
      (n i : ℕ) → i + n ≡ 100 → AllBelow i Refuses → FirstOrNone (bind_rounds n i bind family port)
  unfolding bind_rounds
  bind_rounds_lem zero i e before =
      inr (refl, subst (λ k. AllBelow k Refuses) (let h : i ≡ 100 = omega arith in h) before)
  bind_rounds_lem (suc n) i e before = elim (Bool-cases (bind (candidate family (tried i)))) [
    | inl accepted ↦ inl (
      i,
      omega arith,
      rw (try_bind_socket_lem bind family (tried i) known (omega arith), accepted, bind_rounds),
      accepted,
      before,
    )
    | inr refused ↦
        rw (try_bind_socket_lem bind family (tried i) known (omega arith), refused, bind_rounds)
          (bind_rounds_lem n (i + 1) (omega arith) (extend_refusals i before refused))
  ]

  -- Binding a socket of one of the two families tries the hundred ports from the given one on, modulo
  -- 2^16: it returns the first that the system accepts, or throws if the system refuses them all.
  pub bind_socket_lem : FirstOrNone (bind_socket bind family port)
  unfolding bind_socket AllBelow
  bind_socket_lem = bind_rounds_lem 100 0 refl tt
