-- ===== src/Network/Address/Equality.antt =====
-- Ports, equality and hashing of addresses (src/common/network/address.cpp): what a hash map with
-- addresses as keys relies on.
use w3m.Prelude.{ℕ, ◌^◌, ◌<◌, ◌≡◌, refl, true, false, arith}
use w3m.Prelude.Outcome.{returns, throws, invalid_address_family}
use w3m.Network.Address.{
  Address, Hashes, swap16, set_port, get_port, is_supported, address_eq, hash,
}

-- A port has 16 bits, in network order too.
abbrev pub HasPort : Address → Type 0
HasPort a = a.net_port < 2 ^ 16

pub swap16-swap16 : (port : ℕ) → port < 2 ^ 16 → swap16 (swap16 port) ≡ port
unfolding swap16
swap16-swap16 port h = omega arith

pub swap16-lt : (port : ℕ) → swap16 port < 2 ^ 16
unfolding swap16
swap16-lt port = omega arith

-- The same host: every part of the address but the port.
pub record SameHost (a b : Address) : Type 0 where
  pub family : a.family ≡ b.family
  pub word : a.word ≡ b.word
  pub head : a.head ≡ b.head
  pub tail : a.tail ≡ b.tail
  pub scope : a.scope ≡ b.scope

-- A port that is set on a supported address is the port that is read, and the host stays; on any
-- other address `set_port` throws, and `get_port` is 0.
pub get_port-set_port :
    (a : Address) (port : ℕ)
    → port < 2 ^ 16
    → (is_supported a ≡ true
        → (b : Address) × (set_port a port ≡ returns b) × (get_port b ≡ port) × SameHost a b)
      × (is_supported a ≡ false
          → (set_port a port ≡ throws invalid_address_family) × (get_port a ≡ 0))
unfolding set_port get_port is_supported
get_port-set_port a port h = (
  λ s. (
    record a { net_port = swap16 port },
    ground arith,
    ground (arith, swap16-swap16 port h),
    record { family = refl; word = refl; head = refl; tail = refl; scope = refl },
  ),
  λ u. (ground arith, ground arith),
)

-- `operator==` holds between an address and itself exactly if the address is supported. So an
-- address of an unknown family is not equal to itself.
pub address_eq_refl : (a : Address) → address_eq a a ≡ is_supported a
unfolding address_eq is_supported
address_eq_refl a = ground arith

pub address_eq_symm : (a b : Address) → address_eq a b ≡ address_eq b a
unfolding address_eq
address_eq_symm a b = ground arith

pub address_eq_trans :
    (a b c : Address) → address_eq a b ≡ true → address_eq b c ≡ true → address_eq a c ≡ true
unfolding address_eq
address_eq_trans a b c p q = ground arith

pub address_eq_congr : (a b c : Address) → address_eq a b ≡ true → address_eq a c ≡ address_eq b c
unfolding address_eq
address_eq_congr a b c h = ground arith

-- Equal addresses have one hash, whatever the standard library's hashes are.
pub hash-address_eq : (h : Hashes) (a b : Address) → address_eq a b ≡ true → hash h a ≡ hash h b
unfolding address_eq hash
hash-address_eq h a b e = ground arith
