-- ===== src/Network/Address.antt =====
-- src/common/network/address.hpp and address.cpp. The system's name resolution (`getaddrinfo`), its
-- printing of addresses (`inet_ntop`) and the hashes of the standard library are parameters.
pub mod Equality
pub mod Local
pub mod Resolve
pub mod Text
pub mod Tests
use w3m.Prelude.{
  ℕ, ◌+◌, ◌*◌, ◌/◌, ◌%◌, ◌^◌, ◌-◌, Bool, true, false, not, ◌&&◌, ◌||◌, List, [], ◌∷◌, ◌++◌, Option,
  none, some, ltb, leb, ◌==◌, if◌then◌else◌, take, drop, bit_xor,
}
use w3m.Prelude.Outcome.{
  Outcome, returns, throws, terminates, undefined, ◌>>=◌, ◌>>◌, invalid_network_address,
  invalid_address_family, unable_to_resolve,
}
use w3m.Text.{up_to_zero}
use w3m.Text.Decimal.{decimal, Number, atoi, find_last_of}

-- The constants and sizes of the POSIX target.
abbrev pub af_unspec : ℕ
af_unspec = 0

abbrev pub af_inet : ℕ
af_inet = 2

abbrev pub af_inet6 : ℕ
af_inet6 = 10

abbrev sizeof_sockaddr : ℕ
sizeof_sockaddr = 16

abbrev sizeof_sockaddr_in : ℕ
sizeof_sockaddr_in = 16

abbrev sizeof_sockaddr_in6 : ℕ
sizeof_sockaddr_in6 = 28

-- The union of `sockaddr`, `sockaddr_in` and `sockaddr_in6` by its bytes: the family, the port in
-- network order, bytes 4 to 7 (`sin_addr`, or `sin6_flowinfo`), bytes 8 to 15 (`sin_zero`, or the
-- first half of `sin6_addr`), bytes 16 to 23 (its second half), and bytes 24 to 27 (the scope).
pub record Address : Type 0 where
  pub family : ℕ
  pub net_port : ℕ
  pub word : ℕ
  pub head : ℕ
  pub tail : ℕ
  pub scope : ℕ

abbrev pub unspecified : Address
unspecified = record { family = af_unspec; net_port = 0; word = 0; head = 0; tail = 0; scope = 0 }

-- `htons` and `ntohs` on a little-endian machine.
pub swap16 : ℕ → ℕ
swap16 port = port % 256 * 256 + port / 256 % 256

unfoldable pub set_ipv4 : Address → ℕ → Address
set_ipv4 a ip = record a { family = af_inet; net_port = 0; word = ip; head = 0 }

unfoldable pub set_ipv6 : Address → ℕ → ℕ → Address
set_ipv6 a head tail = record a {
  family = af_inet6;
  net_port = 0;
  word = 0;
  head = head;
  tail = tail;
  scope = 0;
}

-- `length` is an `int` that was converted to `size_t`.
pub set_address : Address → Address → ℕ → Outcome Address
set_address a addr length_ =
    if leb sizeof_sockaddr_in length_ && addr.family == af_inet
    then returns (record a {
      family = addr.family;
      net_port = addr.net_port;
      word = addr.word;
      head = addr.head;
    })
    else if length_ == sizeof_sockaddr_in6 && addr.family == af_inet6
    then returns addr
    else throws invalid_network_address

unfoldable pub set_port : Address → ℕ → Outcome Address
unfolding swap16
set_port a port =
    if a.family == af_inet
    then returns (record a { net_port = swap16 port })
    else if a.family == af_inet6
    then returns (record a { net_port = swap16 port })
    else throws invalid_address_family

unfoldable pub get_port : Address → ℕ
unfolding swap16
get_port a =
    if a.family == af_inet
    then swap16 a.net_port
    else if a.family == af_inet6
    then swap16 a.net_port
    else 0

unfoldable pub is_ipv4 : Address → Bool
is_ipv4 a = a.family == af_inet

unfoldable pub is_ipv6 : Address → Bool
is_ipv6 a = a.family == af_inet6

unfoldable pub is_supported : Address → Bool
unfolding is_ipv4 is_ipv6
is_supported a = is_ipv4 a || is_ipv6 a

unfoldable pub get_size : Address → ℕ
get_size a =
    if a.family == af_inet
    then sizeof_sockaddr_in
    else if a.family == af_inet6
    then sizeof_sockaddr_in6
    else sizeof_sockaddr

-- `operator==`
unfoldable pub address_eq : Address → Address → Bool
unfolding get_port
address_eq a obj =
    if not (a.family == obj.family)
    then false
    else if not (get_port a == get_port obj)
    then false
    else if a.family == af_inet
    then a.word == obj.word
    else if a.family == af_inet6
    then a.head == obj.head && a.tail == obj.tail
    else false

-- Byte `i` of `s_addr` in memory.
abbrev octet : ℕ → ℕ → ℕ
octet i word = word / 256 ^ i % 256

pub is_local : Address → Bool
is_local a =
    if not (a.family == af_inet)
    then false
    else if octet 0 a.word == 10
    then true
    else if octet 0 a.word == 192 && octet 1 a.word == 168
    then true
    else if octet 0 a.word == 172 && leb 16 (octet 1 a.word) && ltb (octet 1 a.word) 32
    then true
    else a.word == 0x0100007F

-- `std::hash` of a `uint32_t` and of the sixteen bytes of an IPv6 address.
pub record Hashes : Type 0 where
  pub hash_u32 : ℕ → ℕ
  pub hash_view : ℕ → ℕ → ℕ

pub hash : Hashes → Address → ℕ
unfolding get_port
hash h a =
    let start = bit_xor (h.hash_u32 a.family) (h.hash_u32 (get_port a)) in
    if a.family == af_inet
    then bit_xor start (h.hash_u32 a.word)
    else if a.family == af_inet6
    then bit_xor start (h.hash_view a.head a.tail)
    else start

-- `inet_ntop` for the two families.
pub record Printing : Type 0 where
  pub ntop4 : ℕ → List ℕ
  pub ntop6 : ℕ → ℕ → List ℕ

host_text : Printing → Address → List ℕ
host_text p a =
    if a.family == af_inet
    then p.ntop4 a.word
    else if a.family == af_inet6
    then b'[' ∷ (p.ntop6 a.head a.tail ++ b']' ∷ [])
    else b'?' ∷ []

-- `std::to_string` of a `uint16_t` has at most five digits.
pub to_string : Printing → Address → List ℕ
unfolding get_port host_text
to_string p a = host_text p a ++ (b':' ∷ decimal 4 (get_port a))

-- An entry of the list that `getaddrinfo` returns; the list is empty where it fails.
pub record AddrInfo : Type 0 where
  pub ai_family : ℕ
  pub ai_addr : Address
  pub ai_addrlen : ℕ

abbrev pub Resolver : Type 0
Resolver = List ℕ → List AddrInfo

collect_addresses : List AddrInfo → Outcome (List Address)
unfolding set_address
collect_addresses [] = returns []
collect_addresses (i ∷ rest) =
    let others = collect_addresses rest in
    let with_this =
      set_address unspecified i.ai_addr i.ai_addrlen
      >>= (λ a. others >>= λ results. returns (a ∷ results)) in
    if i.ai_family == af_inet || i.ai_family == af_inet6 then with_this else others

-- `hostname.data()` is read up to its first zero.
pub resolve_multiple : Resolver → List ℕ → Outcome (List Address)
unfolding collect_addresses
resolve_multiple getaddrinfo hostname = collect_addresses (getaddrinfo (up_to_zero hostname))

-- `!family || addr.get_addr().sa_family == *family`
abbrev family_allows : Option ℕ → Address → Bool
family_allows none addr = true
family_allows (some family) addr = addr.family == family

first_usable : Option ℕ → List Address → Option Address
unfolding is_supported
first_usable family [] = none
first_usable family (addr ∷ rest) =
    if is_supported addr && family_allows family addr then some addr else first_usable family rest

-- The action of `finally`: an exception out of a destructor ends the process.
reset_port : Address → ℕ → Outcome Address
unfolding set_port
reset_port a port = elim (set_port a port) [ returns a' ↦ returns a' | _ ↦ terminates ]

-- On the normal path the action restores the port; the loop that finds nothing cancels it; an
-- exception out of `resolve_multiple` or `set_address` runs it too.
use_address : Address → ℕ → Option Address → Outcome Address
unfolding set_address get_size reset_port
use_address a port none = throws unable_to_resolve
use_address a port (some addr) = elim (set_address a addr (get_size addr)) [
  | returns a' ↦ reset_port a' port
  | throws e ↦ reset_port a port >>= λ a'. throws e
  | terminates ↦ terminates
  | undefined ↦ undefined
]

pub resolve : Resolver → Address → List ℕ → Option ℕ → Outcome Address
unfolding use_address first_usable get_port resolve_multiple reset_port
resolve getaddrinfo a hostname family = elim (resolve_multiple getaddrinfo hostname) [
  | returns results ↦ use_address a (get_port a) (first_usable family results)
  | throws e ↦ reset_port a (get_port a) >>= λ a'. throws e
  | terminates ↦ terminates
  | undefined ↦ undefined
]

-- `uint16_t(atoi(...))`; a number that no `int` holds is undefined.
port_of : Number → Outcome ℕ
port_of number =
    if number.negative && leb number.magnitude (2 ^ 31)
    then returns ((2 ^ 32 - number.magnitude) % 2 ^ 16)
    else if not number.negative && ltb number.magnitude (2 ^ 31)
    then returns (number.magnitude % 2 ^ 16)
    else undefined

port_value : List ℕ → Outcome ℕ
unfolding port_of
port_value text = port_of (atoi text)

pub parse : Resolver → Address → List ℕ → Option ℕ → Outcome Address
unfolding resolve port_value set_port
parse getaddrinfo a addr family = elim (find_last_of b':' addr) [
  | none ↦ resolve getaddrinfo a addr family
  | some pos ↦ do
    port ← port_value (drop (pos + 1) addr)
    a' ← resolve getaddrinfo a (take pos addr) family
    set_port a' port
]

-- `address(const std::string& addr, const std::optional<int>& family)`
unfoldable pub from_text : Resolver → List ℕ → Option ℕ → Outcome Address
unfolding parse
from_text getaddrinfo addr family = parse getaddrinfo unspecified addr family
