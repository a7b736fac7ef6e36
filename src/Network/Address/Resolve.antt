-- ===== src/Network/Address/Resolve.antt =====
-- Name resolution (`resolve` of src/common/network/address.cpp), over the answers of the system.
use w3m.Prelude.{
  ℕ, ◌≡◌, refl, inl, inr, true, ◌||◌, List, [], ◌∷◌, Option, none, some, arith, ◌==◌, Bool-cases,
  if◌then◌else◌, All,
}
use w3m.Prelude.Outcome.{Outcome, returns, throws, unable_to_resolve}
use w3m.Text.{up_to_zero}
use w3m.Network.Address.{
  Address, AddrInfo, Resolver, af_inet, af_inet6, unspecified, set_address, set_port, get_port,
  is_supported, get_size, collect_addresses, resolve_multiple, first_usable, reset_port,
  use_address, resolve,
}

-- What the system answers for one host: entries of supported families with addresses of the right
-- kind and size.
pub record IsEntry (i : AddrInfo) : Type 0 where
  pub supported : is_supported i.ai_addr ≡ true
  pub family : i.ai_family ≡ i.ai_addr.family
  pub size : i.ai_addrlen ≡ get_size i.ai_addr

-- `set_address` copies a supported address whose size is given; an IPv4 address leaves the bytes
-- behind the sixteen of a `sockaddr_in` alone.
unfoldable pub taken : Address → Address → Address
taken a addr =
    if addr.family == af_inet
    then record a {
      family = addr.family;
      net_port = addr.net_port;
      word = addr.word;
      head = addr.head;
    }
    else addr

set_address-get_size :
    (a addr : Address)
    → is_supported addr ≡ true
    → set_address a addr (get_size addr) ≡ returns (taken a addr)
unfolding set_address get_size is_supported taken
set_address-get_size a addr h = ground arith

taken-supported : (a addr : Address) → is_supported addr ≡ true → is_supported (taken a addr) ≡ true
unfolding is_supported taken
taken-supported a addr h = ground arith

taken-family : (i : AddrInfo) → IsEntry i → (taken unspecified i.ai_addr).family ≡ i.ai_family
unfolding taken
taken-family i h = ground arith

taken_list : List AddrInfo → List Address
taken_list [] = []
taken_list (i ∷ rest) = taken unspecified i.ai_addr ∷ taken_list rest

listed : (i : AddrInfo) → IsEntry i → (i.ai_family == af_inet || i.ai_family == af_inet6) ≡ true
unfolding is_supported
listed i h = ground arith

collect_addresses-entries :
    (answer : List AddrInfo)
    → All IsEntry answer
    → collect_addresses answer ≡ returns (taken_list answer)
unfolding collect_addresses taken_list
collect_addresses-entries [] h = refl
collect_addresses-entries (i ∷ rest) (hi, h) = rw (
  listed i hi,
  hi.size,
  set_address-get_size unspecified i.ai_addr hi.supported,
  collect_addresses-entries rest h,
)

-- The first entry of the wanted family, or the first of all.
unfoldable pub first_entry : Option ℕ → List AddrInfo → Option AddrInfo
first_entry family [] = none
first_entry none (i ∷ rest) = some i
first_entry (some family) (i ∷ rest) =
    let later = first_entry (some family) rest in if i.ai_family == family then some i else later

abbrev taken_entry : Option AddrInfo → Option Address
taken_entry none = none
taken_entry (some i) = some (taken unspecified i.ai_addr)

first_usable-entries :
    (family : Option ℕ) (answer : List AddrInfo)
    → All IsEntry answer
    → first_usable family (taken_list answer) ≡ taken_entry (first_entry family answer)
unfolding first_usable taken_list first_entry taken
first_usable-entries none [] h = refl
first_usable-entries none (i ∷ rest) (hi, h) =
    rw (taken-supported unspecified i.ai_addr hi.supported)
first_usable-entries (some family) [] h = refl
first_usable-entries (some family) (i ∷ rest) (hi, h) =
    rw (taken-supported unspecified i.ai_addr hi.supported, taken-family i hi)
      (rw (first_usable-entries (some family) rest h)
        (elim (Bool-cases (i.ai_family == family)) [ inl e ↦ rw e | inr e ↦ rw e ]))

-- The host of the first answer of the wanted family, with the port that the address had.
abbrev pub resolved : Address → Option AddrInfo → Outcome Address
resolved a none = throws unable_to_resolve
resolved a (some i) = set_port (taken a (taken unspecified i.ai_addr)) (get_port a)

reset_port-supported :
    (b : Address) (port : ℕ) → is_supported b ≡ true → reset_port b port ≡ set_port b port
unfolding reset_port is_supported
reset_port-supported b port h = ground arith

use_address-taken :
    (a : Address) (o : Option AddrInfo)
    → ((i : AddrInfo) → o ≡ some i → is_supported i.ai_addr ≡ true)
    → use_address a (get_port a) (taken_entry o) ≡ resolved a o
unfolding use_address
use_address-taken a none h = refl
use_address-taken a (some i) h =
    let t : is_supported (taken unspecified i.ai_addr) ≡ true =
      taken-supported unspecified i.ai_addr (h i refl) in
    rw (set_address-get_size a (taken unspecified i.ai_addr) t, use_address)
      (reset_port-supported (taken a (taken unspecified i.ai_addr)) (get_port a)
        (taken-supported a (taken unspecified i.ai_addr) t))

first_entry-supported :
    (family : Option ℕ) (answer : List AddrInfo)
    → All IsEntry answer
    → (i : AddrInfo) → first_entry family answer ≡ some i
    → is_supported i.ai_addr ≡ true
unfolding first_entry
first_entry-supported none [] h i e = cc
first_entry-supported none (j ∷ rest) (hj, h) i e = cc (hj.supported)
first_entry-supported (some family) [] h i e = cc
first_entry-supported (some family) (j ∷ rest) (hj, h) i e =
    ground (arith, hj.supported, first_entry-supported (some family) rest h i)

-- Where the system answers with entries of supported families, each with an address of its family and
-- size, `resolve` takes the first entry of the wanted family and keeps the port that the address had,
-- and throws if there is no such entry.
pub resolve-first_entry :
    (getaddrinfo : Resolver) (a : Address) (hostname : List ℕ) (family : Option ℕ)
    → All IsEntry (getaddrinfo (up_to_zero hostname))
    → resolve getaddrinfo a hostname family
      ≡ resolved a (first_entry family (getaddrinfo (up_to_zero hostname)))
unfolding resolve resolve_multiple
resolve-first_entry getaddrinfo a hostname family h =
    let answer : List AddrInfo = getaddrinfo (up_to_zero hostname) in
    rw (collect_addresses-entries (getaddrinfo (up_to_zero hostname)) h, resolve)
      (rw (first_usable-entries family (getaddrinfo (up_to_zero hostname)) h) (
        use_address-taken a (first_entry family (getaddrinfo (up_to_zero hostname)))
          (first_entry-supported family (getaddrinfo (up_to_zero hostname)) h)))
