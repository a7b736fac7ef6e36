-- ===== src/Network/Address/Text.antt =====
-- Printing and parsing of addresses (src/common/network/address.cpp).
use w3m.Prelude.{
  ℕ, ◌^◌, ◌<◌, ◌≡◌, ◌≢◌, refl, ◌∙◌, true, List, [], ◌∷◌, ◌++◌, Option, none, some, arith,
  take-append, drop-append_one, All,
}
use w3m.Prelude.Outcome.{returns, throws, ◌>>=◌, unable_to_resolve}
use w3m.Text.{up_to_zero}
use w3m.Text.Decimal.{decimal, atoi-decimal, decimal-without, find_last_of-append}
use w3m.Network.Address.{
  Address, AddrInfo, Resolver, Printing, swap16, af_inet, af_inet6, unspecified, set_port, get_port,
  address_eq, to_string, resolve, port_value, parse, from_text,
}
use w3m.Network.Address.Equality.{swap16-swap16, swap16-lt}
use w3m.Network.Address.Resolve.{IsEntry, taken, first_entry, resolve-first_entry}

port_value-decimal : (port : ℕ) → port < 2 ^ 16 → port_value (decimal 4 port) ≡ returns port
unfolding port_value
port_value-decimal port h = rw (atoi-decimal 4 port (omega arith)) (ground arith)

-- A text `host:port` is cut at its last colon, whatever the host is: the host is resolved, and the
-- port is set on what that returns.
pub parse-port :
    (getaddrinfo : Resolver) (a : Address) (host : List ℕ) (port : ℕ) (family : Option ℕ)
    → port < 2 ^ 16
    → parse getaddrinfo a (host ++ (b':' ∷ decimal 4 port)) family
      ≡ (resolve getaddrinfo a host family >>= λ a'. set_port a' port)
unfolding parse
parse-port getaddrinfo a host port family h =
    let digits : All (λ c. c ≢ b':') (decimal 4 port) =
      decimal-without 4 port b':' (omega arith) (omega arith) in
    rw (find_last_of-append b':' host (decimal 4 port) digits, parse)
      (rw (drop-append_one, port_value-decimal port h, take-append))

abbrev copied : AddrInfo → Address
copied i = taken unspecified (taken unspecified i.ai_addr)

copied-inet :
    (i : AddrInfo)
    → i.ai_addr.family ≡ af_inet
    → ((copied i).family ≡ af_inet) × ((copied i).word ≡ i.ai_addr.word)
unfolding taken
copied-inet i h = ground arith

set_port-set_port :
    (t : Address) (first second : ℕ)
    → t.family ≡ af_inet
    → (set_port t first >>= λ a'. set_port a' second) ≡ set_port t second
unfolding set_port
set_port-set_port t first second h = ground arith

to_string-inet :
    (p : Printing) (a : Address)
    → a.family ≡ af_inet
    → to_string p a ≡ p.ntop4 a.word ++ (b':' ∷ decimal 4 (get_port a))
unfolding to_string
to_string-inet p a h = ground arith

to_string-inet6 :
    (p : Printing) (a : Address)
    → a.family ≡ af_inet6
    → to_string p a
      ≡ (b'[' ∷ (p.ntop6 a.head a.tail ++ b']' ∷ [])) ++ (b':' ∷ decimal 4 (get_port a))
unfolding to_string
to_string-inet6 p a h = ground arith

first_entry-nil : (family : Option ℕ) → first_entry family [] ≡ none
unfolding first_entry
first_entry-nil none = refl
first_entry-nil (some family) = refl

get_port-lt : (a : Address) → get_port a < 2 ^ 16
unfolding get_port
get_port-lt a = ground (arith, swap16-lt a.net_port)

same-set_port :
    (t a : Address)
    → t.family ≡ af_inet
    → a.family ≡ af_inet
    → t.word ≡ a.word
    → a.net_port < 2 ^ 16
    → (b : Address) × (set_port t (get_port a) ≡ returns b) × (address_eq b a ≡ true)
unfolding set_port get_port address_eq
same-set_port t a ht ha hw port = (
  record t { net_port = swap16 (swap16 a.net_port) },
  ground arith,
  ground (arith, swap16-swap16 a.net_port port),
)

-- The system's answer for a printed host is that host.
pub record ReadsBack (getaddrinfo : Resolver) (host : List ℕ) (word : ℕ) (i : AddrInfo)
    (rest : List AddrInfo) : Type 0 where
  pub answer : getaddrinfo (up_to_zero host) ≡ i ∷ rest
  pub entry : IsEntry i
  pub others : All IsEntry rest
  pub inet : i.ai_addr.family ≡ af_inet
  pub same_word : i.ai_addr.word ≡ word

-- An IPv4 address with a port of sixteen bits that is printed and parsed again is equal to the
-- address, where the system resolves the printed host to that host first.
pub from_text-to_string :
    (getaddrinfo : Resolver) (p : Printing) (a : Address) {i : AddrInfo} {rest : List AddrInfo}
    → a.family ≡ af_inet
    → a.net_port < 2 ^ 16
    → ReadsBack getaddrinfo (p.ntop4 a.word) a.word i rest
    → (b : Address) × (from_text getaddrinfo (to_string p a) none ≡ returns b)
      × (address_eq b a ≡ true)
unfolding from_text first_entry
from_text-to_string getaddrinfo p a {i} {rest} inet port r =
    let entries : All IsEntry (getaddrinfo (up_to_zero (p.ntop4 a.word))) =
      rw r.answer (r.entry, r.others) in
    let (family, word) = copied-inet i r.inet in
    let (b, set, same) = same-set_port (copied i) a family inet (word ∙ r.same_word) port in
    (
      b,
      rw
          (
            to_string-inet p a inet,
            parse-port getaddrinfo unspecified (p.ntop4 a.word) (get_port a) none (get_port-lt a),
          )
          (rw (resolve-first_entry getaddrinfo unspecified (p.ntop4 a.word) none entries, r.answer)
            (set_port-set_port (copied i) (get_port unspecified) (get_port a) family ∙ set)),
      same,
    )

-- An IPv6 address is printed with its host in brackets, and `parse` asks the system for the host
-- with the brackets on: where that finds no such host, a printed IPv6 address is not parsed.
pub from_text-to_string_ipv6 :
    (getaddrinfo : Resolver) (p : Printing) (a : Address) (family : Option ℕ)
    → a.family ≡ af_inet6
    → (getaddrinfo (up_to_zero (b'[' ∷ (p.ntop6 a.head a.tail ++ b']' ∷ []))) ≡ [])
    → from_text getaddrinfo (to_string p a) family ≡ throws unable_to_resolve
unfolding from_text
from_text-to_string_ipv6 getaddrinfo p a family inet6 none_found =
    let host : List ℕ = b'[' ∷ (p.ntop6 a.head a.tail ++ b']' ∷ []) in
    let entries : All IsEntry (getaddrinfo (up_to_zero host)) = rw none_found tt in
    rw
      (
        to_string-inet6 p a inet6,
        parse-port getaddrinfo unspecified host (get_port a) family (get_port-lt a),
      )
      (rw (
        resolve-first_entry getaddrinfo unspecified host family entries,
        none_found,
        first_entry-nil family,
      ))
