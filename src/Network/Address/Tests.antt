-- ===== src/Network/Address/Tests.antt =====
-- Examples for src/common/network/address.cpp.
use w3m.Prelude.{◌≡◌, ◌&&◌, ◌==◌, refl, true, [], ◌∷◌, none, arith, codes}
use w3m.Prelude.Outcome.{returns, throws, unable_to_resolve}
use w3m.Network.Address.{
  Address, AddrInfo, Resolver, Printing, Hashes, af_inet, af_inet6, is_supported, is_ipv4, is_ipv6,
  is_local, get_port, get_size, address_eq, hash, to_string, from_text,
}
use w3m.Network.Address.Equality.{hash-address_eq}
use w3m.Network.Address.Local.{is_local-in_private_range, in_private_range, host_order}
use w3m.Network.Address.Resolve.{IsEntry}
use w3m.Network.Address.Text.{ReadsBack, from_text-to_string, from_text-to_string_ipv6}

abbrev loopback : Address
loopback = record {
  family = af_inet;
  net_port = 258;
  word = 0x0100007F;
  head = 0;
  tail = 0;
  scope = 0;
}

abbrev loopback_6 : Address
loopback_6 = record { family = af_inet6; net_port = 258; word = 0; head = 0; tail = 1; scope = 0 }

abbrev entry : AddrInfo
entry = record { ai_family = af_inet; ai_addr = record loopback { net_port = 0 }; ai_addrlen = 16 }

-- Every name is the loopback address, and `nobody` has no name.
abbrev everybody : Resolver
everybody host = entry ∷ []

abbrev nobody : Resolver
nobody host = []

abbrev printing : Printing
printing = record { ntop4 = λ word. codes "127.0.0.1"; ntop6 = λ head tail. codes "::1" }

abbrev hashes : Hashes
hashes = record { hash_u32 = λ n. n; hash_view = λ head tail. tail }

entry-IsEntry : IsEntry entry
unfolding is_supported is_ipv4 is_ipv6 get_size
entry-IsEntry = record { supported = refl; family = refl; size = refl }

entry-ReadsBack : ReadsBack everybody (codes "127.0.0.1") 0x0100007F entry []
entry-ReadsBack = record {
  answer = refl;
  entry = entry-IsEntry;
  others = tt;
  inet = refl;
  same_word = refl;
}

loopback-address_eq : address_eq loopback loopback ≡ true
unfolding address_eq get_port
loopback-address_eq = refl

hash-address_eq_example : hash hashes loopback ≡ hash hashes loopback
hash-address_eq_example = hash-address_eq hashes loopback loopback loopback-address_eq

is_local-in_private_range_example :
    is_local loopback ≡ (loopback.family == af_inet && in_private_range (host_order loopback.word))
is_local-in_private_range_example = is_local-in_private_range loopback (omega arith)

from_text-to_string_example :
    (b : Address) × (from_text everybody (to_string printing loopback) none ≡ returns b)
    × (address_eq b loopback ≡ true)
from_text-to_string_example =
    from_text-to_string everybody printing loopback refl (omega arith) entry-ReadsBack

from_text-to_string_ipv6_example :
    from_text nobody (to_string printing loopback_6) none ≡ throws unable_to_resolve
from_text-to_string_ipv6_example =
    from_text-to_string_ipv6 nobody printing loopback_6 none refl refl
