-- ===== src/Network/Address/Local.antt =====
-- Private addresses (`is_local` of src/common/network/address.cpp) as ranges of numbers.
use w3m.Prelude.{ℕ, ◌+◌, ◌*◌, ◌^◌, ◌<◌, ◌≡◌, Bool, ◌&&◌, ◌||◌, arith, ◌==◌, leb}
use w3m.Network.Address.{Address, af_inet, octet, is_local}

-- The address as a number in host order: `a.b.c.d` is `a * 2^24 + b * 2^16 + c * 2^8 + d`.
abbrev pub host_order : ℕ → ℕ
host_order word =
    octet 0 word * 2 ^ 24 + octet 1 word * 2 ^ 16 + octet 2 word * 2 ^ 8 + octet 3 word

abbrev pub dotted : ℕ → ℕ → ℕ → ℕ → ℕ
dotted a b c d = a * 2 ^ 24 + b * 2 ^ 16 + c * 2 ^ 8 + d

abbrev pub within : ℕ → ℕ → ℕ → Bool
within lo hi n = leb lo n && leb n hi

-- The private networks 10.0.0.0/8, 192.168.0.0/16 and 172.16.0.0/12, and the loopback address.
abbrev pub in_private_range : ℕ → Bool
in_private_range n =
    within (dotted 10 0 0 0) (dotted 10 255 255 255) n
    || (within (dotted 192 168 0 0) (dotted 192 168 255 255) n
        || (within (dotted 172 16 0 0) (dotted 172 31 255 255) n || n == dotted 127 0 0 1))

-- On addresses whose host has 32 bits, `is_local` holds exactly for the IPv4 addresses in the private
-- ranges or equal to 127.0.0.1.
pub is_local-in_private_range :
    (a : Address)
    → a.word < 2 ^ 32
    → is_local a ≡ (a.family == af_inet && in_private_range (host_order a.word))
unfolding is_local
is_local-in_private_range a h = ground arith
