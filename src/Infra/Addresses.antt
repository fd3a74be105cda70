-- ===== src/Infra/Addresses.antt =====
-- src/relay/infra/ssrf_guard.py, `_is_denied`: which addresses are refused, with the tables of
-- `ipaddress` of Python 3.12.8 and later 3.12 releases.
pub mod Ranges
use relay_webhooks.Prelude.{
  ℕ, ◌+◌, ◌-◌, ◌*◌, ◌/◌, ◌%◌, ◌^◌, ◌==◌, Bool, true, false, ◌&&◌, ◌||◌, not, Option, none, some,
  List, [], ◌∷◌, any, if◌then◌else◌,
}

-- `ipaddress.ip_address`: the number that the address is
pub data Ip : Type 0 where
  v4 v6 : ℕ → Ip

-- `a.b.c.d`
abbrev pub octets : ℕ → ℕ → ℕ → ℕ → ℕ
octets a b c d = ((a * 256 + b) * 256 + c) * 256 + d

-- an IPv6 address by its first four groups and its last two; the others are 0
abbrev pub groups : ℕ → ℕ → ℕ → ℕ → ℕ → ℕ → ℕ
groups a b c d g h = (((a * 65_536 + b) * 65_536 + c) * 65_536 + d) * 2 ^ 64 + (g * 65_536 + h)

-- a network: its address, and the number of the addresses in it
abbrev pub Network : Type 0
Network = ℕ × ℕ

abbrev pub net4 : ℕ → ℕ → Network
net4 base len = (base, 2 ^ (32 - len))

abbrev pub net6 : ℕ → ℕ → Network
net6 base len = (base, 2 ^ (128 - len))

abbrev pub in_network : ℕ → Network → Bool
in_network n net = n / net.1 == net.0 / net.1

abbrev pub in_some : List Network → ℕ → Bool
in_some nets n = any (in_network n) nets

-- `_IPv4Constants`
abbrev pub private_v4 : List Network
private_v4 =
    net4 (octets 0 0 0 0) 8
    ∷ net4 (octets 10 0 0 0) 8
    ∷ net4 (octets 127 0 0 0) 8
    ∷ net4 (octets 169 254 0 0) 16
    ∷ net4 (octets 172 16 0 0) 12
    ∷ net4 (octets 192 0 0 0) 24
    ∷ net4 (octets 192 0 0 170) 31
    ∷ net4 (octets 192 0 2 0) 24
    ∷ net4 (octets 192 168 0 0) 16
    ∷ net4 (octets 198 18 0 0) 15
    ∷ net4 (octets 198 51 100 0) 24
    ∷ net4 (octets 203 0 113 0) 24
    ∷ net4 (octets 240 0 0 0) 4
    ∷ net4 (octets 255 255 255 255) 32
    ∷ []

abbrev pub private_exceptions_v4 : List Network
private_exceptions_v4 = net4 (octets 192 0 0 9) 32 ∷ net4 (octets 192 0 0 10) 32 ∷ []

-- `_IPv6Constants`
abbrev pub private_v6 : List Network
private_v6 =
    net6 (groups 0 0 0 0 0 1) 128
    ∷ net6 (groups 0 0 0 0 0 0) 128
    ∷ net6 (65_535 * 2 ^ 32) 96
    ∷ net6 (groups 100 65_435 1 0 0 0) 48
    ∷ net6 (groups 256 0 0 0 0 0) 64
    ∷ net6 (groups 8_193 0 0 0 0 0) 23
    ∷ net6 (groups 8_193 3_512 0 0 0 0) 32
    ∷ net6 (groups 8_194 0 0 0 0 0) 16
    ∷ net6 (groups 16_383 0 0 0 0 0) 20
    ∷ net6 (groups 64_512 0 0 0 0 0) 7
    ∷ net6 (groups 65_152 0 0 0 0 0) 10
    ∷ []

abbrev pub private_exceptions_v6 : List Network
private_exceptions_v6 =
    net6 (groups 8_193 1 0 0 0 1) 128
    ∷ net6 (groups 8_193 1 0 0 0 2) 128
    ∷ net6 (groups 8_193 3 0 0 0 0) 32
    ∷ net6 (groups 8_193 4 274 0 0 0) 48
    ∷ net6 (groups 8_193 32 0 0 0 0) 28
    ∷ net6 (groups 8_193 48 0 0 0 0) 28
    ∷ []

abbrev pub reserved_v6 : List Network
reserved_v6 =
    net6 (groups 0 0 0 0 0 0) 8
    ∷ net6 (groups 256 0 0 0 0 0) 8
    ∷ net6 (groups 512 0 0 0 0 0) 7
    ∷ net6 (groups 1_024 0 0 0 0 0) 6
    ∷ net6 (groups 2_048 0 0 0 0 0) 5
    ∷ net6 (groups 4_096 0 0 0 0 0) 4
    ∷ net6 (groups 16_384 0 0 0 0 0) 3
    ∷ net6 (groups 24_576 0 0 0 0 0) 3
    ∷ net6 (groups 32_768 0 0 0 0 0) 3
    ∷ net6 (groups 40_960 0 0 0 0 0) 3
    ∷ net6 (groups 49_152 0 0 0 0 0) 3
    ∷ net6 (groups 57_344 0 0 0 0 0) 4
    ∷ net6 (groups 61_440 0 0 0 0 0) 5
    ∷ net6 (groups 63_488 0 0 0 0 0) 6
    ∷ net6 (groups 65_024 0 0 0 0 0) 9
    ∷ []

-- `IPv6Address.ipv4_mapped`: the IPv4 address in ::ffff:0:0/96
abbrev pub ipv4_mapped : ℕ → Option ℕ
ipv4_mapped n = if n / 2 ^ 32 == 65_535 then some (n % 2 ^ 32) else none

-- Each property of an IPv6 address that maps an IPv4 address is that of the IPv4 address.
abbrev pub by_mapped : (ℕ → Bool) → Option ℕ → Bool → Bool
by_mapped judge none own = own
by_mapped judge (some n) own = judge n

abbrev pub is_loopback_v4 : ℕ → Bool
is_loopback_v4 n = in_network n (net4 (octets 127 0 0 0) 8)

abbrev pub is_loopback : Ip → Bool
is_loopback (v4 n) = is_loopback_v4 n
is_loopback (v6 n) = by_mapped is_loopback_v4 (ipv4_mapped n) (n == 1)

abbrev pub is_link_local_v4 : ℕ → Bool
is_link_local_v4 n = in_network n (net4 (octets 169 254 0 0) 16)

abbrev pub is_link_local : Ip → Bool
is_link_local (v4 n) = is_link_local_v4 n
is_link_local (v6 n) =
    by_mapped is_link_local_v4 (ipv4_mapped n) (in_network n (net6 (groups 65_152 0 0 0 0 0) 10))

abbrev pub is_private_v4 : ℕ → Bool
is_private_v4 n = in_some private_v4 n && not (in_some private_exceptions_v4 n)

abbrev pub is_private : Ip → Bool
is_private (v4 n) = is_private_v4 n
is_private (v6 n) =
    by_mapped is_private_v4 (ipv4_mapped n)
      (in_some private_v6 n && not (in_some private_exceptions_v6 n))

abbrev pub is_reserved_v4 : ℕ → Bool
is_reserved_v4 n = in_network n (net4 (octets 240 0 0 0) 4)

abbrev pub is_reserved : Ip → Bool
is_reserved (v4 n) = is_reserved_v4 n
is_reserved (v6 n) = by_mapped is_reserved_v4 (ipv4_mapped n) (in_some reserved_v6 n)

abbrev pub is_multicast_v4 : ℕ → Bool
is_multicast_v4 n = in_network n (net4 (octets 224 0 0 0) 4)

abbrev pub is_multicast : Ip → Bool
is_multicast (v4 n) = is_multicast_v4 n
is_multicast (v6 n) =
    by_mapped is_multicast_v4 (ipv4_mapped n) (in_network n (net6 (groups 65_280 0 0 0 0 0) 8))

abbrev pub is_unspecified : Ip → Bool
is_unspecified (v4 n) = n == 0
is_unspecified (v6 n) = by_mapped (λ m. m == 0) (ipv4_mapped n) (n == 0)

abbrev pub cgnat_network : Network
cgnat_network = net4 (octets 100 64 0 0) 10

abbrev pub in_cgnat : Ip → Bool
in_cgnat (v4 n) = in_network n cgnat_network
in_cgnat (v6 n) = false

abbrev pub metadata_ip : ℕ
metadata_ip = octets 169 254 169 254

abbrev pub is_metadata : Ip → Bool
is_metadata (v4 n) = n == metadata_ip
is_metadata (v6 n) = false

unfoldable pub is_denied : Ip → Bool
is_denied ip =
    if is_loopback ip || is_link_local ip || is_private ip || is_reserved ip
    then true
    else if is_multicast ip || is_unspecified ip
    then true
    else if in_cgnat ip
    then true
    else is_metadata ip
