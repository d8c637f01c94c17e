-- ===== src/Wire/Ip/V4.antt =====
-- Addresses, hosts and networks of ethox/src/wire/ipv4.rs. An address is the number that its octets spell,
-- most significant octet first (`to_network_integer`), below 2^32.
use ethox.Base.{
  ℕ, ◌+◌, ◌-◌, ◌/◌, ◌%◌, ◌^◌, ◌*◌, Bool, not, false, ◌&&◌, ◌||◌, Option, none, some, Outcome,
  returns, ensure, ◌>>=◌, ◌>>◌, leb, ltb, ◌==◌, if◌then◌else◌,
}

abbrev pub broadcast_address : ℕ
broadcast_address = 2 ^ 32 - 1

unfoldable pub is_broadcast : ℕ → Bool
is_broadcast a = a == broadcast_address

unfoldable pub is_multicast : ℕ → Bool
is_multicast a = a / 2 ^ 28 == 14

unfoldable pub is_unspecified : ℕ → Bool
is_unspecified a = a / 2 ^ 24 == 0

unfoldable pub is_unicast : ℕ → Bool
unfolding is_broadcast is_multicast is_unspecified
is_unicast a = not (is_broadcast a || is_multicast a || is_unspecified a)

unfoldable pub is_link_local : ℕ → Bool
is_link_local a = a / 2 ^ 16 == 169 * 256 + 254

unfoldable pub is_loopback : ℕ → Bool
is_loopback a = a / 2 ^ 24 == 127

-- The bits of the host, those of `masked_off`.
abbrev pub host_bits : ℕ → ℕ → ℕ
host_bits a prefix = a % 2 ^ (32 - prefix)

unfoldable pub mask : ℕ → ℕ → Outcome ℕ
mask a prefix = do ensure (leb prefix 32); returns (a - host_bits a prefix)

pub record Cidr : Type 0 where
  pub address : ℕ
  pub prefix_len : ℕ

pub record Subnet : Type 0 where
  pub address : ℕ
  pub prefix : ℕ

unfoldable pub new : ℕ → ℕ → Outcome Cidr
new address prefix_len = do
  ensure (leb prefix_len 32)
  returns (record { address = address; prefix_len = prefix_len })

unfoldable pub has_network_and_broadcast : Cidr → Bool
has_network_and_broadcast c = ltb c.prefix_len 31

-- `netmask` does not panic here, as the prefix is shorter than 31. Its complement has the host's bits.
unfoldable pub broadcast : Cidr → Option Cidr
unfolding has_network_and_broadcast
broadcast c =
    if has_network_and_broadcast c
    then some (record c {
      address = c.address - host_bits c.address c.prefix_len + (2 ^ (32 - c.prefix_len) - 1);
    })
    else none

unfoldable pub network : Cidr → Option Cidr
unfolding has_network_and_broadcast
network c =
    if has_network_and_broadcast c
    then some (record c { address = c.address - host_bits c.address c.prefix_len })
    else none

abbrev is_at : Option Cidr → ℕ → Bool
is_at none address = false
is_at (some c) address = c.address == address

unfoldable pub accepts : Cidr → ℕ → Bool
unfolding broadcast network
accepts c address =
    (c.address == address || is_at (broadcast c) address || address == broadcast_address)
    && not (is_at (network c) address)

unfoldable pub from_cidr : Cidr → Outcome Subnet
unfolding mask
from_cidr c = do
  address ← mask c.address c.prefix_len
  returns (record { address = address; prefix = c.prefix_len })

unfoldable pub netmask : Subnet → Outcome ℕ
unfolding mask
netmask s = mask (2 ^ 32 - 1) s.prefix

unfoldable pub contains : Subnet → ℕ → Outcome Bool
unfolding mask
contains s address = do masked ← mask address s.prefix; returns (s.address == masked)

unfoldable pub contains_subnet : Subnet → Subnet → Outcome Bool
unfolding contains
contains_subnet s other =
    if leb s.prefix other.prefix then contains s other.address else returns false
