-- ===== src/Wire/Ip/V6.antt =====
-- Addresses, hosts and networks of ethox/src/wire/ipv6.rs. An address is the number that its octets spell,
-- most significant octet first, below 2^128.
use ethox.Base.{
  ℕ, zero, suc, ◌+◌, ◌-◌, ◌/◌, ◌%◌, ◌^◌, ◌*◌, min, Bool, not, true, false, ◌||◌, Option, none, some,
  Outcome, returns, ensure, ◌>>=◌, ◌>>◌, leb, ◌==◌, if◌then◌else◌,
}

unfoldable pub is_multicast : ℕ → Bool
is_multicast a = a / 2 ^ 120 == 255

unfoldable pub is_unspecified : ℕ → Bool
is_unspecified a = a == 0

unfoldable pub is_unicast : ℕ → Bool
unfolding is_multicast is_unspecified
is_unicast a = not (is_multicast a || is_unspecified a)

unfoldable pub is_link_local : ℕ → Bool
is_link_local a = a / 2 ^ 64 == (254 * 256 + 128) * 2 ^ 48

unfoldable pub is_loopback : ℕ → Bool
is_loopback a = a == 1

unfoldable pub is_ipv4_mapped : ℕ → Bool
is_ipv4_mapped a = a / 2 ^ 32 == 65535

unfoldable pub as_ipv4 : ℕ → Option ℕ
unfolding is_ipv4_mapped
as_ipv4 a = if is_ipv4_mapped a then some (a % 2 ^ 32) else none

-- The last `n` octets of an address, of which the first has the index `i`. In each, the bits stay that the
-- prefix still reaches.
abbrev pub mask_octets : ℕ → ℕ → ℕ → ℕ → ℕ
mask_octets zero i prefix a = 0
mask_octets (suc n) i prefix a =
    let rest = mask_octets n (i + 1) prefix (a % 2 ^ (8 * n)) in
    let part = a / 2 ^ (8 * n) in
    let bits = min (prefix - i * 8) 8 in (part - part % 2 ^ (8 - bits)) * 2 ^ (8 * n) + rest

unfoldable pub mask : ℕ → ℕ → Outcome ℕ
mask a prefix = do ensure (leb prefix 128); returns (mask_octets 16 0 prefix a)

-- A `Scope` is the octet that it turns into.
abbrev pub reserved_multicast : ℕ → ℕ
reserved_multicast scope = 255 * 2 ^ 120 + scope * 2 ^ 112

abbrev pub all_nodes_multicast : ℕ → ℕ
all_nodes_multicast scope = reserved_multicast scope + 1

-- The last two octets are those of the address.
unfoldable pub solicited_node_multicast : ℕ → Outcome ℕ
unfolding is_unicast
solicited_node_multicast a = do ensure (is_unicast a); returns (reserved_multicast 2 + a % 2 ^ 16)

-- The scopes are InterfaceLocal, LinkLocal and Global.
unfoldable pub accepts : ℕ → ℕ → Outcome Bool
unfolding is_unicast solicited_node_multicast
accepts a addr =
    if a == addr
      || all_nodes_multicast 1 == addr
      || all_nodes_multicast 2 == addr
      || all_nodes_multicast 14 == addr
    then returns true
    else if is_unicast a
    then (do solicited ← solicited_node_multicast a; returns (solicited == addr))
    else returns false

pub record Cidr : Type 0 where
  pub address : ℕ
  pub prefix_len : ℕ

pub record Subnet : Type 0 where
  pub address : ℕ
  pub prefix : ℕ

unfoldable pub new : ℕ → ℕ → Outcome Cidr
new address prefix_len = do
  ensure (leb prefix_len 128)
  returns (record { address = address; prefix_len = prefix_len })

unfoldable pub from_cidr : Cidr → Outcome Subnet
unfolding mask
from_cidr c = do
  address ← mask c.address c.prefix_len
  returns (record { address = address; prefix = c.prefix_len })

unfoldable pub netmask : Subnet → Outcome ℕ
unfolding mask
netmask s = mask (2 ^ 128 - 1) s.prefix

unfoldable pub router_anycast : Subnet → Option ℕ
unfolding is_unicast
router_anycast s = if is_unicast s.address then some s.address else none

unfoldable pub contains : Subnet → ℕ → Outcome Bool
unfolding mask
contains s address = do masked ← mask address s.prefix; returns (s.address == masked)

unfoldable pub contains_subnet : Subnet → Subnet → Outcome Bool
unfolding contains
contains_subnet s other =
    if leb s.prefix other.prefix then contains s other.address else returns false
