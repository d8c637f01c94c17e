-- ===== src/Wire/Ip.antt =====
-- Addresses and networks of ethox/src/wire/ip.rs, over those of the two versions.
pub mod Bits
pub mod V4
pub mod V6
pub mod Within
use ethox.Base.{ℕ, Bool, true, false, Outcome, returns, panics, ◌>>=◌}
use ethox.Wire.Repr.{Address, unspecified, ipv4, ipv6}
use ethox.Wire.Ip.V4
use ethox.Wire.Ip.V6

pub data Cidr : Type 0 where
  host4 : V4.Cidr → Cidr
  host6 : V6.Cidr → Cidr

pub data Subnet : Type 0 where
  net4 : V4.Subnet → Subnet
  net6 : V6.Subnet → Subnet

unfoldable pub is_unicast : Address → Bool
unfolding V4.is_unicast V6.is_unicast
is_unicast unspecified = false
is_unicast (ipv4 a) = V4.is_unicast a
is_unicast (ipv6 a) = V6.is_unicast a

unfoldable pub is_multicast : Address → Bool
unfolding V4.is_multicast V6.is_multicast
is_multicast unspecified = false
is_multicast (ipv4 a) = V4.is_multicast a
is_multicast (ipv6 a) = V6.is_multicast a

unfoldable pub is_broadcast : Address → Bool
unfolding V4.is_broadcast
is_broadcast unspecified = false
is_broadcast (ipv4 a) = V4.is_broadcast a
is_broadcast (ipv6 a) = false

unfoldable pub is_unspecified : Address → Bool
unfolding V4.is_unspecified V6.is_unspecified
is_unspecified unspecified = true
is_unspecified (ipv4 a) = V4.is_unspecified a
is_unspecified (ipv6 a) = V6.is_unspecified a

unfoldable pub to_unspecified : Address → Address
to_unspecified unspecified = unspecified
to_unspecified (ipv4 a) = ipv4 0
to_unspecified (ipv6 a) = ipv6 0

unfoldable pub new : Address → ℕ → Outcome Cidr
unfolding V4.new V6.new
new unspecified prefix_len = panics
new (ipv4 a) prefix_len = do c ← V4.new a prefix_len; returns (host4 c)
new (ipv6 a) prefix_len = do c ← V6.new a prefix_len; returns (host6 c)

unfoldable pub subnet : Cidr → Outcome Subnet
unfolding V4.from_cidr V6.from_cidr
subnet (host4 c) = do s ← V4.from_cidr c; returns (net4 s)
subnet (host6 c) = do s ← V6.from_cidr c; returns (net6 s)

unfoldable pub accepts : Cidr → Address → Outcome Bool
unfolding V4.accepts V6.accepts
accepts (host4 c) unspecified = returns false
accepts (host4 c) (ipv4 a) = returns (V4.accepts c a)
accepts (host4 c) (ipv6 a) = returns false
accepts (host6 c) unspecified = returns false
accepts (host6 c) (ipv4 a) = returns false
accepts (host6 c) (ipv6 a) = V6.accepts c.address a

unfoldable pub prefix_len : Subnet → ℕ
prefix_len (net4 s) = s.prefix
prefix_len (net6 s) = s.prefix

unfoldable pub contains : Subnet → Address → Outcome Bool
unfolding V4.contains V6.contains
contains (net4 s) unspecified = returns false
contains (net4 s) (ipv4 a) = V4.contains s a
contains (net4 s) (ipv6 a) = returns false
contains (net6 s) unspecified = returns false
contains (net6 s) (ipv4 a) = returns false
contains (net6 s) (ipv6 a) = V6.contains s a

unfoldable pub contains_subnet : Subnet → Subnet → Outcome Bool
unfolding V4.contains_subnet V6.contains_subnet
contains_subnet (net4 s) (net4 other) = V4.contains_subnet s other
contains_subnet (net4 s) (net6 other) = returns false
contains_subnet (net6 s) (net4 other) = returns false
contains_subnet (net6 s) (net6 other) = V6.contains_subnet s other
