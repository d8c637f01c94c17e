-- ===== src/Examples/Routing.antt =====
-- A table of ethox/src/layer/ip/route.rs with two routes, and networks of ethox/src/wire/ip.rs.
use ethox.Base.{
  ℕ, zero, suc, ◌*◌, ◌^◌, ◌+◌, ◌≡◌, refl, some, Option, returns, true, [], ◌∷◌, get_elem?, arith,
  subst, ◌≤◌,
}
use ethox.Time.{cmp, at, never, from_millis}
use ethox.Wire.Repr.{Address, ipv4}
use ethox.Wire.Ip.{net4, contains, contains_subnet, is_unicast, prefix_len}
use ethox.Wire.Ip.V4
use ethox.Wire.Ip.V6
use ethox.Wire.Ip.Bits.{high_bits}
use ethox.Wire.Ip.Within.{contains_subnet-contains, mask-high_bits}
use ethox.Managed.Partial
use ethox.Managed.Partial.{Partial}
use ethox.Layer.Route.{Route, Routes, lookup, lookup_from, is_expired, better, next_hop_of}
use ethox.Layer.Route.Longest.{lookup-IsBest, IsBest, Fits}

-- 10.0.0.0/8 and 10.1.0.0/16
abbrev ten : V4.Subnet
ten = record { address = 10 * 2 ^ 24; prefix = 8 }

abbrev ten_one : V4.Subnet
ten_one = record { address = 10 * 2 ^ 24 + 2 ^ 16; prefix = 16 }

-- 10.1.0.7
abbrev host : Address
host = ipv4 (10 * 2 ^ 24 + 2 ^ 16 + 7)

contains_subnet-contains_example : contains (net4 ten) host ≡ returns true
unfolding contains contains_subnet V4.contains V4.contains_subnet V4.mask
contains_subnet-contains_example =
    contains_subnet-contains (net4 ten) (net4 ten_one) host (omega arith) refl refl

mask-high_bits_example :
    V6.mask (64 * 2 ^ 112 + 77) 10 ≡ returns (high_bits (64 * 2 ^ 112 + 77) 118)
mask-high_bits_example = mask-high_bits (64 * 2 ^ 112 + 77) 10 (omega arith)

abbrev by_ten : Route
by_ten = record { net = net4 ten; next_hop = ipv4 1; expires_at = never }

abbrev by_ten_one : Route
by_ten_one = record { net = net4 ten_one; next_hop = ipv4 2; expires_at = at (from_millis 50) }

abbrev table : Routes
table = record { storage = record { inner = by_ten ∷ by_ten_one ∷ []; end = 2 } }

table-Fits :
    (i : ℕ) (x : Route) → get_elem? (Partial.as_slice table.storage) i ≡ some x → Fits x.net
unfolding Partial.as_slice
table-Fits zero x e =
    let same : by_ten ≡ x = cc in
    let fits : 8 ≤ 32 = omega arith in subst (λ r. Fits r.net) same fits
table-Fits (suc zero) x e =
    let same : by_ten_one ≡ x = cc in
    let fits : 16 ≤ 32 = omega arith in subst (λ r. Fits r.net) same fits
table-Fits (suc (suc i)) x e = cc

host-is_unicast : is_unicast host ≡ true
unfolding is_unicast V4.is_unicast V4.is_broadcast V4.is_multicast V4.is_unspecified
host-is_unicast = refl

-- The longer prefix wins.
found : lookup table host (from_millis 10) ≡ returns (some (ipv4 2))
unfolding lookup is_unicast contains prefix_len V4.contains V4.mask is_expired better cmp
    lookup_from Partial.as_slice
found = refl

lookup-IsBest_example :
    (best : Option Route) × (lookup table host (from_millis 10) ≡ returns (next_hop_of best))
    × IsBest host (from_millis 10) (Partial.as_slice table.storage) best
lookup-IsBest_example = lookup-IsBest table host (from_millis 10) host-is_unicast table-Fits
