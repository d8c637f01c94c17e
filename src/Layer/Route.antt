-- ===== src/Layer/Route.antt =====
-- The routing table of ethox/src/layer/ip/route.rs.
pub mod Longest
use ethox.Base.{
  ℕ, Bool, true, false, Option, none, some, Ordering, Outcome, returns, ensure, ◌>>=◌, ◌>>◌, List,
  [], ◌∷◌, length, take, put_slice, set, ltb, if◌then◌else◌,
}
use ethox.Time.{Instant, Expiration, at, never, cmp}
use ethox.Wire.Repr.{Address, unspecified, ipv4, ipv6}
use ethox.Wire.Ip
use ethox.Wire.Ip.{Subnet, Cidr, is_unicast, contains, prefix_len, subnet}
use ethox.Managed.Partial
use ethox.Managed.Partial.{Partial}

pub record Route : Type 0 where
  pub net : Subnet
  pub next_hop : Address
  pub expires_at : Expiration

-- What `unspecified` and the functions after it do: a route to a network that contains every address.
unfoldable pub through : Address → Address → Outcome Route
unfolding Ip.new subnet
through any hop = do
  cidr ← Ip.new any 0
  net ← subnet cidr
  returns (record { net = net; next_hop = hop; expires_at = never })

unfoldable pub unspecified_route : Outcome Route
unfolding through
unspecified_route = through (ipv4 0) unspecified

unfoldable pub ipv4_invalid : Outcome Route
unfolding through
ipv4_invalid = through (ipv4 0) (ipv4 0)

unfoldable pub ipv6_invalid : Outcome Route
unfolding through
ipv6_invalid = through (ipv6 0) (ipv6 0)

unfoldable pub new_ipv4_gateway : ℕ → Outcome Route
unfolding through
new_ipv4_gateway gateway = through (ipv4 0) (ipv4 gateway)

unfoldable pub new_ipv6_gateway : ℕ → Outcome Route
unfolding through
new_ipv6_gateway gateway = through (ipv6 0) (ipv6 gateway)

pub record Routes : Type 0 where
  pub storage : Partial Route

abbrev pub import : Partial Route → Routes
import storage = record { storage = storage }

abbrev pub new : List Route → Routes
new storage = import (Partial.new storage)

-- The argument returns what it leaves in the slice in use, whose length it cannot change.
unfoldable pub update : Routes → (List Route → List Route) → Routes
unfolding Partial.as_slice
update r f =
    let slice = Partial.as_slice r.storage in
    let left = take (length slice) (f slice) in
    record { storage = record (r.storage) { inner = put_slice r.storage.inner 0 left } }

-- `none` stands for `Error::Exhausted`.
unfoldable pub add_route : Routes → Route → Outcome (Option Routes)
unfolding Partial.push
add_route r route = do
  pushed ← Partial.push r.storage
  returns (elim pushed [
    | none ↦ none
    | some (place, storage) ↦
        some (record { storage = record storage { inner = set storage.inner place route } })
  ])

-- `>` of expirations, derived from `cmp`.
unfoldable pub is_expired : Route → Instant → Bool
unfolding cmp
is_expired route timestamp = elim (cmp (at timestamp) route.expires_at) [
  | Ordering.gt ↦ true
  | _ ↦ false
]

-- `get_or_insert`, and the comparison that follows it.
unfoldable pub better : Option Route → Route → Route
unfolding prefix_len
better none route = route
better (some best) route = if ltb (prefix_len best.net) (prefix_len route.net) then route else best

unfoldable pub lookup_from : List Route → Option Route → Address → Instant → Outcome (Option Route)
unfolding contains is_expired better
lookup_from [] best addr timestamp = returns best
lookup_from (route ∷ routes) best addr timestamp =
    let skip = lookup_from routes best addr timestamp in
    let take = lookup_from routes (some (better best route)) addr timestamp in
    if is_expired route timestamp
    then skip
    else do contained ← contains route.net addr; if contained then take else skip

abbrev pub next_hop_of : Option Route → Option Address
next_hop_of none = none
next_hop_of (some route) = some route.next_hop

unfoldable pub lookup : Routes → Address → Instant → Outcome (Option Address)
unfolding is_unicast Partial.as_slice lookup_from
lookup r addr timestamp = do
  ensure (is_unicast addr)
  best ← lookup_from (Partial.as_slice r.storage) none addr timestamp
  returns (next_hop_of best)
