-- ===== src/Layer/Neighbor.antt =====
-- The cache of neighbors of ethox/src/layer/arp/neighbor.rs, on an ordered slice.
pub mod Keys
pub mod Changed
pub mod Removed
pub mod Expiry
pub mod Stored
pub mod Replaced
pub mod Evicted
pub mod Filled
pub mod Lookup
use ethox.Base.{
  ℕ, suc, ◌≡◌, ◌⊎◌, inl, inr, Bool, true, false, not, Option, none, some, Ordering, compare,
  Outcome, returns, panics, ensure, unwrap, ◌>>=◌, ◌>>◌, List, [], ◌∷◌, set, get_elem?,
  if◌then◌else◌, ◌^◌, ◌-◌, ◌*◌, ◌&&◌,
}
use ethox.Time.{
  Instant, Duration, Expiration, at, never, cmp, after, from_option, expiration_ge, from_millis,
}
use ethox.Wire.Repr.{Address, unspecified, ipv4, ipv6}
use ethox.Wire.Ip.{is_broadcast}
use ethox.Managed.Ordered
use ethox.Managed.Ordered.{Ordered, ordered_slice, binary_search_by, replace_at, init, push, pop}

-- An address of Ethernet is the number that its octets spell.
pub data Mapping : Type 0 where
  hardware : ℕ → Mapping
  looking_for : Mapping
  requesting : Mapping

pub record Neighbor : Type 0 where
  pub protocol_addr : Address
  pub hardware_addr : Mapping
  pub expires_at : Expiration

pub data Error : Type 0 where
  no_space : Error
  expires_too_soon : Error
  entry_not_found : Error

pub record Cache : Type 0 where
  pub storage : Ordered Neighbor
  pub silent_until : Instant

-- The derived orders.
abbrev pub address_cmp : Address → Address → Ordering
address_cmp unspecified unspecified = Ordering.eq
address_cmp unspecified (ipv4 b) = Ordering.lt
address_cmp unspecified (ipv6 b) = Ordering.lt
address_cmp (ipv4 a) unspecified = Ordering.gt
address_cmp (ipv4 a) (ipv4 b) = compare a b
address_cmp (ipv4 a) (ipv6 b) = Ordering.lt
address_cmp (ipv6 a) unspecified = Ordering.gt
address_cmp (ipv6 a) (ipv4 b) = Ordering.gt
address_cmp (ipv6 a) (ipv6 b) = compare a b

abbrev pub mapping_cmp : Mapping → Mapping → Ordering
mapping_cmp (hardware a) (hardware b) = compare a b
mapping_cmp (hardware a) looking_for = Ordering.lt
mapping_cmp (hardware a) requesting = Ordering.lt
mapping_cmp looking_for (hardware b) = Ordering.gt
mapping_cmp looking_for looking_for = Ordering.eq
mapping_cmp looking_for requesting = Ordering.lt
mapping_cmp requesting (hardware b) = Ordering.gt
mapping_cmp requesting looking_for = Ordering.gt
mapping_cmp requesting requesting = Ordering.eq

-- One field after the other.
abbrev pub then_with : Ordering → Ordering → Ordering
then_with Ordering.lt next = Ordering.lt
then_with Ordering.eq next = next
then_with Ordering.gt next = Ordering.gt

unfoldable pub neighbor_cmp : Neighbor → Neighbor → Ordering
unfolding cmp
neighbor_cmp a b =
    then_with (address_cmp a.protocol_addr b.protocol_addr)
      (then_with (mapping_cmp a.hardware_addr b.hardware_addr) (cmp a.expires_at b.expires_at))

abbrev pub import : Ordered Neighbor → Cache
import storage = record { storage = storage; silent_until = from_millis 0 }

abbrev pub new : List Neighbor → Cache
new storage = import (Ordered.new storage)

-- A minute, in nanoseconds.
abbrev pub entry_lifetime : Duration
entry_lifetime = 60000 * 1000000

unfoldable pub expiry : Option Instant → Expiration
unfolding after
expiry none = never
expiry (some timestamp) = at (after timestamp entry_lifetime)

abbrev pub new_neighbor : Address → Mapping → Option Instant → Neighbor
new_neighbor protocol_addr hardware_addr timestamp = record {
  protocol_addr = protocol_addr;
  hardware_addr = hardware_addr;
  expires_at = expiry timestamp;
}

abbrev pub is_gt : Ordering → Bool
is_gt Ordering.lt = false
is_gt Ordering.eq = false
is_gt Ordering.gt = true

-- The entry that expires first, of one and those after it.
abbrev pub first_of : Neighbor → Option (ℕ × Neighbor) → Option (ℕ × Neighbor)
first_of x none = some (0, x)
first_of x (some (i, y)) =
    if is_gt (cmp x.expires_at y.expires_at) then some (suc i, y) else some (0, x)

-- `min_by_key` of the expiry, which is the first of several.
abbrev pub oldest : List Neighbor → Option (ℕ × Neighbor)
oldest [] = none
oldest (x ∷ xs) = first_of x (oldest xs)

abbrev pub is_eq : Ordering → Bool
is_eq Ordering.lt = false
is_eq Ordering.eq = true
is_eq Ordering.gt = false

abbrev pub takes_back : Mapping → Mapping → Bool
takes_back requesting looking_for = true
takes_back requesting requesting = false
takes_back requesting (hardware b) = false
takes_back looking_for b = false
takes_back (hardware a) b = false

-- A request is running that has not expired, and shall not be taken back.
unfoldable pub is_running : Neighbor → Neighbor → Option Instant → Bool
unfolding expiration_ge from_option
is_running old neighbor timestamp =
    takes_back old.hardware_addr neighbor.hardware_addr
    && expiration_ge old.expires_at (from_option timestamp)

unfoldable pub replace : Cache → ℕ → Neighbor → Outcome (Error ⊎ Cache)
unfolding neighbor_cmp replace_at
replace c index neighbor = do
  replaced ← replace_at neighbor_cmp c.storage index neighbor
  (_, storage) ← unwrap replaced
  returns (inr (record c { storage = storage }))

-- What is done with an address that has an entry, at the index.
unfoldable pub update_at : Cache → ℕ → Neighbor → Option Instant → Outcome (Error ⊎ Cache)
unfolding is_running replace
update_at c index neighbor timestamp = do
  old ← unwrap (Ordered.get c.storage index)
  ensure (is_eq (address_cmp old.protocol_addr neighbor.protocol_addr))
  (if is_running old neighbor timestamp then returns (inr c) else replace c index neighbor)

-- `*free = new_neighbor`, and the push that follows.
unfoldable pub store : Cache → Ordered Neighbor → ℕ → Neighbor → Outcome (Error ⊎ Cache)
unfolding neighbor_cmp push
store c storage free neighbor = do
  (_, storage) ←
      unwrap (push neighbor_cmp (record storage { inner = set storage.inner free neighbor }))
  returns (inr (record c { storage = storage }))

unfoldable pub evict : Cache → ℕ → Neighbor → Outcome (Error ⊎ Cache)
unfolding pop init store
evict c index neighbor = do
  storage ← unwrap (pop c.storage index)
  free ← unwrap (init storage)
  store c storage free neighbor

-- What is done with an address that has none.
unfoldable pub insert : Cache → Neighbor → Outcome (Error ⊎ Cache)
unfolding init store evict cmp
insert c neighbor = elim (init c.storage) [
  | some free ↦ store c c.storage free neighbor
  | none ↦ elim (oldest (ordered_slice c.storage)) [
    | none ↦ returns (inl no_space)
    | some (index, old) ↦
        if is_gt (cmp old.expires_at neighbor.expires_at)
        then returns (inl expires_too_soon)
        else evict c index neighbor
  ]
]

-- `slice::binary_search_by_key`, with the address as the key.
abbrev pub search : List Neighbor → Address → ℕ ⊎ ℕ
search neighbors addr = binary_search_by neighbors (λ n. address_cmp n.protocol_addr addr)

unfoldable pub update_or_insert :
    Cache → Address → Mapping → Option Instant → Outcome (Error ⊎ Cache)
unfolding update_at insert
update_or_insert c addr mapping timestamp =
    let neighbor = new_neighbor addr mapping timestamp in
    elim (search (ordered_slice c.storage) addr) [
      | inl index ↦ update_at c index neighbor timestamp
      | inr _ ↦ insert c neighbor
    ]

unfoldable pub fill_looking : Cache → Address → Option Instant → Outcome (Error ⊎ Cache)
unfolding update_or_insert
fill_looking c addr timestamp = update_or_insert c addr looking_for timestamp

-- The name of the method is that of the mapping.
unfoldable pub set_requesting : Cache → Address → Instant → Outcome (Error ⊎ Cache)
unfolding update_or_insert
set_requesting c addr timestamp = update_or_insert c addr requesting (some timestamp)

unfoldable pub fill : Cache → Address → ℕ → Option Instant → Outcome (Error ⊎ Cache)
unfolding update_or_insert
fill c addr hardware_addr timestamp = update_or_insert c addr (hardware hardware_addr) timestamp

-- `ethernet::Address::BROADCAST`
abbrev pub hardware_broadcast : ℕ
hardware_broadcast = 2 ^ 48 - 1

-- `Table::lookup`; the table of a cache is what is in use.
unfoldable pub lookup : List Neighbor → Address → Instant → Option Mapping
unfolding is_broadcast expiration_ge
lookup table addr timestamp =
    if is_broadcast addr then some (hardware hardware_broadcast) else elim (search table addr) [
      | inl existing ↦ elim (get_elem? table existing) [
        | none ↦ none
        | some entry ↦
            if expiration_ge (at timestamp) entry.expires_at then none else some entry.hardware_addr
      ]
      | inr _ ↦ none
    ]

-- `Neighbor::hardware_addr`
abbrev pub known : Mapping → Option ℕ
known (hardware a) = some a
known looking_for = none
known requesting = none

unfoldable pub lookup_pure : List Neighbor → Address → Instant → Option ℕ
unfolding lookup
lookup_pure table addr timestamp = elim (lookup table addr timestamp) [
  | none ↦ none
  | some m ↦ known m
]

unfoldable pub is_alive : Neighbor → Instant → Bool
unfolding expiration_ge
is_alive n ts = expiration_ge n.expires_at (at ts)

unfoldable pub is_expired : Neighbor → Instant → Bool
unfolding is_alive
is_expired n ts = not (is_alive n ts)

abbrev pub is_looking_for : Neighbor → Bool
is_looking_for n = elim n.hardware_addr [ looking_for ↦ true | _ ↦ false ]

-- The entries that `Missing` goes through.
abbrev pub missing : List Neighbor → List Neighbor
missing [] = []
missing (n ∷ table) =
    let rest = missing table in elim (known n.hardware_addr) [ none ↦ n ∷ rest | some _ ↦ rest ]
