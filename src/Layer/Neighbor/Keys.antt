-- ===== src/Layer/Neighbor/Keys.antt =====
-- The addresses of the neighbors in ethox/src/layer/arp/neighbor.rs as the keys of a map: how the search for one
-- relates to what the map has.
use ethox.Base.{
  ℕ, ◌<◌, ◌≡◌, ◌≢◌, ◌⊎◌, inl, inr, refl, ap, sym, subst, ◌∙◌, Ordering, compare, Option, none, some,
  List, [], ◌∷◌, get_elem?, arith,
}
use ethox.Wire.Repr.{Address, unspecified, ipv4, ipv6}
use ethox.Managed.Ordered.{next_place, binary_search_by}
use ethox.Layer.Neighbor.{Neighbor, address_cmp, search}

abbrev rank : Address → ℕ
rank unspecified = 0
rank (ipv4 a) = 1
rank (ipv6 a) = 2

abbrev value : Address → ℕ
value unspecified = 0
value (ipv4 a) = a
value (ipv6 a) = a

-- The order of addresses, as one of pairs of numbers.
abbrev pub Before : Address → Address → Type 0
Before a b = (rank a < rank b) ⊎ ((rank a ≡ rank b) × (value a < value b))

pub Before-trans : (a b c : Address) → Before a b → Before b c → Before a c
Before-trans a b c (inl h) (inl k) = inl (omega arith)
Before-trans a b c (inl h) (inr (k, _)) = inl (omega arith)
Before-trans a b c (inr (h, _)) (inl k) = inl (omega arith)
Before-trans a b c (inr (h, l)) (inr (k, m)) = inr (h ∙ k, omega arith)

-- The three answers of a comparison, and what they mean.
abbrev pub Compared : Address → Address → Type 0
Compared a b =
    ((address_cmp a b ≡ Ordering.lt) × Before a b)
    ⊎ (((address_cmp a b ≡ Ordering.eq) × (a ≡ b)) ⊎ ((address_cmp a b ≡ Ordering.gt) × Before b a))

number_cases :
    (a b : ℕ)
    → ((compare a b ≡ Ordering.lt) × (a < b))
      ⊎ (((compare a b ≡ Ordering.eq) × (a ≡ b)) ⊎ ((compare a b ≡ Ordering.gt) × (b < a)))
number_cases a b = ground arith

pub compared : (a b : Address) → Compared a b
compared unspecified unspecified = inr (inl (refl, refl))
compared unspecified (ipv4 b) = inl (refl, inl (omega arith))
compared unspecified (ipv6 b) = inl (refl, inl (omega arith))
compared (ipv4 a) unspecified = inr (inr (refl, inl (omega arith)))
compared (ipv4 a) (ipv6 b) = inl (refl, inl (omega arith))
compared (ipv6 a) unspecified = inr (inr (refl, inl (omega arith)))
compared (ipv6 a) (ipv4 b) = inr (inr (refl, inl (omega arith)))
compared (ipv4 a) (ipv4 b) = elim (number_cases a b) [
  | inl (e, l) ↦ inl (e, inr (refl, l))
  | inr (inl (e, l)) ↦ inr (inl (e, ap ipv4 l))
  | inr (inr (e, l)) ↦ inr (inr (e, inr (refl, l)))
]
compared (ipv6 a) (ipv6 b) = elim (number_cases a b) [
  | inl (e, l) ↦ inl (e, inr (refl, l))
  | inr (inl (e, l)) ↦ inr (inl (e, ap ipv6 l))
  | inr (inr (e, l)) ↦ inr (inr (e, inr (refl, l)))
]

pub Before-irrefl : (a : Address) → ¬ Before a a
Before-irrefl a (inl h) = omega arith
Before-irrefl a (inr (_, h)) = omega arith

pub Before-apart : (a b : Address) → Before a b → a ≢ b
Before-apart a b h e = Before-irrefl b (subst (λ x. Before x b) e h)

pub Before-apart_sym : (a b : Address) → Before a b → b ≢ a
Before-apart_sym a b h e = Before-apart a b h (sym e)

pub address_cmp-same : (a b : Address) → a ≡ b → address_cmp a b ≡ Ordering.eq
address_cmp-same a b h = elim (compared a b) [
  | inl (_, l) ↦ absurd (Before-apart a b l h)
  | inr (inl (e, _)) ↦ e
  | inr (inr (_, l)) ↦ absurd (Before-apart_sym b a l h)
]

-- The entry of an address: the table as a map.
abbrev pub entry_of : List Neighbor → Address → Option Neighbor
entry_of [] a = none
entry_of (n ∷ ns) a =
    let rest = entry_of ns a in
    elim (address_cmp n.protocol_addr a) [ Ordering.eq ↦ some n | _ ↦ rest ]

-- An address that stands before all of a list.
abbrev pub Under : Address → List Neighbor → Type 0
Under a [] = Unit
Under a (n ∷ ns) = Before a n.protocol_addr

-- Every address has one entry at most, and they are in order.
abbrev pub KeySorted : List Neighbor → Type 0
KeySorted [] = Unit
KeySorted (n ∷ ns) = Under n.protocol_addr ns × KeySorted ns

Under-trans :
    (a : Address) (n : Neighbor) (ns : List Neighbor)
    → Before a n.protocol_addr
    → Under n.protocol_addr ns
    → Under a ns
Under-trans a n [] h k = tt
Under-trans a n (m ∷ ns) h k = Before-trans a n.protocol_addr m.protocol_addr h k

-- The entry of a list whose first address is known to be another one.
pub entry_of-other :
    (n : Neighbor) (ns : List Neighbor) (a : Address)
    → n.protocol_addr ≢ a
    → entry_of (n ∷ ns) a ≡ entry_of ns a
entry_of-other n ns a h = elim (compared n.protocol_addr a) [
  | inl (e, _) ↦ rw (e, entry_of) refl
  | inr (inl (_, e)) ↦ absurd (h e)
  | inr (inr (e, _)) ↦ rw (e, entry_of) refl
]

pub entry_of-same :
    (n : Neighbor) (ns : List Neighbor) (a : Address)
    → n.protocol_addr ≡ a
    → entry_of (n ∷ ns) a ≡ some n
entry_of-same n ns a h = rw (address_cmp-same n.protocol_addr a h, entry_of) refl

pub entry_of-Under :
    (a : Address) (ns : List Neighbor) → Under a ns → KeySorted ns → entry_of ns a ≡ none
entry_of-Under a [] h k = refl
entry_of-Under a (n ∷ ns) h (under, k) =
    entry_of-other n ns a (Before-apart_sym a n.protocol_addr h)
    ∙ entry_of-Under a ns (Under-trans a n ns h under) k

-- What the search finds.
abbrev pub Found : List Neighbor → Address → ℕ ⊎ ℕ → Type 0
Found ns a (inl i) =
    (n : Neighbor) × (get_elem? ns i ≡ some n) × (n.protocol_addr ≡ a) × (entry_of ns a ≡ some n)
Found ns a (inr i) = entry_of ns a ≡ none

Found-next :
    (n : Neighbor) (ns : List Neighbor) (a : Address) (r : ℕ ⊎ ℕ)
    → n.protocol_addr ≢ a
    → Found ns a r
    → Found (n ∷ ns) a (next_place r)
Found-next n ns a (inl i) h (m, at_i, e, f) = (m, at_i, e, entry_of-other n ns a h ∙ f)
Found-next n ns a (inr i) h f = entry_of-other n ns a h ∙ f

pub search-Found : (ns : List Neighbor) (a : Address) → KeySorted ns → Found ns a (search ns a)
search-Found [] a h = refl
search-Found (n ∷ ns) a (under, h) = elim (compared n.protocol_addr a) [
  | inl (e, l) ↦
      rw (e, search, binary_search_by)
        (Found-next n ns a (search ns a) (Before-apart n.protocol_addr a l) (search-Found ns a h))
  | inr (inl (e, same)) ↦
      rw (e, search, binary_search_by) (n, refl, same, entry_of-same n ns a same)
  | inr (inr (e, l)) ↦ rw (e, search, binary_search_by) (entry_of-Under a (n ∷ ns) l (under, h))
]
