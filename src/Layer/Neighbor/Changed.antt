-- ===== src/Layer/Neighbor/Changed.antt =====
-- Replacing and inserting an entry of a table of ethox/src/layer/arp/neighbor.rs, as what it does to the
-- map from addresses.
use ethox.Base.{
  ℕ, zero, suc, ◌<◌, arith, ◌≡◌, ◌≢◌, inl, inr, refl, ap, sym, subst, ◌∙◌, Ordering, none, some,
  List, [], ◌∷◌, get_elem?, set, false,
}
use ethox.Wire.Repr.{Address}
use ethox.Managed.Ordered.{at_most}
use ethox.Managed.Ordered.Sorted.{inserted, place, place_lem, swap}
use ethox.Layer.Neighbor.{Neighbor, neighbor_cmp}
use ethox.Layer.Neighbor.Keys.{
  Before, Before-trans, Before-apart, Before-apart_sym, Under, KeySorted, entry_of, entry_of-other,
  entry_of-same, compared,
}

pub Under-later :
    (a : Address) (ns : List Neighbor) (i : ℕ) (n : Neighbor)
    → Under a ns
    → KeySorted ns
    → get_elem? ns i ≡ some n
    → Before a n.protocol_addr
Under-later a [] i n h k e = absurd cc
Under-later a (m ∷ ns) zero n h k e =
    let same : m ≡ n = cc in subst (λ x. Before a x.protocol_addr) same h
Under-later a (m ∷ ns) (suc i) n h (under, k) e =
    Before-trans a m.protocol_addr n.protocol_addr h (Under-later m.protocol_addr ns i n under k e)

-- Of two entries the earlier has the lower address.
pub ordered_at :
    (ns : List Neighbor) (i j : ℕ) (n m : Neighbor)
    → KeySorted ns
    → i < j
    → get_elem? ns i ≡ some n
    → get_elem? ns j ≡ some m
    → Before n.protocol_addr m.protocol_addr
ordered_at [] i j n m h l e f = absurd cc
ordered_at (x ∷ ns) i zero n m h l e f = absurd (omega arith)
ordered_at (x ∷ ns) zero (suc j) n m (under, h) l e f =
    let same : x ≡ n = cc in
    Under-later n.protocol_addr ns j m (subst (λ y. Under y.protocol_addr ns) same under) h f
ordered_at (x ∷ ns) (suc i) (suc j) n m (under, h) l e f = ordered_at ns i j n m h (omega arith) e f

-- An entry in its place has the address that is asked for, and no earlier one has.
pub entry_of-at :
    (ns : List Neighbor) (i : ℕ) (n : Neighbor)
    → KeySorted ns
    → get_elem? ns i ≡ some n
    → entry_of ns n.protocol_addr ≡ some n
entry_of-at [] i n h e = absurd cc
entry_of-at (m ∷ ns) zero n h e =
    let same : m ≡ n = cc in
    entry_of-same m ns n.protocol_addr (ap (λ x. x.protocol_addr) same) ∙ ap some same
entry_of-at (m ∷ ns) (suc i) n (under, h) e =
    entry_of-other m ns n.protocol_addr (Before-apart _ _ (Under-later _ ns i n under h e))
    ∙ entry_of-at ns i n h e

-- Two lists that agree on an address still do below the same first entry.
pub entry_of-below :
    (m : Neighbor) (ns ms : List Neighbor) (a : Address)
    → entry_of ns a ≡ entry_of ms a
    → entry_of (m ∷ ns) a ≡ entry_of (m ∷ ms) a
entry_of-below m ns ms a h = elim (compared m.protocol_addr a) [
  | inl (e, _) ↦ rw (e, entry_of) h
  | inr (inl (e, _)) ↦ rw (e, entry_of) refl
  | inr (inr (e, _)) ↦ rw (e, entry_of) h
]

pub entry_of-set :
    (ns : List Neighbor) (i : ℕ) (old new : Neighbor) (b : Address)
    → get_elem? ns i ≡ some old
    → old.protocol_addr ≡ new.protocol_addr
    → b ≢ new.protocol_addr
    → entry_of (set ns i new) b ≡ entry_of ns b
entry_of-set [] i old new b e s h = refl
entry_of-set (m ∷ ns) zero old new b e s h =
    let same : m ≡ old = cc in
    let apart : m.protocol_addr ≢ b = λ f. h (sym f ∙ ap (λ x. x.protocol_addr) same ∙ s) in
    entry_of-other new ns b (λ f. h (sym f)) ∙ sym (entry_of-other m ns b apart)
entry_of-set (m ∷ ns) (suc i) old new b e s h =
    entry_of-below m (set ns i new) ns b (entry_of-set ns i old new b e s h)

Under-set :
    (a : Address) (ns : List Neighbor) (i : ℕ) (old new : Neighbor)
    → get_elem? ns i ≡ some old
    → old.protocol_addr ≡ new.protocol_addr
    → Under a ns
    → Under a (set ns i new)
Under-set a [] i old new e s h = tt
Under-set a (m ∷ ns) zero old new e s h =
    let same : m ≡ old = cc in subst (λ x. Before a x) (ap (λ x. x.protocol_addr) same ∙ s) h
Under-set a (m ∷ ns) (suc i) old new e s h = h

pub set-KeySorted :
    (ns : List Neighbor) (i : ℕ) (old new : Neighbor)
    → get_elem? ns i ≡ some old
    → old.protocol_addr ≡ new.protocol_addr
    → KeySorted ns
    → KeySorted (set ns i new)
set-KeySorted [] i old new e s h = tt
set-KeySorted (m ∷ ns) zero old new e s (under, h) =
    let same : m ≡ old = cc in
    (subst (λ x. Under x ns) (ap (λ x. x.protocol_addr) same ∙ s) under, h)
set-KeySorted (m ∷ ns) (suc i) old new e s (under, h) =
    (Under-set m.protocol_addr ns i old new e s under, set-KeySorted ns i old new e s h)

Under-inserted :
    (a : Address) (ns : List Neighbor) (i : ℕ) (x : Neighbor)
    → Under a ns
    → Before a x.protocol_addr
    → Under a (inserted ns i x)
Under-inserted a [] zero x h k = k
Under-inserted a [] (suc i) x h k = k
Under-inserted a (m ∷ ns) zero x h k = k
Under-inserted a (m ∷ ns) (suc i) x h k = h

pub entry_of-inserted :
    (ns : List Neighbor) (i : ℕ) (x : Neighbor) (b : Address)
    → b ≢ x.protocol_addr
    → entry_of (inserted ns i x) b ≡ entry_of ns b
entry_of-inserted [] zero x b h = entry_of-other x [] b (λ f. h (sym f))
entry_of-inserted [] (suc i) x b h = entry_of-other x [] b (λ f. h (sym f))
entry_of-inserted (m ∷ ns) zero x b h = entry_of-other x (m ∷ ns) b (λ f. h (sym f))
entry_of-inserted (m ∷ ns) (suc i) x b h =
    entry_of-below m (inserted ns i x) ns b (entry_of-inserted ns i x b h)

-- An address without an entry is not that of the first one, and has none further on.
absent-head :
    (m : Neighbor) (ns : List Neighbor) (a : Address)
    → entry_of (m ∷ ns) a ≡ none
    → (m.protocol_addr ≢ a) × (entry_of ns a ≡ none)
absent-head m ns a h =
    let apart : m.protocol_addr ≢ a = λ f. cc (entry_of-same m ns a f) in
    (apart, sym (entry_of-other m ns a apart) ∙ h)

pub entry_of-inserted_self :
    (ns : List Neighbor) (i : ℕ) (x : Neighbor)
    → entry_of ns x.protocol_addr ≡ none
    → entry_of (inserted ns i x) x.protocol_addr ≡ some x
entry_of-inserted_self [] zero x h = entry_of-same x [] x.protocol_addr refl
entry_of-inserted_self [] (suc i) x h = entry_of-same x [] x.protocol_addr refl
entry_of-inserted_self (m ∷ ns) zero x h = entry_of-same x (m ∷ ns) x.protocol_addr refl
entry_of-inserted_self (m ∷ ns) (suc i) x h =
    let (apart, rest) = absent-head m ns x.protocol_addr h in
    entry_of-other m (inserted ns i x) x.protocol_addr apart ∙ entry_of-inserted_self ns i x rest

pub inserted-KeySorted :
    (ns : List Neighbor) (x : Neighbor)
    → KeySorted ns
    → entry_of ns x.protocol_addr ≡ none
    → KeySorted (inserted ns (place neighbor_cmp ns x) x)
unfolding neighbor_cmp
inserted-KeySorted [] x h e = (tt, tt)
inserted-KeySorted (m ∷ ns) x (under, h) e =
    let (apart, rest) = absent-head m ns x.protocol_addr e in
    elim (place_lem neighbor_cmp m x ns) [
      | inl (at_next, less) ↦ elim (compared m.protocol_addr x.protocol_addr) [
        | inl (_, l) ↦ rw at_next (
          Under-inserted m.protocol_addr ns (place neighbor_cmp ns x) x under l,
          inserted-KeySorted ns x h rest,
        )
        | inr (inl (_, same)) ↦ absurd (apart same)
        | inr (inr (f, _)) ↦
            let wrong : neighbor_cmp m x ≡ Ordering.gt = rw (f, neighbor_cmp) refl in absurd cc
      ]
      | inr (at_first, more) ↦ elim (compared m.protocol_addr x.protocol_addr) [
        | inl (f, _) ↦
            let wrong : at_most (swap (neighbor_cmp m x)) ≡ false = rw (f, neighbor_cmp) refl in
            absurd cc
        | inr (inl (_, same)) ↦ absurd (apart same)
        | inr (inr (_, l)) ↦ rw at_first (l, (under, h))
      ]
    ]

-- Everything that the map has is in the list.
pub entry_of-listed :
    (ns : List Neighbor) (a : Address) (n : Neighbor)
    → entry_of ns a ≡ some n
    → (i : ℕ) × (get_elem? ns i ≡ some n)
entry_of-listed [] a n e = absurd cc
entry_of-listed (m ∷ ns) a n e = elim (compared m.protocol_addr a) [
  | inr (inl (f, same)) ↦ (0, sym (entry_of-same m ns a same) ∙ e)
  | inl (_, l) ↦
      let (i, at_i) =
        entry_of-listed ns a n (sym (entry_of-other m ns a (Before-apart _ _ l)) ∙ e) in
      (suc i, at_i)
  | inr (inr (_, l)) ↦
      let (i, at_i) =
        entry_of-listed ns a n (sym (entry_of-other m ns a (Before-apart_sym _ _ l)) ∙ e) in
      (suc i, at_i)
]
