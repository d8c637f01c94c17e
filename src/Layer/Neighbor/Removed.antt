-- ===== src/Layer/Neighbor/Removed.antt =====
-- Removing an entry of a table of ethox/src/layer/arp/neighbor.rs, as what it does to the
-- map from addresses.
use ethox.Base.{ℕ, zero, suc, ◌≡◌, ◌≢◌, ap, sym, subst, ◌∙◌, none, some, List, [], ◌∷◌, get_elem?}
use ethox.Wire.Repr.{Address}
use ethox.Managed.Ordered.Sorted.{removed}
use ethox.Layer.Neighbor.{Neighbor}
use ethox.Layer.Neighbor.Keys.{
  Before-trans, Before-apart, Under, KeySorted, entry_of, entry_of-other, entry_of-Under,
}
use ethox.Layer.Neighbor.Changed.{Under-later, entry_of-below}

Under-removed :
    (a : Address) (ns : List Neighbor) (i : ℕ) → Under a ns → KeySorted ns → Under a (removed ns i)
Under-removed a [] zero h k = tt
Under-removed a [] (suc i) h k = tt
Under-removed a (m ∷ []) zero h k = tt
Under-removed a (m ∷ n ∷ ns) zero h (under, k) =
    Before-trans a m.protocol_addr n.protocol_addr h under
Under-removed a (m ∷ ns) (suc i) h k = h

pub removed-KeySorted : (ns : List Neighbor) (i : ℕ) → KeySorted ns → KeySorted (removed ns i)
removed-KeySorted [] zero h = tt
removed-KeySorted [] (suc i) h = tt
removed-KeySorted (m ∷ ns) zero (_, h) = h
removed-KeySorted (m ∷ ns) (suc i) (under, h) =
    (Under-removed m.protocol_addr ns i under h, removed-KeySorted ns i h)

pub entry_of-removed_self :
    (ns : List Neighbor) (i : ℕ) (n : Neighbor)
    → KeySorted ns
    → get_elem? ns i ≡ some n
    → entry_of (removed ns i) n.protocol_addr ≡ none
entry_of-removed_self [] i n h e = absurd cc
entry_of-removed_self (m ∷ ns) zero n (under, h) e =
    let same : m ≡ n = cc in
    entry_of-Under n.protocol_addr ns (subst (λ x. Under x.protocol_addr ns) same under) h
entry_of-removed_self (m ∷ ns) (suc i) n (under, h) e =
    entry_of-other m (removed ns i) n.protocol_addr
      (Before-apart _ _ (Under-later m.protocol_addr ns i n under h e))
    ∙ entry_of-removed_self ns i n h e

pub entry_of-removed :
    (ns : List Neighbor) (i : ℕ) (n : Neighbor) (b : Address)
    → get_elem? ns i ≡ some n
    → b ≢ n.protocol_addr
    → entry_of (removed ns i) b ≡ entry_of ns b
entry_of-removed [] i n b e h = absurd cc
entry_of-removed (m ∷ ns) zero n b e h =
    let same : m ≡ n = cc in
    sym (entry_of-other m ns b (λ f. h (sym f ∙ ap (λ x. x.protocol_addr) same)))
entry_of-removed (m ∷ ns) (suc i) n b e h =
    entry_of-below m (removed ns i) ns b (entry_of-removed ns i n b e h)
