-- ===== src/Layer/Neighbor/Evicted.antt =====
-- A new entry of the cache of ethox/src/layer/arp/neighbor.rs that is stored after another was removed.
use ethox.Base.{
  ℕ, ◌<◌, ◌≡◌, ◌≢◌, inr, ap, sym, subst, ◌∙◌, none, some, returns, get_elem?, length, length-take,
  some-within, lt→ltb, arith,
}
use ethox.Managed.Ordered.{Ordered, ordered_slice, init}
use ethox.Managed.Ordered.Sorted.{removed}
use ethox.Managed.Ordered.Pushed.{after_pop, after_pop-removed, after_pop-length, pop_lem}
use ethox.Layer.Neighbor.{Neighbor, Cache, neighbor_cmp, evict}
use ethox.Layer.Neighbor.Keys.{KeySorted, entry_of}
use ethox.Layer.Neighbor.Removed.{removed-KeySorted, entry_of-removed}
use ethox.Layer.Neighbor.Stored.{view, IsCache, Stored, store-Stored}

-- The cache without the entry at an index.
abbrev pub without : Cache → ℕ → Cache
without c i = record c { storage = after_pop neighbor_cmp c.storage i }

pub without-slice :
    (c : Cache) (i : ℕ) (old : Neighbor)
    → IsCache c
    → get_elem? (ordered_slice c.storage) i ≡ some old
    → (i < c.storage.start)
      × (ordered_slice (without c i).storage ≡ removed (ordered_slice c.storage) i)
without-slice c i old v at_i =
    let inside = some-within (ordered_slice c.storage) i old at_i in
    let low : i < c.storage.start = omega (arith, length-take c.storage.start c.storage.inner) in
    (low, after_pop-removed neighbor_cmp c.storage i v.within low)

without-IsCache :
    (c : Cache) (i : ℕ) (old : Neighbor)
    → IsCache c
    → get_elem? (ordered_slice c.storage) i ≡ some old
    → IsCache (without c i)
without-IsCache c i old v at_i =
    let (low, slice) = without-slice c i old v at_i in
    record {
      within = omega (arith, after_pop-length neighbor_cmp c.storage i low, v.within);
      short = omega (arith, after_pop-length neighbor_cmp c.storage i low, v.short);
      sorted = subst KeySorted (sym slice) (removed-KeySorted (ordered_slice c.storage) i v.sorted);
    }

pub evict-Stored :
    (c : Cache) (i : ℕ) (old e : Neighbor)
    → IsCache c
    → get_elem? (ordered_slice c.storage) i ≡ some old
    → view c e.protocol_addr ≡ none
    → view c old.protocol_addr ≡ some old
    → (c' : Cache) × (evict c i e ≡ returns (inr c')) × Stored (without c i) e c'
unfolding evict init
evict-Stored c i old e v at_i absent there =
    let (low, slice) = without-slice c i old v at_i in
    let popped : Ordered Neighbor = (without c i).storage in
    let room : popped.start < length popped.inner =
      omega (arith, after_pop-length neighbor_cmp c.storage i low, v.within, low) in
    let apart : e.protocol_addr ≢ old.protocol_addr =
      λ f. let wrong : view c e.protocol_addr ≡ some old = ap (view c) f ∙ there in cc in
    let absent' : view (without c i) e.protocol_addr ≡ none =
      ap (λ ns. entry_of ns e.protocol_addr) slice
      ∙ entry_of-removed (ordered_slice c.storage) i old e.protocol_addr at_i apart
      ∙ absent in
    let (c', stores, stored) =
      store-Stored c popped e (without-IsCache c i old v at_i) room absent' in
    (c', rw (pop_lem neighbor_cmp c.storage i low, lt→ltb _ _ room) stores, stored)
