-- ===== src/Layer/Neighbor/Replaced.antt =====
-- A new entry of the cache of ethox/src/layer/arp/neighbor.rs that takes the place of an old one.
use ethox.Base.{
  ℕ, zero, suc, ◌+◌, ◌<◌, ◌≤◌, ◌≡◌, inl, inr, refl, ap, sym, subst, ◌∙◌, some, returns, List,
  get_elem?, set, length, take, get_elem?-set_self, length-set, length-take, some-within, lt→ltb,
  true, arith, usize_max, Option-cases, Bool, ◌%◌, ◌^◌,
}
use ethox.Managed.Ordered.{at_most, holds_at, ordered_slice, replace_at}
use ethox.Managed.Ordered.Kept.{set-take}
use ethox.Layer.Neighbor.{Neighbor, Cache, neighbor_cmp, replace}
use ethox.Layer.Neighbor.Keys.{
  Before, Before-apart, Before-irrefl, Before-trans, compared, KeySorted, entry_of,
}
use ethox.Layer.Neighbor.Changed.{ordered_at, entry_of-at, entry_of-set, set-KeySorted}
use ethox.Layer.Neighbor.Stored.{IsCache, Stored}

-- The order of the neighbors is that of their addresses, where these differ.
Before-at_most :
    (a b : Neighbor) → Before a.protocol_addr b.protocol_addr → at_most (neighbor_cmp a b) ≡ true
unfolding neighbor_cmp
Before-at_most a b h = elim (compared a.protocol_addr b.protocol_addr) [
  | inl (e, _) ↦ rw (e, neighbor_cmp) refl
  | inr (inl (_, e)) ↦ absurd (Before-apart _ _ h e)
  | inr (inr (_, l)) ↦ absurd (Before-irrefl _ (Before-trans _ _ _ h l))
]

holds_lem :
    (ns : List Neighbor) (i : ℕ) (test : Neighbor → Bool)
    → ((n : Neighbor) → get_elem? ns i ≡ some n → test n ≡ true)
    → holds_at ns i test ≡ true
holds_lem ns i test h = elim (Option-cases (get_elem? ns i)) [
  | inl e ↦ rw (e, holds_at) refl
  | inr (n, e) ↦ rw (e, holds_at) (h n e)
]

-- The entry before, at an index that wraps around at 0, lets one with the same address take the place.
holds_before :
    (ns : List Neighbor) (i : ℕ) (old e : Neighbor)
    → KeySorted ns
    → length ns < usize_max
    → get_elem? ns i ≡ some old
    → old.protocol_addr ≡ e.protocol_addr
    → holds_at ns ((i + usize_max) % 2 ^ 64) (λ n. at_most (neighbor_cmp n e)) ≡ true
holds_before ns zero old e h short at_i same =
    let index : (0 + usize_max) % 2 ^ 64 ≡ usize_max = refl in
    holds_lem ns usize_max (λ n. at_most (neighbor_cmp n e))
      (λ n f. let wrong = some-within ns usize_max n f in absurd (omega arith))
holds_before ns (suc i) old e h short at_i same =
    let inside = some-within ns (suc i) old at_i in
    let index : (suc i + usize_max) % 2 ^ 64 ≡ i = omega arith in
    ap (λ k. holds_at ns k (λ n. at_most (neighbor_cmp n e))) index
    ∙ holds_lem ns i (λ n. at_most (neighbor_cmp n e))
        (λ n f. Before-at_most n e (
          subst (Before n.protocol_addr) same
            (ordered_at ns i (suc i) n old h (omega arith) f at_i)))

holds_after :
    (ns : List Neighbor) (i : ℕ) (old e : Neighbor)
    → KeySorted ns
    → length ns < usize_max
    → get_elem? ns i ≡ some old
    → old.protocol_addr ≡ e.protocol_addr
    → holds_at ns ((i + 1) % 2 ^ 64) (λ n. at_most (neighbor_cmp e n)) ≡ true
holds_after ns i old e h short at_i same =
    let inside = some-within ns i old at_i in
    let index : (i + 1) % 2 ^ 64 ≡ suc i = omega arith in
    ap (λ k. holds_at ns k (λ n. at_most (neighbor_cmp e n))) index
    ∙ holds_lem ns (suc i) (λ n. at_most (neighbor_cmp e n))
        (λ n f. Before-at_most e n (
          subst (λ a. Before a n.protocol_addr) same
            (ordered_at ns i (suc i) old n h (omega arith) at_i f)))

pub replace-Stored :
    (c : Cache) (i : ℕ) (old e : Neighbor)
    → IsCache c
    → get_elem? (ordered_slice c.storage) i ≡ some old
    → old.protocol_addr ≡ e.protocol_addr
    → (c' : Cache) × (replace c i e ≡ returns (inr c')) × Stored c e c'
unfolding replace replace_at
replace-Stored c i old e v at_i same =
    let ns = ordered_slice c.storage in
    let inside = some-within ns i old at_i in
    let size : length ns ≤ c.storage.start =
      omega (arith, length-take c.storage.start c.storage.inner) in
    let short : length ns < usize_max =
      omega (arith, length-take c.storage.start c.storage.inner, v.short) in
    let slice : take c.storage.start (set c.storage.inner i e) ≡ set ns i e =
      set-take c.storage.inner i c.storage.start e (omega arith) in
    let at_new : get_elem? (set ns i e) i ≡ some e = get_elem?-set_self ns i e inside in
    let sorted : KeySorted (set ns i e) = set-KeySorted ns i old e at_i same v.sorted in
    (
      record c { storage = record (c.storage) { inner = set c.storage.inner i e } },
      rw
          (
            lt→ltb _ _ short,
            holds_before ns i old e v.sorted short at_i same,
            holds_after ns i old e v.sorted short at_i same,
            at_i,
            replace_at,
          )
          refl,
      record {
        is_cache = record {
          within = omega (arith, length-set c.storage.inner i e, v.within);
          short = omega (arith, length-set c.storage.inner i e, v.short);
          sorted = subst KeySorted (sym slice) sorted;
        };
        same_room = length-set c.storage.inner i e;
        has =
            ap (λ ms. entry_of ms e.protocol_addr) slice
            ∙ entry_of-at (set ns i e) i e sorted at_new;
        keeps = λ b h. ap (λ ms. entry_of ms b) slice ∙ entry_of-set ns i old e b at_i same h;
      },
    )
