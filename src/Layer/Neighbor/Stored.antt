-- ===== src/Layer/Neighbor/Stored.antt =====
-- A new entry of the cache of ethox/src/layer/arp/neighbor.rs that is pushed to a free place.
use ethox.Base.{
  ◌<◌, ◌≤◌, ◌≡◌, ◌≢◌, inr, refl, ap, sym, subst, ◌∙◌, Option, none, some, returns, get_elem?, set,
  length, get_elem?-set_self, length-set, arith, usize_max,
}
use ethox.Wire.Repr.{Address}
use ethox.Managed.Ordered.{Ordered, ordered_slice}
use ethox.Managed.Ordered.Sorted.{inserted, place}
use ethox.Managed.Ordered.Kept.{take-set}
use ethox.Managed.Ordered.Pushed.{after_push, after_push-inserted, after_push-length, push_lem}
use ethox.Layer.Neighbor.{Neighbor, Cache, neighbor_cmp, store}
use ethox.Layer.Neighbor.Keys.{KeySorted, entry_of}
use ethox.Layer.Neighbor.Changed.{inserted-KeySorted, entry_of-inserted, entry_of-inserted_self}

-- The entry of an address.
abbrev pub view : Cache → Address → Option Neighbor
view c a = entry_of (ordered_slice c.storage) a

-- The entries are in order, one for each address, and fewer than a slice can have.
pub record IsCache (c : Cache) : Type 0 where
  pub within : c.storage.start ≤ length c.storage.inner
  pub short : length c.storage.inner < usize_max
  pub sorted : KeySorted (ordered_slice c.storage)

-- The second cache has the entry, and otherwise those of the first.
pub record Stored (c : Cache) (e : Neighbor) (c' : Cache) : Type 0 where
  pub is_cache : IsCache c'
  pub same_room : length c'.storage.inner ≡ length c.storage.inner
  pub has : view c' e.protocol_addr ≡ some e
  pub keeps : (b : Address) → b ≢ e.protocol_addr → view c' b ≡ view c b

pub store-Stored :
    (c : Cache) (o : Ordered Neighbor) (e : Neighbor)
    → IsCache (record c { storage = o })
    → o.start < length o.inner
    → entry_of (ordered_slice o) e.protocol_addr ≡ none
    → (c' : Cache) × (store c o o.start e ≡ returns (inr c'))
      × Stored (record c { storage = o }) e c'
unfolding store
store-Stored c o e v room absent =
    let filled : Ordered Neighbor = record o { inner = set o.inner o.start e } in
    let there : get_elem? filled.inner filled.start ≡ some e =
      get_elem?-set_self o.inner o.start e room in
    let size : length filled.inner ≡ length o.inner = length-set o.inner o.start e in
    let slice : ordered_slice filled ≡ ordered_slice o = take-set o.inner o.start e in
    let k = place neighbor_cmp (ordered_slice filled) e in
    let within : filled.start ≤ length filled.inner = omega arith in
    let made : Ordered Neighbor = after_push neighbor_cmp filled e in
    let put : ordered_slice made ≡ inserted (ordered_slice filled) k e =
      after_push-inserted neighbor_cmp filled e within there in
    let absent' : entry_of (ordered_slice filled) e.protocol_addr ≡ none =
      ap (λ ns. entry_of ns e.protocol_addr) slice ∙ absent in
    (
      record c { storage = made },
      rw (push_lem neighbor_cmp filled e there) refl,
      record {
        is_cache = record {
          within = omega (arith, after_push-length neighbor_cmp filled e within);
          short = omega (arith, after_push-length neighbor_cmp filled e within, v.short);
          sorted = subst KeySorted (sym put) (
              inserted-KeySorted (ordered_slice filled) e (subst KeySorted (sym slice) v.sorted)
                absent');
        };
        same_room = after_push-length neighbor_cmp filled e within ∙ size;
        has =
            ap (λ ns. entry_of ns e.protocol_addr) put
            ∙ entry_of-inserted_self (ordered_slice filled) k e absent';
        keeps = λ b h.
            ap (λ ns. entry_of ns b) put
            ∙ entry_of-inserted (ordered_slice filled) k e b h
            ∙ ap (λ ns. entry_of ns b) slice;
      },
    )
