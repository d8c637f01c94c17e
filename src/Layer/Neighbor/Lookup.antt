-- ===== src/Layer/Neighbor/Lookup.antt =====
-- Looking up an address in the table of ethox/src/layer/arp/neighbor.rs, also after the cache was filled.
use ethox.Base.{
  ℕ, ◌≡◌, ◌⊎◌, inl, inr, refl, ap, subst, ◌∙◌, Option, none, some, returns, List, get_elem?, false,
  if◌then◌else◌,
}
use ethox.Time.{Instant, at, expiration_ge}
use ethox.Wire.Repr.{Address}
use ethox.Wire.Ip.{is_broadcast}
use ethox.Managed.Ordered.{ordered_slice}
use ethox.Layer.Neighbor.{
  Neighbor, Mapping, hardware, Cache, Error, new_neighbor, expiry, fill, lookup, search,
}
use ethox.Layer.Neighbor.Keys.{KeySorted, entry_of, Found, search-Found}
use ethox.Layer.Neighbor.Stored.{view, IsCache}
use ethox.Layer.Neighbor.Filled.{Answered, update_or_insert-Answered}

-- What an entry tells at a time.
abbrev pub told : Instant → Option Neighbor → Option Mapping
told t none = none
told t (some e) = if expiration_ge (at t) e.expires_at then none else some e.hardware_addr

lookup_lem :
    (ns : List Neighbor) (a : Address) (t : Instant)
    → KeySorted ns
    → is_broadcast a ≡ false
    → lookup ns a t ≡ told t (entry_of ns a)
unfolding lookup
lookup_lem ns a t h b = rw b (go (search ns a) (search-Found ns a h))
  where
    go :
        (r : ℕ ⊎ ℕ)
        → Found ns a r
        → (elim r [
          | inl i ↦ elim (get_elem? ns i) [
            | none ↦ none
            | some e ↦ if expiration_ge (at t) e.expires_at then none else some e.hardware_addr
          ]
          | inr _ ↦ none
        ])
          ≡ told t (entry_of ns a)
    go (inl i) (n, at_i, same, there) = rw (at_i, there) refl
    go (inr i) absent = rw absent refl

-- An entry that takes no request back is in the cache that is left.
has-entry :
    (c c' : Cache) (e : Neighbor) (t : Option Instant) (r : Error ⊎ Cache) (hw : ℕ)
    → e.hardware_addr ≡ hardware hw
    → r ≡ inr c'
    → Answered c e t r
    → IsCache c' × (view c' e.protocol_addr ≡ some e)
has-entry c c' e t _ hw k same (Answered.left old there x y z) = absurd cc
has-entry c c' e t _ hw k same (Answered.updated old c'' there _ s) =
    let f : c'' ≡ c' = cc in
    (subst IsCache f s.is_cache, subst (λ d. view d e.protocol_addr ≡ some e) f s.has)
has-entry c c' e t _ hw k same (Answered.added c'' there room s) =
    let f : c'' ≡ c' = cc in
    (subst IsCache f s.is_cache, subst (λ d. view d e.protocol_addr ≡ some e) f s.has)
has-entry c c' e t _ hw k same (Answered.evicted old w c'' x1 x2 x3 x4 x5 x6 x7 s) =
    let f : c'' ≡ c' = cc in
    (subst IsCache f s.is_cache, subst (λ d. view d e.protocol_addr ≡ some e) f s.has)
has-entry c c' e t _ hw k same (Answered.outlived x y z) = absurd cc
has-entry c c' e t _ hw k same (Answered.no_room x) = absurd cc

-- An address of the hardware that was filled into a sound cache is found until the entry expires, and nothing after.
pub fill-lookup :
    (c c' : Cache) (a : Address) (hw : ℕ) (t : Option Instant) (later : Instant)
    → IsCache c
    → is_broadcast a ≡ false
    → fill c a hw t ≡ returns (inr c')
    → lookup (ordered_slice c'.storage) a later
      ≡ (if expiration_ge (at later) (expiry t) then none else some (hardware hw))
unfolding fill
fill-lookup c c' a hw t later v b e =
    let (r, returned, answered) = update_or_insert-Answered c a (hardware hw) t v in
    let same : r ≡ inr c' = cc in
    let (sound, there) =
      has-entry c c' (new_neighbor a (hardware hw) t) t r hw refl same answered in
    lookup_lem (ordered_slice c'.storage) a later sound.sorted b ∙ ap (told later) there
