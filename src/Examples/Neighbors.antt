-- ===== src/Examples/Neighbors.antt =====
-- A full cache of ethox/src/layer/arp/neighbor.rs with two neighbors, which takes a third one.
use ethox.Base.{◌≡◌, ◌⊎◌, inl, inr, refl, none, some, returns, [], ◌∷◌, arith, if◌then◌else◌}
use ethox.Time.{at, never, from_millis, cmp, expiration_ge, after, as_millis}
use ethox.Wire.Repr.{ipv4, ipv6}
use ethox.Wire.Ip.{is_broadcast}
use ethox.Wire.Ip.V4
use ethox.Managed.Ordered.{ordered_slice}
use ethox.Layer.Neighbor.{
  Neighbor, Cache, Error, hardware, looking_for, new_neighbor, expiry, update_or_insert, fill,
  lookup,
}
use ethox.Layer.Neighbor.Stored.{IsCache}
use ethox.Layer.Neighbor.Filled.{Answered, update_or_insert-Answered}
use ethox.Layer.Neighbor.Lookup.{fill-lookup}

abbrev one : Neighbor
one = record {
  protocol_addr = ipv4 1;
  hardware_addr = hardware 11;
  expires_at = at (from_millis 700);
}

abbrev two : Neighbor
two = record { protocol_addr = ipv6 2; hardware_addr = looking_for; expires_at = never }

abbrev full : Cache
full = record {
  storage = record { inner = one ∷ two ∷ []; start = 2 };
  silent_until = from_millis 0;
}

full-IsCache : IsCache full
full-IsCache = record {
  within = omega arith;
  short = omega arith;
  sorted = (inl (omega arith), (tt, tt));
}

update_or_insert-Answered_example :
    (r : Error ⊎ Cache) × (update_or_insert full (ipv4 9) (hardware 99) (some (from_millis 800))
      ≡ returns r)
    × Answered full
        (new_neighbor (ipv4 9) (hardware 99) (some (from_millis 800)))
        (some (from_millis 800))
        r
update_or_insert-Answered_example =
    update_or_insert-Answered full (ipv4 9) (hardware 99) (some (from_millis 800)) full-IsCache

-- The first of the two goes.
abbrev filled : Cache
filled = record {
  storage = record {
    inner =
        record {
          protocol_addr = ipv4 9;
          hardware_addr = hardware 99;
          expires_at = at (from_millis 60800);
        }
        ∷ two
        ∷ [];
    start = 2;
  };
  silent_until = from_millis 0;
}

fills : fill full (ipv4 9) 99 (some (from_millis 800)) ≡ returns (inr filled)
unfolding fill expiry after as_millis cmp
fills = refl

fill-lookup_example : lookup (ordered_slice filled.storage) (ipv4 9) (from_millis 900) ≡ (
    if expiration_ge (at (from_millis 900)) (expiry (some (from_millis 800)))
    then none
    else some (hardware 99))
unfolding is_broadcast V4.is_broadcast
fill-lookup_example =
    fill-lookup full filled (ipv4 9) 99 (some (from_millis 800)) (from_millis 900) full-IsCache refl
      fills
