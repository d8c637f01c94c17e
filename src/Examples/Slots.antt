-- ===== src/Examples/Slots.antt =====
-- The slot map of ethox/src/managed/slotmap.rs on two slots.
use ethox.Base.{
  ℕ, ◌≡◌, ◌⊎◌, refl, true, none, some, is_some, returns, List, [], ◌∷◌, arith, if◌then◌else◌, pos,
}
use ethox.Managed.Partial
use ethox.Managed.Slotmap.{
  Slot, SlotMap, Key, same_key, free_list_next, advance, get, reserve, reserve_at, next_free_slot,
  insert, remove,
}
use ethox.Managed.Slotmap.Free.{IsSound}
use ethox.Managed.Slotmap.Keys.{insert_lookup, remove_lookup}
use ethox.Managed.Slotmap.Stale.{here, inserts, stale_key}

abbrev unlinked_slot : Slot
unlinked_slot = record { generation_id = pos 0 }

-- A map of which 42 was inserted and removed again.
abbrev emptied : SlotMap ℕ
emptied = record {
  elements = 42 ∷ 0 ∷ [];
  slots = record { inner = unlinked_slot ∷ unlinked_slot ∷ []; end = 1 };
  generation = 2;
  free_top = 0;
  indices = 2;
}

emptied-IsSound : IsSound emptied (0 ∷ [])
emptied-IsSound = record {
  capacity_min = refl;
  capacity_fits = omega arith;
  end_fits = omega arith;
  generation_positive = omega arith;
  links = (refl, omega arith, tt, (0, 1, refl, unfold free_list_next in refl, refl));
}

-- Its free list.
abbrev one_free : List ℕ
one_free = 0 ∷ []

-- The key of 42, and that of what is inserted next.
abbrev old_key : Key
old_key = record { idx = 0; generation = 1 }

abbrev new_key : Key
new_key = record { idx = 0; generation = 2 }

-- The map after 9 is inserted.
abbrev refilled : SlotMap ℕ
refilled = record {
  elements = 9 ∷ 0 ∷ [];
  slots = record { inner = record { generation_id = pos 2 } ∷ unlinked_slot ∷ []; end = 1 };
  generation = 3;
  free_top = 1;
  indices = 2;
}

refilling : insert emptied 9 ≡ returns (some (new_key, refilled))
unfolding insert reserve next_free_slot Partial.get reserve_at Partial.put free_list_next advance
refilling = refl

refilled-IsSound : IsSound refilled []
refilled-IsSound = record {
  capacity_min = refl;
  capacity_fits = omega arith;
  end_fits = omega arith;
  generation_positive = omega arith;
  links = refl;
}

insert_lookup_example :
    ((insert emptied 9 ≡ returns none) × (one_free ≡ []) × (emptied.slots.end ≡ emptied.indices))
    ⊎ ((key : Key) × (free' : List ℕ) × (m' : SlotMap ℕ) × (insert emptied 9
          ≡ returns (some (key, m')))
        × IsSound m' free'
        × (key.generation ≡ emptied.generation)
        × (advance emptied.generation ≡ returns m'.generation)
        × (get m' new_key ≡ (if same_key key new_key then some 9 else get emptied new_key)))
insert_lookup_example = insert_lookup emptied one_free 9 new_key emptied-IsSound

remove_lookup_example :
    ((get refilled new_key ≡ none) × (remove refilled new_key ≡ returns none))
    ⊎ ((m' : SlotMap ℕ) × (is_some (get refilled new_key) ≡ true)
        × (remove refilled new_key ≡ returns (some (0, m')))
        × IsSound m' (0 ∷ [])
        × (m'.generation ≡ refilled.generation)
        × (get m' new_key ≡ (if same_key new_key new_key then none else get refilled new_key)))
remove_lookup_example = remove_lookup refilled [] new_key new_key refilled-IsSound

stale_key_example : get refilled old_key ≡ none
stale_key_example =
    stale_key emptied refilled (0 ∷ []) old_key emptied-IsSound (omega arith) (unfold get in refl)
      (inserts 9 here (omega arith) refilling)
