-- ===== src/Managed/Slotmap/Keys.antt =====
-- Insertion, lookup and removal in the slot map of ethox/src/managed/slotmap.rs.
use ethox.Base.{
  ℕ, ◌≡◌, ◌≢◌, ◌≤◌, ◌<◌, ◌⊎◌, inl, inr, refl, ap, is_some, Bool-cases, ◌∙◌, sym, Option, none, some,
  returns, List, [], ◌∷◌, length, get_elem?, set, get_elem?-set_ne, get_elem?-set_self, length-set,
  min, ltb, ◌==◌, if◌then◌else◌, true, false, usize_max, arith, Option-cases,
}
use ethox.Managed.Partial
use ethox.Managed.Partial.Lists.{get_lem, push_lem}
use ethox.Managed.Slotmap.{
  Slot, SlotMap, Key, same_key, is_current, generation_of, from_offset, next_free_slot, reserve,
  insert, advance, get, remove,
}
use ethox.Managed.Slotmap.Links.{link_roundtrip}
use ethox.Managed.Slotmap.Free.{
  FreeList-set, FreeList-Absent, FreeList-top, FreeList-top_ne, IsSound, stored, unlinked,
  generation_at-set_self, generation_at-set_ne, stored_lem,
}
use ethox.Managed.Slotmap.Steps.{Found, Found-listed, Found-new, reserved}

below : (a b : ℕ) → (a < b) ⊎ (b ≤ a)
below a b = ground arith

same_or_not : (a b : ℕ) → ((a ≡ b) × ((a == b) ≡ true)) ⊎ ((a ≢ b) × ((a == b) ≡ false))
same_or_not a b = ground arith

no_room :
    (end elements slots : ℕ)
    → end ≡ min elements slots
    → (ltb end elements ≡ false) ⊎ ((ltb end elements ≡ true) × (ltb end slots ≡ false))
no_room end elements slots e = ground arith

module _ {ℓ} {A : Type ℓ} where
  -- A call of `reserve`: either no slot is left, or it gives out a key that was not valid.
  abbrev pub Reserves : SlotMap A → Key → List ℕ → SlotMap A → Type ℓ
  Reserves m key free m' =
      (reserve m ≡ returns (some (key, m')))
      × IsSound m' free
      × (key.generation ≡ m.generation)
      × (stored m key.idx ≡ none)
      × (stored m' key.idx ≡ some m.generation)
      × ((j : ℕ) → key.idx ≢ j → stored m' j ≡ stored m j)
      × (m'.elements ≡ m.elements)
      × (advance m.generation ≡ returns m'.generation)

  reserve-Found :
      (m m₁ : SlotMap A) (i : ℕ) (free : List ℕ)
      → Found m i free m₁
      → (m' : SlotMap A) × Reserves m (record { idx = i; generation = m.generation }) free m'
  unfolding reserve
  reserve-Found m m₁ i free (found, v, same, elements, generation) =
      let (m', (h, v', before, after, others, e, adv)) = reserved m₁ i free v in
      (
        m',
        (
          ground arith,
          v',
          refl,
          ground (arith, same i),
          ground arith,
          (λ j ne. ground (arith, others j ne, same j)),
          ground arith,
          ground arith,
        ),
      )

  reserve-full : (m : SlotMap A) → IsSound m [] → m.slots.end ≡ m.indices → reserve m ≡ returns none
  unfolding reserve next_free_slot
  reserve-full m v full =
      elim (no_room m.slots.end (length m.elements) (length m.slots.inner)
        (full ∙ v.capacity_min)) [
          | inl e ↦ ground (arith, unused, e)
          | inr (e, e') ↦ ground (arith, unused, e, e', push_lem m.slots in_range)
        ]
    where
      unused : Partial.get m.slots m.free_top ≡ none
      unused = ground (arith, get_lem m.slots m.free_top, v.links)

      in_range : m.slots.end < usize_max
      in_range = ground (arith, v.capacity_fits)

  pub reserve-cases :
      (m : SlotMap A) (free : List ℕ)
      → IsSound m free
      → ((reserve m ≡ returns none) × (free ≡ []) × (m.slots.end ≡ m.indices))
        ⊎ ((key : Key) × (free' : List ℕ) × (m' : SlotMap A) × Reserves m key free' m')
  reserve-cases m (i ∷ free) v =
      let (m', r) = reserve-Found m m i free (Found-listed m i free v) in inr (_, free, m', r)
  reserve-cases m [] v = elim (below m.slots.end m.indices) [
    | inl l ↦
        let (m₁, f) = Found-new m v l in
        let (m', r) = reserve-Found m m₁ m.slots.end [] f in inr (_, [], m', r)
    | inr l ↦ inl (reserve-full m v (ground (arith, v.end_fits)), refl, ground (arith, v.end_fits))
  ]

  is_current_lem :
      (m : SlotMap A) (key : Key)
      → is_current m key ≡ elim (stored m key.idx) [ none ↦ false | some g ↦ g == key.generation ]
  unfolding is_current stored
  is_current_lem m key = ground arith

  with_element :
      (m : SlotMap A) (free : List ℕ) (i : ℕ) (value : A)
      → IsSound m free
      → IsSound (record m { elements = set m.elements i value }) free
  with_element m free i value v = record {
    capacity_min = rw (length-set m.elements i value) v.capacity_min;
    capacity_fits = v.capacity_fits;
    end_fits = v.end_fits;
    generation_positive = v.generation_positive;
    links = v.links;
  }

  stored-lt :
      (m : SlotMap A) (free : List ℕ) (i g : ℕ)
      → IsSound m free
      → stored m i ≡ some g
      → i < length m.elements
  stored-lt m free i g v e = ground (arith, stored_lem m i, v.end_fits, v.capacity_min)

  inserted-get :
      (m m' : SlotMap A) (free : List ℕ) (key other : Key) (value : A)
      → IsSound m' free
      → stored m' key.idx ≡ some key.generation
      → stored m key.idx ≡ none
      → (key.idx ≢ other.idx → stored m' other.idx ≡ stored m other.idx)
      → m'.elements ≡ m.elements
      → get (record m' { elements = set m'.elements key.idx value }) other
        ≡ (if same_key key other then some value else get m other)
  unfolding get
  inserted-get m m' free key other value v after before others e =
      elim (same_or_not key.idx other.idx) [
        | inl (eq, t) ↦ ground (
          arith,
          eq,
          t,
          get_elem?-set_self m'.elements key.idx value
              (stored-lt m' free key.idx key.generation v after),
          is_current_lem m other,
          is_current_lem m' other,
        )
        | inr (ne, f) ↦ ground (
          arith,
          f,
          others ne,
          get_elem?-set_ne m'.elements key.idx other.idx value ne,
          is_current_lem m other,
          is_current_lem m' other,
        )
      ]

  -- Insertion into a sound map either finds it full, with every slot of its capacity in use and off the
  -- free list, or gives out a key of the current generation and advances that; then the map is sound again, and a lookup with that key finds the
  -- value, while one with any other key finds what it did before.
  pub insert_lookup :
      (m : SlotMap A) (free : List ℕ) (value : A) (other : Key)
      → IsSound m free
      → ((insert m value ≡ returns none) × (free ≡ []) × (m.slots.end ≡ m.indices))
        ⊎ ((key : Key) × (free' : List ℕ) × (m' : SlotMap A) × (insert m value
              ≡ returns (some (key, m')))
            × IsSound m' free'
            × (key.generation ≡ m.generation)
            × (advance m.generation ≡ returns m'.generation)
            × (get m' other ≡ (if same_key key other then some value else get m other)))
  unfolding insert get
  insert_lookup m free value other v = elim (reserve-cases m free v) [
    | inl (none_left, e, full) ↦ inl (ground arith, e, full)
    | inr (key, free', m', (h, v', g, before, after, others, elements, adv)) ↦
        let lookup =
          inserted-get m m' free' key other value v' (after ∙ ap some (sym g)) before
            (others other.idx) elements in
        inr (
          key,
          free',
          record m' { elements = set m'.elements key.idx value },
          ground arith,
          with_element m' free' key.idx value v',
          g,
          adv,
          lookup,
        )
  ]

  current-stored :
      (m : SlotMap A) (key : Key)
      → is_some (get m key) ≡ true
      → (slot : Slot) × (get_elem? m.slots.inner key.idx ≡ some slot)
        × (generation_of slot.generation_id ≡ some key.generation)
        × (key.idx < m.slots.end)
        × (stored m key.idx ≡ some key.generation)
  unfolding get
  current-stored m key h = elim (Option-cases (Partial.get m.slots key.idx)) [
    | inl e ↦ ground (arith, is_current_lem m key)
    | inr (slot, e) ↦ (
      slot,
      ground (arith, get_lem m.slots key.idx),
      valid slot e,
      ground (arith, get_lem m.slots key.idx),
      unfold stored in ground (arith, valid slot e),
    )
  ]
    where
      valid :
          (slot : Slot)
          → Partial.get m.slots key.idx ≡ some slot
          → generation_of slot.generation_id ≡ some key.generation
      valid slot e = unfold is_current in ground arith

  removed-get :
      (m m' : SlotMap A) (key other : Key)
      → stored m key.idx ≡ some key.generation
      → stored m' key.idx ≡ none
      → (key.idx ≢ other.idx → stored m' other.idx ≡ stored m other.idx)
      → m'.elements ≡ m.elements
      → get m' other ≡ (if same_key key other then none else get m other)
  unfolding get
  removed-get m m' key other before after others e = elim (same_or_not key.idx other.idx) [
    | inl (eq, t) ↦ ground (arith, eq, t, is_current_lem m other, is_current_lem m' other)
    | inr (ne, f) ↦ ground (arith, f, others ne, is_current_lem m other, is_current_lem m' other)
  ]

  remove-current :
      (m : SlotMap A) (free : List ℕ) (key : Key)
      → IsSound m free
      → is_some (get m key) ≡ true
      → (m' : SlotMap A) × (remove m key ≡ returns (some (key.idx, m')))
        × IsSound m' (key.idx ∷ free)
        × (stored m' key.idx ≡ none)
        × ((j : ℕ) → key.idx ≢ j → stored m' j ≡ stored m j)
        × (m'.elements ≡ m.elements)
        × (m'.generation ≡ m.generation)
  unfolding remove Partial.put
  remove-current m free key v h =
      let (slot, e, g, l, before) = current-stored m key h in
      let absent =
        FreeList-Absent m.indices m.slots.inner m.slots.end m.free_top key.idx key.generation slot
          free e g v.links in
      let top = FreeList-top m.indices m.slots.inner m.slots.end m.free_top free v.links in
      let absent_top =
        FreeList-top_ne m.indices m.slots.inner m.slots.end m.free_top key.idx free absent l
          v.links in
      let (offset, made, read, back) =
        link_roundtrip m.indices key.idx m.free_top v.capacity_fits (ground (arith, v.end_fits))
          (ground (arith, v.end_fits)) absent_top in
      (
        freed offset,
        ground (arith, get_lem m.slots key.idx, v.end_fits, v.capacity_min),
        record {
          capacity_min = rw (length-set m.slots.inner key.idx (now offset)) v.capacity_min;
          capacity_fits = v.capacity_fits;
          end_fits = v.end_fits;
          generation_positive = v.generation_positive;
          links = (
            refl,
            l,
            absent,
            (
              offset,
              m.free_top,
              get_elem?-set_self m.slots.inner key.idx (now offset)
                  (ground (arith, v.end_fits, v.capacity_min)),
              back,
              FreeList-set m.indices m.slots.inner m.slots.end m.free_top key.idx (now offset) free
                  absent v.links,
            ),
          );
        },
        ground (
          arith,
          stored_lem (freed offset) key.idx,
          unlinked offset,
          generation_at-set_self m.slots.inner key.idx (now offset),
          v.end_fits,
          v.capacity_min,
        ),
        (λ j ne. ground (
          arith,
          stored_lem m j,
          stored_lem (freed offset) j,
          generation_at-set_ne m.slots.inner key.idx j (now offset) ne,
        )),
        refl,
        refl,
      )
    where
      now : ℕ → Slot
      now offset = record { generation_id = from_offset offset }

      freed : ℕ → SlotMap A
      freed offset = record m {
        slots = record (m.slots) { inner = set m.slots.inner key.idx (now offset) };
        free_top = key.idx;
      }

  -- Removal from a sound map fails exactly for a key that finds nothing; otherwise the map is sound again,
  -- the slot is the first on the free list, and the key finds nothing any more, while any other key
  -- finds what it did before.
  pub remove_lookup :
      (m : SlotMap A) (free : List ℕ) (key other : Key)
      → IsSound m free
      → ((get m key ≡ none) × (remove m key ≡ returns none))
        ⊎ ((m' : SlotMap A) × (is_some (get m key) ≡ true)
            × (remove m key ≡ returns (some (key.idx, m')))
            × IsSound m' (key.idx ∷ free)
            × (m'.generation ≡ m.generation)
            × (get m' other ≡ (if same_key key other then none else get m other)))
  remove_lookup m free key other v = elim (Bool-cases (is_some (get m key))) [
    | inl h ↦
        let (slot, e, g, l, before) = current-stored m key h in
        let (m', r, v', after, others, elements, same) = remove-current m free key v h in
        inr
          (m', h, r, v', same, removed-get m m' key other before after (others other.idx) elements)
    | inr h ↦ inl (none_of (get m key) h, unfold remove in ground arith)
  ]
    where
      none_of : (o : Option A) → is_some o ≡ false → o ≡ none
      none_of none h = refl
      none_of (some a) h = cc
