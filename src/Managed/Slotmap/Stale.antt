-- ===== src/Managed/Slotmap/Stale.antt =====
-- Keys of the slot map in ethox/src/managed/slotmap.rs over any sequence of insertions and removals.
use ethox.Base.{
  ℕ, ◌≡◌, ◌<◌, ◌∙◌, subst, Bool, true, inl, inr, refl, Option, none, some, returns, List, [], ◌∷◌,
  isize_max, arith, length, min, if◌then◌else◌, false,
}
use ethox.Managed.Slotmap.{
  Slot, SlotMap, Key, same_key, new, from_capacity, advance, insert, get, remove,
}
use ethox.Managed.Slotmap.Free.{IsSound}
use ethox.Managed.Slotmap.Keys.{insert_lookup, remove_lookup}

module _ {ℓ} {A : Type ℓ} where
  -- Successful insertions and removals, in any order, while the generation counter does not overflow.
  pub data Calls (m : SlotMap A) : SlotMap A → Type ℓ where
    here : Calls m m
    inserts :
        {m₁ m₂ : SlotMap A} {key : Key} (value : A)
        → Calls m m₁
        → m₁.generation < isize_max
        → insert m₁ value ≡ returns (some (key, m₂))
        → Calls m m₂
    removes :
        {m₁ m₂ : SlotMap A} {i : ℕ} (key : Key)
        → Calls m m₁
        → remove m₁ key ≡ returns (some (i, m₂))
        → Calls m m₂

  -- What stays true of a key that was given out and is no longer valid.
  abbrev IsStale : SlotMap A → Key → Type ℓ
  IsStale m key =
      ((free : List ℕ) × IsSound m free) × (key.generation < m.generation) × (get m key ≡ none)

  missing : (b : Bool) (o : Option A) → o ≡ none → (if b then none else o) ≡ none
  missing true o e = refl
  missing false o e = e

  insert-IsStale :
      (m m' : SlotMap A) (key stale : Key) (value : A)
      → m.generation < isize_max
      → IsStale m stale
      → insert m value ≡ returns (some (key, m'))
      → IsStale m' stale
  insert-IsStale m m' key stale value l ((free, v), old, gone) h =
      elim (insert_lookup m free value stale v) [
        | inl (full, _, _) ↦ absurd (ground arith)
        | inr (key', free', m'', h', v', g, adv, got) ↦
            let newer : stale.generation < m''.generation = unfold advance in ground arith in
            let other : same_key key' stale ≡ false = ground arith in
            let still : get m'' stale ≡ none = got ∙ rw other gone in
            let same : m'' ≡ m' = ground arith in
            subst (λ x. IsStale x stale) same ((free', v'), newer, still)
      ]

  remove-IsStale :
      (m m' : SlotMap A) (key stale : Key) (i : ℕ)
      → IsStale m stale
      → remove m key ≡ returns (some (i, m'))
      → IsStale m' stale
  remove-IsStale m m' key stale i ((free, v), old, gone) h =
      elim (remove_lookup m free key stale v) [
        | inl (_, failed) ↦ absurd (ground arith)
        | inr (m'', found, h', v', same, got) ↦
            let older : stale.generation < m''.generation = ground arith in
            let still : get m'' stale ≡ none =
              got ∙ missing (same_key key stale) (get m stale) gone in
            let same_map : m'' ≡ m' = ground arith in
            subst (λ x. IsStale x stale) same_map ((key.idx ∷ free, v'), older, still)
      ]

  stays-IsStale : {m m' : SlotMap A} (key : Key) → IsStale m key → Calls m m' → IsStale m' key
  stays-IsStale key s here = s
  stays-IsStale {m} {m'} key s (inserts {m₁ = m₁} {key = k} value calls l h) =
      insert-IsStale m₁ m' k key value l (stays-IsStale key s calls) h
  stays-IsStale {m} {m'} key s (removes {m₁ = m₁} {i = i} k calls h) =
      remove-IsStale m₁ m' k key i (stays-IsStale key s calls) h

  -- A key of an earlier generation that finds nothing never finds anything again, whatever is inserted
  -- and removed later, as long as the generation counter does not overflow.
  pub stale_key :
      (m m' : SlotMap A) (free : List ℕ) (key : Key)
      → IsSound m free
      → key.generation < m.generation
      → get m key ≡ none
      → Calls m m'
      → get m' key ≡ none
  stale_key m m' free key v old gone calls =
      let (_, _, none_again) = stays-IsStale key ((free, v), old, gone) calls in none_again

  -- A new map is sound if its capacity is an `isize`, with an empty free list.
  pub new-IsSound :
      (elements : List A) (slots : List Slot)
      → min (length elements) (length slots) < isize_max
      → (m : SlotMap A) × (new elements slots ≡ returns m) × IsSound m []
  unfolding new from_capacity
  new-IsSound elements slots h = (
    made,
    ground arith,
    record {
      capacity_min = refl;
      capacity_fits = h;
      end_fits = ground arith;
      generation_positive = ground arith;
      links = refl;
    },
  )
    where
      made : SlotMap A
      made = record {
        elements = elements;
        slots = record { inner = slots; end = 0 };
        generation = 1;
        free_top = 0;
        indices = min (length elements) (length slots);
      }
