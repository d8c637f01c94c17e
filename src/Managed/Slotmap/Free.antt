-- ===== src/Managed/Slotmap/Free.antt =====
-- The free list of the slot map in ethox/src/managed/slotmap.rs, as the list of the slots on it.
use ethox.Base.{
  ℕ, zero, suc, ◌∙◌, ◌≡◌, ◌≢◌, ◌≤◌, ◌<◌, refl, Option, none, some, returns, List, [], ◌∷◌, length,
  get_elem?, set, get_elem?-set_ne, get_elem?-set_self, min, ltb, if◌then◌else◌, isize_max, arith,
}
use ethox.Managed.Partial
use ethox.Managed.Partial.{Partial}
use ethox.Managed.Partial.Lists.{get_lem}
use ethox.Managed.Slotmap.{Slot, SlotMap, generation_of, free_link, from_offset, free_list_next}

abbrev pub Absent : ℕ → List ℕ → Type 0
Absent i [] = Unit
Absent i (j ∷ js) = (i ≢ j) × Absent i js

-- From `top` on, the links lead through the slots of the list, each once, to the end of the slots.
abbrev pub FreeList : ℕ → List Slot → ℕ → ℕ → List ℕ → Type 0
FreeList capacity inner end top [] = top ≡ end
FreeList capacity inner end top (i ∷ is) =
    (top ≡ i)
    × (i < end)
    × Absent i is
    × ((offset : ℕ) × (following : ℕ) × (get_elem? inner i
          ≡ some (record { generation_id = from_offset offset }))
        × (free_list_next capacity i offset ≡ returns following)
        × FreeList capacity inner end following is)

-- Slots that are not on the list can change.
pub FreeList-set :
    (capacity : ℕ) (inner : List Slot) (end top k : ℕ) (v : Slot) (is : List ℕ)
    → Absent k is
    → FreeList capacity inner end top is
    → FreeList capacity (set inner k v) end top is
FreeList-set capacity inner end top k v [] a f = f
FreeList-set capacity inner end top k v (i ∷ is) (ne, a)
      (t, l, once, (offset, following, e, n, f)) =
    (
      t,
      l,
      once,
      (
        offset,
        following,
        get_elem?-set_ne inner k i v ne ∙ e,
        n,
        FreeList-set capacity inner end following k v is a f,
      ),
    )

-- A slot with a generation is not on the list.
pub FreeList-Absent :
    (capacity : ℕ) (inner : List Slot) (end top k g : ℕ) (slot : Slot) (is : List ℕ)
    → get_elem? inner k ≡ some slot
    → generation_of slot.generation_id ≡ some g
    → FreeList capacity inner end top is
    → Absent k is
FreeList-Absent capacity inner end top k g slot [] e p f = tt
FreeList-Absent capacity inner end top k g slot (i ∷ is) e p
      (t, l, once, (offset, following, e', n, f)) =
    (λ q. unused offset (clash q), FreeList-Absent capacity inner end following k g slot is e p f)
  where
    unused : (n : ℕ) → generation_of (from_offset n) ≢ some g
    unused zero = λ q. cc
    unused (suc n) = λ q. cc

    clash : k ≡ i → generation_of (from_offset offset) ≡ some g
    clash q = ground arith

pub FreeList-top :
    (capacity : ℕ) (inner : List Slot) (end top : ℕ) (is : List ℕ)
    → FreeList capacity inner end top is
    → top ≤ end
FreeList-top capacity inner end top [] f = ground arith
FreeList-top capacity inner end top (i ∷ is) f = ground arith

pub FreeList-top_ne :
    (capacity : ℕ) (inner : List Slot) (end top k : ℕ) (is : List ℕ)
    → Absent k is
    → k < end
    → FreeList capacity inner end top is
    → k ≢ top
FreeList-top_ne capacity inner end top k [] a l f = ground arith
FreeList-top_ne capacity inner end top k (i ∷ is) (ne, a) l (t, b, once, rest) = λ q. ne (q ∙ t)

pub unlinked : (n : ℕ) → generation_of (from_offset n) ≡ none
unlinked zero = refl
unlinked (suc n) = refl

pub linked : (n : ℕ) → free_link (from_offset n) ≡ some n
linked zero = refl
linked (suc n) = refl

abbrev pub generation_at : List Slot → ℕ → Option ℕ
generation_at slots i = elim (get_elem? slots i) [
  | none ↦ none
  | some slot ↦ generation_of slot.generation_id
]

pub generation_at-set_self :
    (slots : List Slot) (k : ℕ) (slot : Slot)
    → k < length slots
    → generation_at (set slots k slot) k ≡ generation_of slot.generation_id
generation_at-set_self slots k slot h = ground (arith, get_elem?-set_self slots k slot h)

pub generation_at-set_ne :
    (slots : List Slot) (k j : ℕ) (slot : Slot)
    → k ≢ j
    → generation_at (set slots k slot) j ≡ generation_at slots j
generation_at-set_ne slots k j slot h = ground (arith, get_elem?-set_ne slots k j slot h)

module _ {ℓ} {A : Type ℓ} where
  pub record IsSound (m : SlotMap A) (free : List ℕ) : Type ℓ where
    pub capacity_min : m.indices ≡ min (length m.elements) (length m.slots.inner)
    pub capacity_fits : m.indices < isize_max
    pub end_fits : m.slots.end ≤ m.indices
    pub generation_positive : 0 < m.generation
    pub links : FreeList m.indices m.slots.inner m.slots.end m.free_top free

  -- What the slots record: the generation of the key that is valid for a slot.
  unfoldable pub stored : SlotMap A → ℕ → Option ℕ
  stored m i = elim (Partial.get m.slots i) [
    | none ↦ none
    | some slot ↦ generation_of slot.generation_id
  ]

  pub stored_lem :
      (m : SlotMap A) (i : ℕ)
      → stored m i ≡ (if ltb i m.slots.end then generation_at m.slots.inner i else none)
  unfolding stored
  stored_lem m i = ground (arith, get_lem m.slots i)
