-- ===== src/Managed/Slotmap.antt =====
-- `SlotMap` of ethox/src/managed/slotmap.rs: elements with keys that a removal makes stale. A method
-- that returns a mutable reference to an element returns the index that it refers to.
pub mod Links
pub mod Free
pub mod Steps
pub mod Keys
pub mod Stale
use ethox.Base.{
  ℕ, zero, suc, ◌+◌, ◌-◌, ◌%◌, ◌^◌, Option, none, some, Bool, not, ◌&&◌, Outcome, returns, panics,
  ensure, ◌>>=◌, ◌>>◌, List, length, get_elem?, set, min, max, ltb, leb, ◌==◌, if◌then◌else◌,
  is_some, usize_max, isize_max, ℤ, pos, negsuc,
}
use ethox.Managed.Partial
use ethox.Managed.Partial.{Partial}

-- `Slot`, whose only field `GenerationOrFreelink` is an `isize`: a generation if it is positive, and
-- else the negative of the offset to the next free slot.
pub record Slot : Type 0 where
  pub generation_id : ℤ

pub record SlotMap {ℓ} (A : Type ℓ) : Type ℓ where
  pub elements : List A
  pub slots : Partial Slot
  pub generation : ℕ
  pub free_top : ℕ
  -- `IndexComputer`, the capacity
  pub indices : ℕ

pub record Key : Type 0 where
  pub idx : ℕ
  pub generation : ℕ

-- `none` is `Err(generation)`; an `Offset` is given by its magnitude.
abbrev pub free_link : ℤ → Option ℕ
free_link (pos zero) = some 0
free_link (pos (suc n)) = none
free_link (negsuc n) = some (suc n)

-- `none` is `Err(offset)`.
abbrev pub generation_of : ℤ → Option ℕ
generation_of (pos zero) = none
generation_of (pos (suc n)) = some (suc n)
generation_of (negsuc n) = none

-- `From<Generation>` and `From<Offset>` for `GenerationOrFreelink`.
abbrev pub from_generation : ℕ → ℤ
from_generation g = pos g

abbrev pub from_offset : ℕ → ℤ
from_offset zero = pos 0
from_offset (suc n) = negsuc n

-- `IndexComputer::from_capacity`
unfoldable pub from_capacity : ℕ → Outcome ℕ
from_capacity capacity = do ensure (ltb capacity isize_max); returns capacity

unfoldable pub free_list_next : ℕ → ℕ → ℕ → Outcome ℕ
free_list_next capacity base offset = do
  ensure (ltb base capacity)
  ensure (leb offset capacity)
  let next = base + 1
  returns (
      if leb next (capacity - offset)
      then offset + next
      else ((offset + next) % 2 ^ 64 + 2 ^ 64 - (capacity + 1)) % 2 ^ 64)

-- With the assertion of `Offset::from_int_offset`.
unfoldable pub free_list_offset : ℕ → ℕ → ℕ → Outcome ℕ
free_list_offset capacity base to = do
  ensure (not (base == to))
  ensure (ltb base capacity)
  ensure (leb to capacity)
  let next = base + 1
  let offset =
      if leb next to then to - next else ((to + (capacity + 1)) % 2 ^ 64 + 2 ^ 64 - next) % 2 ^ 64
  ensure (ltb offset isize_max)
  returns offset

-- `Generation::advance`: `wrapping_add(1).max(1)` of a positive `isize`.
unfoldable pub advance : ℕ → Outcome ℕ
advance g = do ensure (ltb 0 g); returns (if g == isize_max then 1 else g + 1)

module _ {ℓ} {A : Type ℓ} where
  unfoldable pub new : List A → List Slot → Outcome (SlotMap A)
  unfolding from_capacity
  new elements slots = do
    capacity ← from_capacity (min (length elements) (length slots))
    returns (record {
      elements = elements;
      slots = Partial.new slots;
      generation = 1;
      free_top = 0;
      indices = capacity;
    })

  -- The guards of `get`, `get_mut` and `remove`.
  unfoldable pub is_current : SlotMap A → Key → Bool
  unfolding Partial.get
  is_current m key = elim (Partial.get m.slots key.idx) [
    | none ↦ Bool.false
    | some slot ↦ elim (generation_of slot.generation_id) [
      | none ↦ Bool.false
      | some g ↦ g == key.generation
    ]
  ]

  unfoldable pub get : SlotMap A → Key → Option A
  unfolding is_current
  get m key = if is_current m key then get_elem? m.elements key.idx else none

  unfoldable pub get_mut : SlotMap A → Key → Option ℕ
  unfolding is_current
  get_mut m key = if is_current m key && ltb key.idx (length m.elements) then some key.idx else none

  unfoldable pub next_free_slot : SlotMap A → Outcome (Option (ℕ × SlotMap A))
  next_free_slot m = elim (Partial.get m.slots m.free_top) [
    | some _ ↦ returns (if ltb m.free_top (length m.elements) then some (m.free_top, m) else none)
    | none ↦
        let new_index = m.slots.end in
        if not (ltb new_index (length m.elements)) then returns none else (do
          pushed ← Partial.push m.slots
          elim pushed [
            | none ↦ returns none
            | some (at, slots) ↦ do
              ensure (ltb new_index usize_max)
              offset ← free_list_offset m.indices new_index (new_index + 1)
              let linked = record slots {
                inner = set slots.inner at (record { generation_id = from_offset offset });
              }
              returns (some (new_index, record m { slots = linked; free_top = new_index }))
          ])
  ]

  unfoldable pub init : SlotMap A → Outcome (Option (ℕ × SlotMap A))
  init m = next_free_slot m

  -- `reserve` behind its early return.
  unfoldable pub reserve_at : SlotMap A → ℕ → Outcome (Option (Key × SlotMap A))
  reserve_at m index = elim (Partial.get m.slots index) [
    | none ↦ panics
    | some slot ↦ elim (free_link slot.generation_id) [
      | none ↦ panics
      | some offset ↦ do
        ensure (ltb index (length m.elements))
        slots ← Partial.put m.slots index (record { generation_id = from_generation m.generation })
        free_top ← free_list_next m.indices index offset
        generation ← advance m.generation
        returns (
            some (
              record { idx = index; generation = m.generation },
              record m { slots = slots; free_top = free_top; generation = generation },
            ))
    ]
  ]

  unfoldable pub reserve : SlotMap A → Outcome (Option (Key × SlotMap A))
  reserve m = do
    free ← next_free_slot m
    elim free [ none ↦ returns none | some (index, m') ↦ reserve_at m' index ]

  unfoldable pub insert : SlotMap A → A → Outcome (Option (Key × SlotMap A))
  insert m value = do
    reserved ← reserve m
    elim reserved [
      | none ↦ returns none
      | some (key, m') ↦
          returns (some (key, record m' { elements = set m'.elements key.idx value }))
    ]

  unfoldable pub remove : SlotMap A → Key → Outcome (Option (ℕ × SlotMap A))
  unfolding get
  remove m key = if not (is_some (get m key)) then returns none else (do
    offset ← free_list_offset m.indices key.idx m.free_top
    slots ← Partial.put m.slots key.idx (record { generation_id = from_offset offset })
    ensure (ltb key.idx (length m.elements))
    returns (some (key.idx, record m { slots = slots; free_top = key.idx })))

-- `PartialEq` of `Key`
abbrev pub same_key : Key → Key → Bool
same_key a b = a.idx == b.idx && a.generation == b.generation
