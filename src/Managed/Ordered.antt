-- ===== src/Managed/Ordered.antt =====
-- `Ordered` of ethox/src/managed/ordered.rs: the first `start` elements of `inner` are in use, and in order.
-- The order is an argument, and so stands for the `Ord` of the element.
pub mod Sorted
pub mod Kept
pub mod Pushed
pub mod Reached
use ethox.Base.{
  ℕ, suc, ◌+◌, ◌-◌, ◌%◌, ◌^◌, Bool, Option, none, some, ◌⊎◌, inl, inr, Ordering, Outcome, returns,
  ensure, ◌>>=◌, ◌>>◌, List, [], ◌∷◌, ◌++◌, length, get_elem?, take, drop, set, ltb, ◌==◌, ◌&&◌,
  if◌then◌else◌, usize_max,
}
use ethox.Managed.Partial.{rotate_left, rotate_right, on_range}

pub record Ordered {ℓ} (A : Type ℓ) : Type ℓ where
  pub inner : List A
  pub start : ℕ

-- `<=`, derived from `cmp`.
abbrev pub at_most : Ordering → Bool
at_most Ordering.lt = Bool.true
at_most Ordering.eq = Bool.true
at_most Ordering.gt = Bool.false

abbrev pub next_place : ℕ ⊎ ℕ → ℕ ⊎ ℕ
next_place (inl i) = inl (suc i)
next_place (inr i) = inr (suc i)

-- `unwrap_or_else(|x| x)`
abbrev pub either : ℕ ⊎ ℕ → ℕ
either (inl i) = i
either (inr i) = i

module _ {ℓ} {A : Type ℓ} where
  abbrev pub new : List A → Ordered A
  new slice = record { inner = slice; start = 0 }

  -- The index of the element.
  unfoldable pub init : Ordered A → Option ℕ
  init o = if ltb o.start (length o.inner) then some o.start else none

  -- The source panics if more is in use than there is, which no operation brings about.
  abbrev pub ordered_slice : Ordered A → List A
  ordered_slice o = take o.start o.inner

  abbrev pub get : Ordered A → ℕ → Option A
  get o idx = get_elem? (ordered_slice o) idx

  -- `slice::binary_search_by` of the core library, on a slice in the order of `f`: `Ok` of the index of an
  -- element that is equal, or else `Err` of where one would be inserted. Of several that are equal the core library
  -- leaves open which one; here it is the first.
  abbrev pub binary_search_by : List A → (A → Ordering) → ℕ ⊎ ℕ
  binary_search_by [] f = inr 0
  binary_search_by (x ∷ xs) f =
      let rest = next_place (binary_search_by xs f) in
      elim (f x) [ Ordering.lt ↦ rest | Ordering.eq ↦ inl 0 | Ordering.gt ↦ inr 0 ]

  unfoldable pub push : (A → A → Ordering) → Ordered A → Option (ℕ × Ordered A)
  push cmp o = elim (get_elem? o.inner o.start) [
    | none ↦ none
    | some next ↦
        let idx = either (binary_search_by (ordered_slice o) (λ x. cmp x next)) in
        let moving = o.start - idx in
        some (
          idx,
          record {
            inner = on_range o.inner idx (o.start + 1) (λ range. rotate_left range moving);
            start = o.start + 1;
          },
        )
  ]

  -- Both subtractions are checked.
  unfoldable pub pop : Ordered A → ℕ → Option (Ordered A)
  pop o idx =
      if ltb idx o.start
      then (let moving = o.start - idx - 1 in
          some record {
            inner = on_range o.inner idx o.start (λ range. rotate_right range moving);
            start = o.start - 1;
          })
      else none

  -- `mutable.get(idx).map_or(true, test)`
  abbrev pub holds_at : List A → ℕ → (A → Bool) → Bool
  holds_at xs idx test = elim (get_elem? xs idx) [ none ↦ Bool.true | some x ↦ test x ]

  -- The element that was there before. `wrapping_sub` and `wrapping_add` are those of `usize`.
  unfoldable pub replace_at :
      (A → A → Ordering) → Ordered A → ℕ → A → Outcome (Option (A × Ordered A))
  replace_at cmp o idx value = do
    let mutable = ordered_slice o
    ensure (ltb (length mutable) usize_max)
    let after_prev =
        holds_at mutable ((idx + usize_max) % 2 ^ 64) (λ prev. at_most (cmp prev value))
    let before_next = holds_at mutable ((idx + 1) % 2 ^ 64) (λ next. at_most (cmp value next))
    returns (
        if after_prev && before_next
        then elim (get_elem? mutable idx) [
          | none ↦ none
          | some old ↦ some (old, record o { inner = set o.inner idx value })
        ]
        else none)
