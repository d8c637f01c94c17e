-- ===== src/Managed/Ordered/Reached.antt =====
-- The states that a program reaches with the operations of ethox/src/managed/ordered.rs.
use ethox.Base.{
  ℕ, zero, suc, ◌+◌, ◌<◌, ◌%◌, ◌^◌, ◌≡◌, refl, sym, subst, Ordering, Bool, true, none, some, List,
  length, arith, set, get_elem?, ltb, returns, panics, length-take, length-set, Option-cases,
  some-within, Bool-cases, ltb→lt, usize_max, inl, inr,
}
use ethox.Managed.Ordered.{
  Ordered, at_most, ordered_slice, holds_at, push, pop, replace_at, new, init,
}
use ethox.Managed.Ordered.Sorted.{IsOrder, IsSorted, set-IsSorted, Below}
use ethox.Managed.Ordered.Kept.{set-take}
use ethox.Managed.Ordered.Pushed.{IsOrdered, push-IsOrdered, pop-IsOrdered, written-IsOrdered}

module _ {A : Type 0} (cmp : A → A → Ordering) where
  -- `written` is a write through the reference that `init` returns.
  pub data Step (o : Ordered A) : Ordered A → Type 0 where
    written : (i : ℕ) (x : A) → init o ≡ some i → Step o (record o { inner = set o.inner i x })
    pushed : (i : ℕ) (o' : Ordered A) → push cmp o ≡ some (i, o') → Step o o'
    popped : (i : ℕ) (o' : Ordered A) → pop o i ≡ some o' → Step o o'
    replaced :
        (i : ℕ) (x y : A) (o' : Ordered A)
        → i < 2 ^ 64
        → replace_at cmp o i x ≡ returns (some (y, o'))
        → Step o o'

  pub data Reached : Ordered A → Type 0 where
    created : (slice : List A) → Reached (new slice)
    later : (o o' : Ordered A) → Reached o → Step o o' → Reached o'

  set-IsOrdered :
      (o : Ordered A) (i : ℕ) (x : A)
      → IsOrdered cmp o
      → i < o.start
      → Below cmp (ordered_slice o) i x
      → ((y : A) → get_elem? (ordered_slice o) (suc i) ≡ some y → at_most (cmp x y) ≡ true)
      → IsOrdered cmp (record o { inner = set o.inner i x })
  set-IsOrdered o i x v l below above = record {
    within = omega (arith, length-set o.inner i x, v.within);
    sorted =
        subst (IsSorted cmp) (sym (set-take o.inner i o.start x l))
          (set-IsSorted cmp (ordered_slice o) i x v.sorted below above);
  }

  holds_lem :
      (xs : List A) (i : ℕ) (test : A → Bool) (y : A)
      → holds_at xs i test ≡ true
      → get_elem? xs i ≡ some y
      → test y ≡ true
  holds_lem xs i test y h e = let found : holds_at xs i test ≡ test y = rw (e, holds_at) refl in cc

  -- The test of the element before, whose index wraps around at 0.
  before-Below :
      (xs : List A) (i : ℕ) (x : A)
      → i < 2 ^ 64
      → holds_at xs ((i + usize_max) % 2 ^ 64) (λ y. at_most (cmp y x)) ≡ true
      → Below cmp xs i x
  before-Below xs zero x l h = tt
  before-Below xs (suc i) x l h =
      let e : (suc i + usize_max) % 2 ^ 64 ≡ i = omega arith in
      λ y.
        holds_lem xs i (λ z. at_most (cmp z x)) y
          (subst (λ k. holds_at xs k (λ z. at_most (cmp z x)) ≡ true) e h)

  after-Above :
      (xs : List A) (i : ℕ) (x : A)
      → i + 1 < 2 ^ 64
      → holds_at xs ((i + 1) % 2 ^ 64) (λ y. at_most (cmp x y)) ≡ true
      → (y : A) → get_elem? xs (suc i) ≡ some y
      → at_most (cmp x y) ≡ true
  after-Above xs i x l h y =
      let e : (i + 1) % 2 ^ 64 ≡ suc i = omega arith in
      holds_lem xs (suc i) (λ z. at_most (cmp x z)) y
        (subst (λ k. holds_at xs k (λ z. at_most (cmp x z)) ≡ true) e h)

  replace_at-IsOrdered :
      (o o' : Ordered A) (i : ℕ) (x y : A)
      → i < 2 ^ 64
      → IsOrder cmp
      → IsOrdered cmp o
      → replace_at cmp o i x ≡ returns (some (y, o'))
      → IsOrdered cmp o'
  unfolding replace_at
  replace_at-IsOrdered o o' i x y l order v e =
      let slice = ordered_slice o in
      let prev = holds_at slice ((i + usize_max) % 2 ^ 64) (λ z. at_most (cmp z x)) in
      let next = holds_at slice ((i + 1) % 2 ^ 64) (λ z. at_most (cmp x z)) in
      elim (Bool-cases (ltb (length slice) usize_max)) [
        | inr n ↦ let e' : replace_at cmp o i x ≡ panics = rw (n, replace_at) refl in cc
        | inl short ↦ elim (Bool-cases prev) [
          | inr n ↦
              let e' : replace_at cmp o i x ≡ returns none = rw (short, n, replace_at) refl in cc
          | inl p ↦ elim (Bool-cases next) [
            | inr n ↦
                let e' : replace_at cmp o i x ≡ returns none = rw (short, p, n, replace_at) refl in
                cc
            | inl q ↦ elim (Option-cases (get_elem? slice i)) [
              | inl n ↦
                  let e' : replace_at cmp o i x ≡ returns none =
                    rw (short, p, q, n, replace_at) refl in
                  cc
              | inr (z, found) ↦
                  let made : Ordered A = record o { inner = set o.inner i x } in
                  let e' : replace_at cmp o i x ≡ returns (some (z, made)) =
                    rw (short, p, q, found, replace_at) refl in
                  let same : made ≡ o' = cc in
                  let inside = some-within slice i z found in
                  subst (IsOrdered cmp) same (
                    set-IsOrdered o i x v (omega (arith, inside, length-take o.start o.inner))
                      (before-Below slice i x l p)
                      (after-Above slice i x
                        (omega (arith, inside, ltb→lt (length slice) usize_max short)) q))
            ]
          ]
        ]
      ]

  -- In every state that is reached, by whatever pushes, removals, replacements and writes to the next element,
  -- the elements in use are within the slice and sorted, if `cmp` is an order.
  pub Reached-IsOrdered : (o : Ordered A) → IsOrder cmp → Reached o → IsOrdered cmp o
  Reached-IsOrdered _ order (created slice) = record { within = omega arith; sorted = tt }
  Reached-IsOrdered _ order (later o o' r (written i x e)) =
      written-IsOrdered cmp o i x (Reached-IsOrdered o order r) e
  Reached-IsOrdered _ order (later o _ r (pushed i o' e)) =
      push-IsOrdered cmp o o' i order (Reached-IsOrdered o order r) e
  Reached-IsOrdered _ order (later o _ r (popped i o' e)) =
      pop-IsOrdered cmp o o' i order (Reached-IsOrdered o order r) e
  Reached-IsOrdered _ order (later o _ r (replaced i x y o' l e)) =
      replace_at-IsOrdered o o' i x y l order (Reached-IsOrdered o order r) e
