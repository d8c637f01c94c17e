-- ===== src/Managed/Ordered/Sorted.antt =====
-- Lists in an order, with an element put in where ethox/src/managed/ordered.rs looks for it, or taken out.
use ethox.Base.{
  ℕ, zero, suc, ◌<◌, ◌≡◌, refl, Ordering, true, List, [], ◌∷◌, ◌++◌, take, drop, length, arith, set,
  get_elem?, some, inl, inr, ◌⊎◌,
}
use ethox.Managed.Ordered.{at_most, binary_search_by, either, next_place}

-- `cmp` read from the other side.
abbrev pub swap : Ordering → Ordering
swap Ordering.lt = Ordering.gt
swap Ordering.eq = Ordering.eq
swap Ordering.gt = Ordering.lt

-- What the documentation of `Ord` wants of a `cmp`, as far as it is used.
pub record IsOrder {A : Type 0} (cmp : A → A → Ordering) : Type 0 where
  pub antisymmetric : (a b : A) → cmp b a ≡ swap (cmp a b)
  pub transitive :
      (a b c : A) → at_most (cmp a b) ≡ true → at_most (cmp b c) ≡ true → at_most (cmp a c) ≡ true

either-next : (r : ℕ ⊎ ℕ) → either (next_place r) ≡ suc (either r)
either-next (inl i) = refl
either-next (inr i) = refl

-- The three answers of a comparison.
cases : (o : Ordering) → (o ≡ Ordering.lt) ⊎ ((o ≡ Ordering.eq) ⊎ (o ≡ Ordering.gt))
cases Ordering.lt = inl refl
cases Ordering.eq = inr (inl refl)
cases Ordering.gt = inr (inr refl)

module _ {ℓ} {A : Type ℓ} where
  abbrev pub inserted : List A → ℕ → A → List A
  inserted xs i x = take i xs ++ (x ∷ drop i xs)

  abbrev pub removed : List A → ℕ → List A
  removed xs i = take i xs ++ drop (suc i) xs

module _ {A : Type 0} (cmp : A → A → Ordering) where
  -- An element is not above the first of a list.
  abbrev pub Above : A → List A → Type 0
  Above x [] = Unit
  Above x (y ∷ ys) = at_most (cmp x y) ≡ true

  abbrev pub IsSorted : List A → Type 0
  IsSorted [] = Unit
  IsSorted (x ∷ xs) = Above x xs × IsSorted xs

  -- Where an element is put in.
  abbrev pub place : List A → A → ℕ
  place xs x = either (binary_search_by xs (λ y. cmp y x))

  pub place_lem :
      (y x : A) (ys : List A)
      → ((place (y ∷ ys) x ≡ suc (place ys x)) × (cmp y x ≡ Ordering.lt))
        ⊎ ((place (y ∷ ys) x ≡ 0) × (at_most (swap (cmp y x)) ≡ true))
  place_lem y x ys = elim (cases (cmp y x)) [
    | inl e ↦ inl (rw e (either-next (binary_search_by ys (λ z. cmp z x))), e)
    | inr (inl e) ↦ inr (rw e refl, rw e refl)
    | inr (inr e) ↦ inr (rw e refl, rw e refl)
  ]

  pub place-length : (xs : List A) (x : A) → place xs x < suc (length xs)
  place-length [] x = omega arith
  place-length (y ∷ ys) x = elim (place_lem y x ys) [
    | inl (e, _) ↦ rw e (omega (arith, place-length ys x))
    | inr (e, _) ↦ rw e (omega arith)
  ]

  Above-inserted :
      (y x : A) (ys : List A) (i : ℕ)
      → Above y ys
      → at_most (cmp y x) ≡ true
      → Above y (inserted ys i x)
  Above-inserted y x [] zero h k = k
  Above-inserted y x [] (suc i) h k = k
  Above-inserted y x (z ∷ ys) zero h k = k
  Above-inserted y x (z ∷ ys) (suc i) h k = h

  -- Putting an element in where it is looked for keeps the order.
  pub inserted-IsSorted :
      (xs : List A) (x : A) → IsOrder cmp → IsSorted xs → IsSorted (inserted xs (place xs x) x)
  inserted-IsSorted [] x order h = (tt, tt)
  inserted-IsSorted (y ∷ ys) x order (above, h) = elim (place_lem y x ys) [
    | inl (e, less) ↦
        rw e
          (Above-inserted y x ys (place ys x) above (rw less refl), inserted-IsSorted ys x order h)
    | inr (e, more) ↦ rw e (rw (order.antisymmetric y x) more, (above, h))
  ]

  Above-removed :
      (x : A) (xs : List A) (i : ℕ)
      → IsOrder cmp
      → Above x xs
      → IsSorted xs
      → Above x (removed xs i)
  Above-removed x [] zero order above h = tt
  Above-removed x [] (suc i) order above h = tt
  Above-removed x (y ∷ []) zero order above h = tt
  Above-removed x (y ∷ z ∷ xs) zero order above (h, _) = order.transitive x y z above h
  Above-removed x (y ∷ xs) (suc i) order above h = above

  -- Taking an element out keeps it too.
  pub removed-IsSorted : (xs : List A) (i : ℕ) → IsOrder cmp → IsSorted xs → IsSorted (removed xs i)
  removed-IsSorted [] zero order h = tt
  removed-IsSorted [] (suc i) order h = tt
  removed-IsSorted (x ∷ xs) zero order (_, h) = h
  removed-IsSorted (x ∷ xs) (suc i) order (above, h) =
      (Above-removed x xs i order above h, removed-IsSorted xs i order h)

  -- The element before `i`, if any, is not above `x`.
  abbrev pub Below : List A → ℕ → A → Type 0
  Below xs zero x = Unit
  Below xs (suc i) x = (y : A) → get_elem? xs i ≡ some y → at_most (cmp y x) ≡ true

  Above-set :
      (y : A) (xs : List A) (i : ℕ) (x : A)
      → Above y xs
      → (i ≡ 0 → at_most (cmp y x) ≡ true)
      → Above y (set xs i x)
  Above-set y [] i x h k = tt
  Above-set y (z ∷ xs) zero x h k = k refl
  Above-set y (z ∷ xs) (suc i) x h k = h

  Above-next :
      (x : A) (xs : List A)
      → ((y : A) → get_elem? xs 0 ≡ some y → at_most (cmp x y) ≡ true)
      → Above x xs
  Above-next x [] h = tt
  Above-next x (y ∷ xs) h = h y refl

  -- So does an element that is replaced by one that fits between its neighbours.
  pub set-IsSorted :
      (xs : List A) (i : ℕ) (x : A)
      → IsSorted xs
      → Below xs i x
      → ((y : A) → get_elem? xs (suc i) ≡ some y → at_most (cmp x y) ≡ true)
      → IsSorted (set xs i x)
  set-IsSorted [] i x h below above = tt
  set-IsSorted (z ∷ xs) zero x (_, h) below above = (Above-next x xs above, h)
  set-IsSorted (z ∷ xs) (suc zero) x (first, h) below above =
      (Above-set z xs 0 x first (λ _. below z refl), set-IsSorted xs 0 x h tt above)
  set-IsSorted (z ∷ xs) (suc (suc i)) x (first, h) below above = (
    Above-set z xs (suc i) x first (λ e. absurd (omega (arith, e))),
    set-IsSorted xs (suc i) x h below above,
  )
