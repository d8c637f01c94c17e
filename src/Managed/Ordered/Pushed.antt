-- ===== src/Managed/Ordered/Pushed.antt =====
-- The elements in use stay in order when one is pushed or removed: ethox/src/managed/ordered.rs.
use ethox.Base.{
  ℕ, suc, ◌+◌, ◌-◌, ◌<◌, ◌≤◌, ◌≡◌, refl, sym, subst, Ordering, none, some, take, length, arith, set,
  get_elem?, ltb, length-take, length-set, Option-cases, some-within, Bool-cases, ltb→lt, lt→ltb,
  inl, inr,
}
use ethox.Managed.Partial.{on_range, rotate_left, rotate_right}
use ethox.Managed.Ordered.{Ordered, ordered_slice, push, pop, init}
use ethox.Managed.Ordered.Sorted.{
  IsOrder, IsSorted, place, inserted, removed, place-length, inserted-IsSorted, removed-IsSorted,
}
use ethox.Managed.Ordered.Kept.{pushed-slice, popped-slice, take-set, length-on_range}

module _ {A : Type 0} (cmp : A → A → Ordering) where
  pub record IsOrdered (o : Ordered A) : Type 0 where
    pub within : o.start ≤ length o.inner
    pub sorted : IsSorted cmp (ordered_slice o)

  -- What pushing an element leaves.
  abbrev pub after_push : Ordered A → A → Ordered A
  after_push o x =
      let k = place cmp (ordered_slice o) x in
      record {
        inner = on_range o.inner k (o.start + 1) (λ range. rotate_left range (o.start - k));
        start = o.start + 1;
      }

  -- The element that is pushed stands where it is looked for.
  pub after_push-inserted :
      (o : Ordered A) (x : A)
      → o.start ≤ length o.inner
      → get_elem? o.inner o.start ≡ some x
      → ordered_slice (after_push o x)
        ≡ inserted (ordered_slice o) (place cmp (ordered_slice o) x) x
  after_push-inserted o x v found =
      let slice = ordered_slice o in
      let k = place cmp slice x in
      let short : o.start < length o.inner = some-within o.inner o.start x found in
      let low : k ≤ o.start =
        omega (arith, place-length cmp slice x, length-take o.start o.inner) in
      let next : suc o.start ≡ o.start + 1 = omega arith in
      subst
        (λ s.
          take s (on_range o.inner k s (λ range. rotate_left range (o.start - k)))
          ≡ inserted slice k x)
        next (pushed-slice o.inner k (o.start - k) o.start x found (omega arith) short)

  pub after_push-length :
      (o : Ordered A) (x : A)
      → o.start ≤ length o.inner
      → length (after_push o x).inner ≡ length o.inner
  after_push-length o x v =
      let k = place cmp (ordered_slice o) x in
      let low : k ≤ o.start =
        omega (arith, place-length cmp (ordered_slice o) x, length-take o.start o.inner) in
      length-on_range o.inner k (o.start + 1) (λ _. o.start - k) (omega arith)

  after_push-IsOrdered :
      (o : Ordered A) (x : A)
      → IsOrder cmp
      → IsOrdered o
      → get_elem? o.inner o.start ≡ some x
      → IsOrdered (after_push o x)
  after_push-IsOrdered o x order v found = record {
    within = omega (arith, after_push-length o x v.within, some-within o.inner o.start x found);
    sorted =
        subst (IsSorted cmp) (sym (after_push-inserted o x v.within found))
          (inserted-IsSorted cmp (ordered_slice o) x order v.sorted);
  }

  pub push_lem :
      (o : Ordered A) (x : A)
      → get_elem? o.inner o.start ≡ some x
      → push cmp o ≡ some (place cmp (ordered_slice o) x, after_push o x)
  unfolding push
  push_lem o x found = rw (found, push) refl

  pub push-IsOrdered :
      (o o' : Ordered A) (i : ℕ)
      → IsOrder cmp
      → IsOrdered o
      → push cmp o ≡ some (i, o')
      → IsOrdered o'
  unfolding push
  push-IsOrdered o o' i order v e = elim (Option-cases (get_elem? o.inner o.start)) [
    | inl n ↦ let e' : push cmp o ≡ none = rw (n, push) refl in cc
    | inr (x, found) ↦
        let e' = push_lem o x found in
        let same : after_push o x ≡ o' = cc in
        subst IsOrdered same (after_push-IsOrdered o x order v found)
  ]

  abbrev pub after_pop : Ordered A → ℕ → Ordered A
  after_pop o i = record {
    inner = on_range o.inner i o.start (λ range. rotate_right range (o.start - i - 1));
    start = o.start - 1;
  }

  pub after_pop-removed :
      (o : Ordered A) (i : ℕ)
      → o.start ≤ length o.inner
      → i < o.start
      → ordered_slice (after_pop o i) ≡ removed (ordered_slice o) i
  after_pop-removed o i v l =
      let m = o.start - i - 1 in
      let one : suc (o.start - 1) ≡ o.start = omega arith in
      subst
        (λ s.
          take (o.start - 1) (on_range o.inner i s (λ range. rotate_right range m))
          ≡ removed (take s o.inner) i)
        one (popped-slice o.inner i m (o.start - 1) (omega arith) (omega (arith, v)))

  pub after_pop-length :
      (o : Ordered A) (i : ℕ) → i < o.start → length (after_pop o i).inner ≡ length o.inner
  after_pop-length o i l =
      length-on_range o.inner i o.start (λ range. length range - (o.start - i - 1)) (omega arith)

  after_pop-IsOrdered :
      (o : Ordered A) (i : ℕ) → IsOrder cmp → IsOrdered o → i < o.start → IsOrdered (after_pop o i)
  after_pop-IsOrdered o i order v l = record {
    within = omega (arith, after_pop-length o i l, v.within);
    sorted =
        subst (IsSorted cmp) (sym (after_pop-removed o i v.within l))
          (removed-IsSorted cmp (ordered_slice o) i order v.sorted);
  }

  pub pop_lem : (o : Ordered A) (i : ℕ) → i < o.start → pop o i ≡ some (after_pop o i)
  unfolding pop
  pop_lem o i l = rw (lt→ltb i o.start l) refl

  pub pop-IsOrdered :
      (o o' : Ordered A) (i : ℕ) → IsOrder cmp → IsOrdered o → pop o i ≡ some o' → IsOrdered o'
  unfolding pop
  pop-IsOrdered o o' i order v e = elim (Bool-cases (ltb i o.start)) [
    | inl n ↦
        let e' = pop_lem o i (ltb→lt i o.start n) in
        let same : after_pop o i ≡ o' = cc in
        subst IsOrdered same (after_pop-IsOrdered o i order v (ltb→lt i o.start n))
    | inr n ↦ let e' : pop o i ≡ none = rw n refl in cc
  ]

  pub written-IsOrdered :
      (o : Ordered A) (i : ℕ) (x : A)
      → IsOrdered o
      → init o ≡ some i
      → IsOrdered (record o { inner = set o.inner i x })
  unfolding init
  written-IsOrdered o i x v e = elim (Bool-cases (ltb o.start (length o.inner))) [
    | inl n ↦
        let e' : init o ≡ some o.start = rw n refl in
        let same : o.start ≡ i = cc in
        record {
          within = omega (arith, length-set o.inner i x, v.within);
          sorted =
              subst (λ k. IsSorted cmp (take o.start (set o.inner k x))) same
                (subst (IsSorted cmp) (sym (take-set o.inner o.start x)) v.sorted);
        }
    | inr n ↦ let e' : init o ≡ none = rw n refl in cc
  ]
