-- ===== src/Managed/Ordered/Kept.antt =====
-- What the operations of ethox/src/managed/ordered.rs do to the elements in use, and that these stay in order.
use ethox.Base.{
  ℕ, zero, suc, ◌+◌, ◌-◌, ◌<◌, ◌≤◌, ◌≡◌, refl, ap, ◌∙◌, some, List, [], ◌∷◌, ◌++◌, take, drop,
  length, arith, set, get_elem?, length-take, length-drop, length-append,
}
use mathlib.Core.List.{append_assoc}
use ethox.Managed.Partial.{on_range, rotate_left, rotate_right}
use ethox.Managed.Ordered.Sorted.{inserted, removed}

module _ {A : Type 0} where
  last-take :
      (xs : List A) (s : ℕ) (x : A)
      → get_elem? xs s ≡ some x
      → take (suc s) xs ≡ take s xs ++ (x ∷ [])
  last-take [] zero x h = cc
  last-take [] (suc s) x h = cc
  last-take (y ∷ xs) zero x h = cc
  last-take (y ∷ xs) (suc s) x h = ap (λ ys. y ∷ ys) (last-take xs s x h)

  last-drop :
      (xs : List A) (s : ℕ) (x : A) → get_elem? xs s ≡ some x → drop s (take (suc s) xs) ≡ x ∷ []
  last-drop [] zero x h = cc
  last-drop [] (suc s) x h = cc
  last-drop (y ∷ xs) zero x h = cc
  last-drop (y ∷ xs) (suc s) x h = last-drop xs s x h

  take_less : (xs : List A) (s : ℕ) → take s (take (suc s) xs) ≡ take s xs
  take_less [] zero = refl
  take_less [] (suc s) = refl
  take_less (x ∷ xs) zero = refl
  take_less (x ∷ xs) (suc s) = ap (λ ys. x ∷ ys) (take_less xs s)

  take_in : (xs ys : List A) (s : ℕ) → s ≤ length xs → take s (take s xs ++ ys) ≡ take s xs
  take_in xs ys zero h = refl
  take_in [] ys (suc s) h = absurd (omega arith)
  take_in (x ∷ xs) ys (suc s) h = ap (λ zs. x ∷ zs) (take_in xs ys s (omega arith))

  pushed-front :
      (xs : List A) (s : ℕ) (x : A)
      → get_elem? xs s ≡ some x
      → s < length xs
      → take (suc s) (on_range xs 0 (suc s) (λ range. rotate_left range s)) ≡ x ∷ take s xs
  pushed-front xs s x h l =
      let rest = drop (suc s) xs in
      ap (λ ys. take (suc s) ((ys ++ take s (take (suc s) xs)) ++ rest)) (last-drop xs s x h)
      ∙ ap (λ ys. x ∷ take s (ys ++ rest)) (take_less xs s)
      ∙ ap (λ ys. x ∷ ys) (take_in xs rest s (omega arith))

  -- Turning the range from `i` to the new element puts it at `i`.
  pub pushed-slice :
      (xs : List A) (i m s : ℕ) (x : A)
      → get_elem? xs s ≡ some x
      → i + m ≡ s
      → s < length xs
      → take (suc s) (on_range xs i (suc s) (λ range. rotate_left range m))
        ≡ inserted (take s xs) i x
  pushed-slice xs zero m s x h k l =
      ap (λ n. take (suc s) (on_range xs 0 (suc s) (λ range. rotate_left range n))) (omega arith)
      ∙ pushed-front xs s x h l
  pushed-slice [] (suc i) m s x h k l = absurd (omega arith)
  pushed-slice (y ∷ xs) (suc i) m zero x h k l = absurd (omega arith)
  pushed-slice (y ∷ xs) (suc i) m (suc s) x h k l =
      ap (λ ys. y ∷ ys) (pushed-slice xs i m s x h (omega arith) (omega arith))

  popped-front :
      (y : A) (xs : List A) (s m : ℕ)
      → s ≤ length xs
      → m ≡ s
      → take s (on_range (y ∷ xs) 0 (suc s) (λ range. rotate_right range m)) ≡ take s xs
  popped-front y xs s m l e =
      let range = y ∷ take s xs in
      let one : length range - m ≡ 1 = omega (arith, length-take s xs) in
      ap (λ n. take s (rotate_left range n ++ drop s xs)) one
      ∙ ap (λ ys. take s ys) (append_assoc (take s xs) (y ∷ []) (drop s xs))
      ∙ take_in xs (y ∷ drop s xs) s l

  -- Turning the range from `i` the other way takes the element at `i` out.
  pub popped-slice :
      (xs : List A) (i m s : ℕ)
      → i + m ≡ s
      → s < length xs
      → take s (on_range xs i (suc s) (λ range. rotate_right range m)) ≡ removed (take (suc s) xs) i
  popped-slice [] i m s k l = absurd (omega arith)
  popped-slice (y ∷ xs) zero m s k l = popped-front y xs s m (omega arith) (omega arith)
  popped-slice (y ∷ xs) (suc i) m zero k l = absurd (omega arith)
  popped-slice (y ∷ xs) (suc i) m (suc s) k l =
      ap (λ ys. y ∷ ys) (popped-slice xs i m s (omega arith) (omega arith))

  pub set-take : (xs : List A) (i s : ℕ) (x : A) → i < s → take s (set xs i x) ≡ set (take s xs) i x
  set-take xs i zero x h = absurd (omega arith)
  set-take [] i (suc s) x h = refl
  set-take (y ∷ xs) zero (suc s) x h = refl
  set-take (y ∷ xs) (suc i) (suc s) x h = ap (λ ys. y ∷ ys) (set-take xs i s x (omega arith))

  pub take-set : (xs : List A) (s : ℕ) (x : A) → take s (set xs s x) ≡ take s xs
  take-set [] s x = refl
  take-set (y ∷ xs) zero x = refl
  take-set (y ∷ xs) (suc s) x = ap (λ ys. y ∷ ys) (take-set xs s x)

  length-rotate_left : (xs : List A) (n : ℕ) → length (rotate_left xs n) ≡ length xs
  length-rotate_left xs n =
      omega (arith, length-append (drop n xs) (take n xs), length-drop n xs, length-take n xs)

  -- No element gets lost or is made.
  pub length-on_range :
      (xs : List A) (i e : ℕ) (n : List A → ℕ)
      → i ≤ e
      → length (on_range xs i e (λ range. rotate_left range (n range))) ≡ length xs
  length-on_range xs zero e n h =
      let turned = rotate_left (take e xs) (n (take e xs)) in
      omega (
        arith,
        length-append turned (drop e xs),
        length-rotate_left (take e xs) (n (take e xs)),
        length-take e xs,
        length-drop e xs,
      )
  length-on_range [] (suc i) zero n h = absurd (omega arith)
  length-on_range [] (suc i) (suc e) n h =
      omega (arith, length-append (rotate_left {A = A} [] (n [])) [], length-rotate_left [] (n []))
  length-on_range (x ∷ xs) (suc i) zero n h = absurd (omega arith)
  length-on_range (x ∷ xs) (suc i) (suc e) n h = ap suc (length-on_range xs i e n (omega arith))
