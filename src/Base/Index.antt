-- ===== src/Base/Index.antt =====
-- Slices by their indices: what a lookup finds in a part or a join, and equality of what lookups find.
use Prim.Native.Nat.{ℕ, zero, suc, ◌+◌, ◌-◌, ◌≤◌, min, ◌<◌}
use mathlib.Core.Path.{◌≡◌, refl, ap, ◌∙◌}
use mathlib.Core.List.{List, [], ◌∷◌, ◌++◌}
use mathlib.Core.Option.{none, some}
use native.Mathlib.Omega.{arith}
use ethox.Base.Tests.{ltb, if◌then◌else◌}
use ethox.Base.Lists.{length, get_elem?, take, drop}

module _ {ℓ} {A : Type ℓ} where
  pub get_elem?-append :
      (xs ys : List A) (i : ℕ)
      → get_elem? (xs ++ ys) i
        ≡ (if ltb i (length xs) then get_elem? xs i else get_elem? ys (i - length xs))
  get_elem?-append [] ys i = ground arith
  get_elem?-append (x ∷ xs) ys zero = ground arith
  get_elem?-append (x ∷ xs) ys (suc i) = ground (arith, get_elem?-append xs ys i)

  pub get_elem?-take :
      (n : ℕ) (xs : List A) (i : ℕ)
      → get_elem? (take n xs) i ≡ (if ltb i n then get_elem? xs i else none)
  get_elem?-take zero [] i = ground arith
  get_elem?-take (suc n) [] i = ground arith
  get_elem?-take zero (x ∷ xs) i = ground arith
  get_elem?-take (suc n) (x ∷ xs) zero = ground arith
  get_elem?-take (suc n) (x ∷ xs) (suc i) = ground (arith, get_elem?-take n xs i)

  pub get_elem?-drop :
      (n : ℕ) (xs : List A) (i : ℕ) → get_elem? (drop n xs) i ≡ get_elem? xs (n + i)
  get_elem?-drop zero xs i = ground arith
  get_elem?-drop (suc n) [] i = refl
  get_elem?-drop (suc n) (x ∷ xs) i = ground (arith, get_elem?-drop n xs i)

  pub length-take : (n : ℕ) (xs : List A) → length (take n xs) ≡ min n (length xs)
  length-take zero xs = omega arith
  length-take (suc n) [] = omega arith
  length-take (suc n) (x ∷ xs) = omega (arith, length-take n xs)

  pub length-drop : (n : ℕ) (xs : List A) → length (drop n xs) ≡ length xs - n
  length-drop zero xs = omega arith
  length-drop (suc n) [] = omega arith
  length-drop (suc n) (x ∷ xs) = omega (arith, length-drop n xs)

  pub get_elem?-past : (xs : List A) (i : ℕ) → length xs ≤ i → get_elem? xs i ≡ none
  get_elem?-past [] i h = refl
  get_elem?-past (x ∷ xs) zero h = absurd (omega arith)
  get_elem?-past (x ∷ xs) (suc i) h = get_elem?-past xs i (omega arith)

  -- Two slices in which every lookup finds the same are equal.
  pub list_ext : (xs ys : List A) → ((i : ℕ) → get_elem? xs i ≡ get_elem? ys i) → xs ≡ ys
  list_ext [] [] h = refl
  list_ext [] (y ∷ ys) h = cc (h 0)
  list_ext (x ∷ xs) [] h = cc (h 0)
  list_ext (x ∷ xs) (y ∷ ys) h =
      let heads : some x ≡ some y = h 0 in
      let tails : xs ≡ ys = list_ext xs ys (λ i. h (suc i)) in cc

  pub drop_twice : (m n : ℕ) (xs : List A) → drop n (drop m xs) ≡ drop (m + n) xs
  drop_twice m n xs = list_ext _ _ (λ i. ground (
    arith,
    get_elem?-drop n (drop m xs) i,
    get_elem?-drop m xs (n + i),
    get_elem?-drop (m + n) xs i,
  ))

  pub take_twice :
      (m n : ℕ) (xs : List A) → m ≤ length xs → take m xs ++ take n (drop m xs) ≡ take (m + n) xs
  take_twice zero n xs h = ap (λ k. take k xs) (omega arith)
  take_twice (suc m) n [] h = absurd (omega arith)
  take_twice (suc m) n (x ∷ xs) h =
      let e : suc (m + n) ≡ suc m + n = omega arith in
      ap (λ ys. x ∷ ys) (take_twice m n xs (omega arith)) ∙ ap (λ k. take k (x ∷ xs)) e

  pub take-append : (xs ys : List A) → take (length xs) (xs ++ ys) ≡ xs
  take-append [] ys = refl
  take-append (x ∷ xs) ys = ap (λ zs. x ∷ zs) (take-append xs ys)

  pub drop-append : (xs ys : List A) → drop (length xs) (xs ++ ys) ≡ ys
  drop-append [] ys = refl
  drop-append (x ∷ xs) ys = drop-append xs ys

  pub drop-all : (n : ℕ) (xs : List A) → length xs ≤ n → drop n xs ≡ []
  drop-all zero [] h = refl
  drop-all zero (x ∷ xs) h = absurd (omega arith)
  drop-all (suc n) [] h = refl
  drop-all (suc n) (x ∷ xs) h = drop-all n xs (omega arith)

  pub take-drop : (n : ℕ) (xs : List A) → take n xs ++ drop n xs ≡ xs
  take-drop zero xs = refl
  take-drop (suc n) [] = refl
  take-drop (suc n) (x ∷ xs) = ap (λ ys. x ∷ ys) (take-drop n xs)

  pub get_elem?-some : (xs : List A) (i : ℕ) → i < length xs → (x : A) × (get_elem? xs i ≡ some x)
  get_elem?-some [] i h = absurd (omega arith)
  get_elem?-some (x ∷ xs) zero h = (x, refl)
  get_elem?-some (x ∷ xs) (suc i) h = get_elem?-some xs i (omega arith)

  pub some-within : (xs : List A) (i : ℕ) (x : A) → get_elem? xs i ≡ some x → i < length xs
  some-within [] i x h = cc
  some-within (y ∷ xs) zero x h = omega arith
  some-within (y ∷ xs) (suc i) x h = omega (arith, some-within xs i x h)
