-- ===== src/Base/Slices.antt =====
-- `copy_from_slice` into a part of a slice.
use Prim.Native.Nat.{ℕ, zero, suc, ◌+◌, ◌-◌, ◌≤◌, ◌<◌}
use mathlib.Core.Path.{◌≡◌, ap, ◌∙◌}
use mathlib.Core.List.{List, [], ◌∷◌, ◌++◌}
use native.Mathlib.Omega.{arith}
use ethox.Base.Tests.{ltb, if◌then◌else◌}
use ethox.Base.Lists.{length, get_elem?, set, take, drop, length-append}
use ethox.Base.Index.{
  get_elem?-append, get_elem?-take, get_elem?-drop, get_elem?-past, length-take, length-drop,
  list_ext,
}

-- A part of a slice, replaced by what was written to it.
abbrev pub put_slice {ℓ} : {A : Type ℓ} → List A → ℕ → List A → List A
put_slice xs start ys = take start xs ++ (ys ++ drop (start + length ys) xs)

module _ {A : Type 0} where
  pub get_elem?-put_slice :
      (xs ys : List A) (s i : ℕ)
      → s + length ys ≤ length xs
      → get_elem? (put_slice xs s ys) i ≡ (
          if ltb i s
          then get_elem? xs i
          else if ltb i (s + length ys)
          then get_elem? ys (i - s)
          else get_elem? xs i)
  get_elem?-put_slice xs ys s i h = ground (
    arith,
    get_elem?-append (take s xs) (ys ++ drop (s + length ys) xs) i,
    get_elem?-append ys (drop (s + length ys) xs) (i - s),
    get_elem?-take s xs i,
    get_elem?-drop (s + length ys) xs (i - s - length ys),
    length-take s xs,
  )

  pub length-put_slice :
      (xs ys : List A) (s : ℕ) → s + length ys ≤ length xs → length (put_slice xs s ys) ≡ length xs
  length-put_slice xs ys s h = omega (
    arith,
    length-append (take s xs) (ys ++ drop (s + length ys) xs),
    length-append ys (drop (s + length ys) xs),
    length-take s xs,
    length-drop (s + length ys) xs,
  )

  -- Two writes, the second behind the first, are one.
  pub put_slice_twice :
      (xs ys zs : List A) (p : ℕ)
      → p + (length ys + length zs) ≤ length xs
      → put_slice (put_slice xs p ys) (p + length ys) zs ≡ put_slice xs p (ys ++ zs)
  put_slice_twice xs ys zs p h = list_ext _ _ (λ i. ground (
    arith,
    get_elem?-put_slice (put_slice xs p ys) zs (p + length ys) i
        (omega (arith, length-put_slice xs ys p (omega arith))),
    get_elem?-put_slice xs ys p i (omega arith),
    get_elem?-put_slice xs (ys ++ zs) p i (omega (arith, length-append ys zs)),
    get_elem?-append ys zs (i - p),
    length-append ys zs,
  ))

  pub put_slice-nil : (xs : List A) (p : ℕ) → put_slice xs p [] ≡ xs
  put_slice-nil xs p = list_ext _ _ (λ i. ground (
    arith,
    get_elem?-append (take p xs) (drop (p + 0) xs) i,
    get_elem?-take p xs i,
    get_elem?-drop (p + 0) xs (i - length (take p xs)),
    get_elem?-past xs i,
    get_elem?-past xs (p + 0 + (i - length (take p xs))),
    length-take p xs,
  ))

  pub set-put_slice :
      (xs : List A) (i : ℕ) (x : A) → i < length xs → set xs i x ≡ put_slice xs i (x ∷ [])
  set-put_slice [] i x h = absurd (omega arith)
  set-put_slice (y ∷ xs) zero x h =
      let e : 1 ≡ 0 + 1 = omega arith in ap (λ k. x ∷ drop k (y ∷ xs)) e
  set-put_slice (y ∷ xs) (suc i) x h =
      let e : suc (i + 1) ≡ suc i + 1 = omega arith in
      ap (λ zs. y ∷ zs) (set-put_slice xs i x (omega arith))
      ∙ ap (λ k. y ∷ (take i xs ++ (x ∷ drop k (y ∷ xs)))) e

  -- A slice that is written back as it was.
  pub put_slice-same :
      (xs : List A) (s n : ℕ) → s + n ≤ length xs → put_slice xs s (take n (drop s xs)) ≡ xs
  put_slice-same xs s n h = list_ext _ _ same
    where
      l : length (take n (drop s xs)) ≡ n
      l = omega (arith, length-take n (drop s xs), length-drop s xs)

      same : (i : ℕ) → get_elem? (put_slice xs s (take n (drop s xs))) i ≡ get_elem? xs i
      same i = ground (
        arith,
        get_elem?-put_slice xs (take n (drop s xs)) s i (omega (arith, l)),
        get_elem?-take n (drop s xs) (i - s),
        get_elem?-drop s xs (i - s),
        l,
      )

  -- The second of two writes to the same place stays.
  pub put_slice_over :
      (xs ys zs : List A) (p : ℕ)
      → length ys ≡ length zs
      → p + length zs ≤ length xs
      → put_slice (put_slice xs p ys) p zs ≡ put_slice xs p zs
  put_slice_over xs ys zs p e h = list_ext _ _ (λ i. ground (
    arith,
    get_elem?-put_slice (put_slice xs p ys) zs p i
        (omega (arith, length-put_slice xs ys p (omega arith))),
    get_elem?-put_slice xs ys p i (omega arith),
    get_elem?-put_slice xs zs p i h,
  ))
