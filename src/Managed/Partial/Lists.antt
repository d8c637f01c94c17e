-- ===== src/Managed/Partial/Lists.antt =====
-- Pushing to the partial slice of ethox/src/managed/partial.rs, as what it does to the lists.
use ethox.Base.{
  get_elem?-take, get_elem?, ℕ, zero, suc, ◌≡◌, ◌<◌, refl, ap, none, some, returns, List, [], ◌∷◌,
  length, arith, usize_max, ltb, if◌then◌else◌,
}
use ethox.Managed.Partial.{get, as_slice, Partial, rotate_left, on_range, insert_at, push}

module _ {ℓ} {A : Type ℓ} where
  unturned : (xs : List A) (n : ℕ) → on_range xs n (suc n) (λ r. rotate_left r 0) ≡ xs
  unturned [] zero = refl
  unturned [] (suc n) = refl
  unturned (x ∷ xs) zero = refl
  unturned (x ∷ xs) (suc n) = ap (λ ys. x ∷ ys) (unturned xs n)

  -- Pushing moves no element: it fails on a full slice, and else takes the next place in use.
  pub push_lem :
      (p : Partial A)
      → p.end < usize_max
      → push p
        ≡ returns (
            if ltb p.end (length p.inner) then some (p.end, record p { end = suc p.end }) else none)
  unfolding push insert_at
  push_lem p h = ground (arith, unturned p.inner p.end)

  -- A lookup sees the elements in use.
  pub get_lem :
      (p : Partial A) (i : ℕ) → get p i ≡ (if ltb i p.end then get_elem? p.inner i else none)
  unfolding get as_slice
  get_lem p i = get_elem?-take p.end p.inner i
