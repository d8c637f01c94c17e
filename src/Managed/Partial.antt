-- ===== src/Managed/Partial.antt =====
-- `Partial` of ethox/src/managed/partial.rs on a slice: the first `end` elements of `inner` are in
-- use. A method that returns a mutable reference returns the index in `inner` that it refers to.
pub mod Lists
use ethox.Base.{
  ℕ, ◌+◌, ◌-◌, Bool, Option, none, some, Outcome, returns, panics, List, ◌++◌, length, get_elem?,
  take, drop, set, ltb, ◌==◌, if◌then◌else◌, usize_max,
}

pub record Partial {ℓ} (A : Type ℓ) : Type ℓ where
  pub inner : List A
  pub end : ℕ

-- `rotate_left` and `rotate_right` of a slice, by at most its length.
abbrev pub rotate_left {ℓ} : {A : Type ℓ} → List A → ℕ → List A
rotate_left xs n = drop n xs ++ take n xs

abbrev pub rotate_right {ℓ} : {A : Type ℓ} → List A → ℕ → List A
rotate_right xs n = rotate_left xs (length xs - n)

-- A slice in which the range `start..end` has been replaced by what `f` makes of it.
abbrev pub on_range {ℓ} : {A : Type ℓ} → List A → ℕ → ℕ → (List A → List A) → List A
on_range xs start end f = take start xs ++ f (drop start (take end xs)) ++ drop end xs

module _ {ℓ} {A : Type ℓ} where
  abbrev pub new : List A → Partial A
  new container = record { inner = container; end = 0 }

  -- The source panics if the claimed length is more than the container has; here it is what is there then.
  unfoldable pub as_slice : Partial A → List A
  as_slice p = take p.end p.inner

  unfoldable pub init : Partial A → Option ℕ
  init p = if ltb p.end (length p.inner) then some p.end else none

  -- `none` also where `end + 1` is no `usize`.
  unfoldable pub insert_at : Partial A → ℕ → Outcome (Option (ℕ × Partial A))
  insert_at p pos =
      if ltb p.end pos
      then panics
      else (let rotation = p.end - pos in
          let new_end = p.end + 1 in
          if p.end == usize_max
          then returns none
          else if ltb (length p.inner) new_end
          then returns none
          else returns (
              some (
                pos,
                record {
                  inner = on_range p.inner pos new_end (λ range. rotate_left range rotation);
                  end = new_end;
                },
              )))

  unfoldable pub push : Partial A → Outcome (Option (ℕ × Partial A))
  unfolding insert_at
  push p = insert_at p p.end

  unfoldable pub remove_at : Partial A → ℕ → Option (ℕ × Partial A)
  remove_at p pos =
      if p.end == 0
      then none
      else (let new_end = p.end - 1 in
          if ltb new_end pos
          then none
          else if ltb (length p.inner) p.end
          then none
          else some (
            new_end,
            record {
              inner = on_range p.inner pos p.end (λ range. rotate_right range (new_end - pos));
              end = new_end;
            },
          ))

  -- `self.end.wrapping_sub(1)`
  unfoldable pub pop : Partial A → Option (ℕ × Partial A)
  unfolding remove_at
  pop p = remove_at p (if p.end == 0 then usize_max else p.end - 1)

  unfoldable pub get : Partial A → ℕ → Option A
  unfolding as_slice
  get p i = get_elem? (as_slice p) i

  -- `p[i] = v`, which panics where there is no such element in use.
  unfoldable pub put : Partial A → ℕ → A → Outcome (Partial A)
  unfolding get
  put p i v = elim (get p i) [
    | none ↦ panics
    | some _ ↦ returns (record p { inner = set p.inner i v })
  ]
