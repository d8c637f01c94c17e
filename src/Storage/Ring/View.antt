-- ===== src/Storage/Ring/View.antt =====
-- The ring of ethox/src/storage/ring_buffer.rs as one list: the storage from `read_at` on, round to it.
use ethox.Base.{
  put_slice, get_elem?-put_slice, length-put_slice, ℕ, ◌+◌, ◌-◌, ◌%◌, ◌^◌, ◌≡◌, ◌≤◌, ◌<◌, ◌⊎◌, inl,
  inr, refl, ◌∙◌, none, List, ◌++◌, length, get_elem?, take, drop, get_elem?-append, get_elem?-take,
  get_elem?-drop, get_elem?-past, length-append, length-take, length-drop, list_ext, arith, ltb,
  if◌then◌else◌,
}
use native.Mathlib.Nat.{mod-eq_of_lt, mod-eq-sub-mod}
use native.Mathlib.Decide.{dec_lt}
use ethox.Storage.Ring.{RingBuffer, capacity, get_idx}

-- The elements in use come first, the free ones after them.
abbrev pub whole {ℓ} : {A : Type ℓ} → RingBuffer A → List A
whole r = drop r.read_at r.storage ++ take r.read_at r.storage

abbrev pub contents {ℓ} : {A : Type ℓ} → RingBuffer A → List A
contents r = take r.length (whole r)

-- The storage has fewer than 2^62 elements, so that no sum of indices overflows; an index stays below it, and no more
-- is in use.
pub record IsSound {ℓ} {A : Type ℓ} (r : RingBuffer A) : Type ℓ where
  pub capacity_fits : capacity r < 2 ^ 62
  pub read_fits : r.read_at ≤ capacity r - 1
  pub length_fits : r.length ≤ capacity r

pub above : (n : ℕ) → (n ≡ 0) ⊎ (0 < n)
above n = ground arith

-- A sum of an index and a length goes round at most once.
pub round_once :
    (x c : ℕ)
    → 0 < c
    → c < 2 ^ 62
    → x < c + c
    → (x % 2 ^ 64 % c ≤ c - 1) × ((x % 2 ^ 64 % c ≡ x) ⊎ (x % 2 ^ 64 % c + c ≡ x))
round_once x c pos fits h =
    let word : x % 2 ^ 64 ≡ x = omega arith in
    elim (dec_lt x c) [
      | yes p ↦ rw word (rw (mod-eq_of_lt p) (omega arith, inl refl))
      | no p ↦
          let once : x % c ≡ x - c =
            mod-eq-sub-mod {n = x} {m = c} (omega arith)
            ∙ mod-eq_of_lt {n = x - c} {m = c} (omega arith) in
          rw (word, once) (omega arith, inr (omega arith))
    ]

module _ {A : Type 0} where
  pub length-whole : (r : RingBuffer A) → r.read_at ≤ capacity r → length (whole r) ≡ capacity r
  length-whole r h = omega (
    arith,
    length-append (drop r.read_at r.storage) (take r.read_at r.storage),
    length-take r.read_at r.storage,
    length-drop r.read_at r.storage,
  )

  -- A lookup in the whole goes round the storage.
  pub get_elem?-whole :
      (xs : List A) (a i : ℕ)
      → a ≤ length xs
      → get_elem? (drop a xs ++ take a xs) i ≡ (
          if ltb i (length xs - a)
          then get_elem? xs (a + i)
          else if ltb i (length xs)
          then get_elem? xs (i - (length xs - a))
          else none)
  get_elem?-whole xs a i h = ground (
    arith,
    get_elem?-append (drop a xs) (take a xs) i,
    get_elem?-drop a xs i,
    get_elem?-take a xs (i - (length xs - a)),
    length-drop a xs,
  )

  -- Writing to the storage, where the whole has its position `p`, is writing to the whole.
  pub whole-put_slice :
      (xs ys : List A) (a p s : ℕ)
      → a ≤ length xs
      → p + length ys ≤ length xs
      → s + length ys ≤ length xs
      → (s ≡ a + p) ⊎ (s + length xs ≡ a + p)
      → drop a (put_slice xs s ys) ++ take a (put_slice xs s ys)
        ≡ put_slice (drop a xs ++ take a xs) p ys
  whole-put_slice xs ys a p s ha hp hs e = list_ext _ _ same
    where
      l : length (put_slice xs s ys) ≡ length xs
      l = length-put_slice xs ys s hs

      lw : length (drop a xs ++ take a xs) ≡ length xs
      lw = omega (arith, length-append (drop a xs) (take a xs), length-take a xs, length-drop a xs)

      same :
          (i : ℕ)
          → get_elem? (drop a (put_slice xs s ys) ++ take a (put_slice xs s ys)) i
            ≡ get_elem? (put_slice (drop a xs ++ take a xs) p ys) i
      same i = ground (
        arith,
        get_elem?-whole (put_slice xs s ys) a i (omega (arith, l)),
        get_elem?-put_slice xs ys s (a + i) hs,
        get_elem?-put_slice xs ys s (i - (length xs - a)) hs,
        get_elem?-put_slice (drop a xs ++ take a xs) ys p i (omega (arith, lw)),
        get_elem?-whole xs a i ha,
        get_elem?-past xs (a + i),
        l,
      )

  -- What is in use after a write where the free elements begin.
  pub take-put_slice :
      (xs ys zs : List A) (p n : ℕ)
      → p + (n + length zs) ≤ length xs
      → n ≤ length ys
      → take (p + n) (put_slice xs p (take n ys ++ zs)) ≡ take p xs ++ take n ys
  take-put_slice xs ys zs p n h k = list_ext _ _ same
    where
      l : length (take n ys ++ zs) ≡ n + length zs
      l = omega (arith, length-append (take n ys) zs, length-take n ys)

      same :
          (i : ℕ)
          → get_elem? (take (p + n) (put_slice xs p (take n ys ++ zs))) i
            ≡ get_elem? (take p xs ++ take n ys) i
      same i = ground (
        arith,
        get_elem?-take (p + n) (put_slice xs p (take n ys ++ zs)) i,
        get_elem?-put_slice xs (take n ys ++ zs) p i (omega (arith, l)),
        get_elem?-append (take n ys) zs (i - p),
        get_elem?-take n ys (i - p),
        get_elem?-append (take p xs) (take n ys) i,
        get_elem?-take p xs i,
        length-take p xs,
        length-take n ys,
        l,
      )

  -- The storage index of a position of the whole.
  pub get_idx_lem :
      (r : RingBuffer A) (p : ℕ)
      → IsSound r
      → p ≤ capacity r
      → (get_idx r p ≤ capacity r - 1)
        × ((get_idx r p ≡ r.read_at + p) ⊎ (get_idx r p + capacity r ≡ r.read_at + p))
  unfolding get_idx
  get_idx_lem r p v h = elim (above (capacity r)) [
    | inl none_there ↦ ground arith
    | inr some_there ↦
        ground
          (arith, round_once (r.read_at + p) (capacity r) some_there v.capacity_fits (omega arith))
  ]
