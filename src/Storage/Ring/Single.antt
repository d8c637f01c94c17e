-- ===== src/Storage/Ring/Single.antt =====
-- The discrete operations of the ring in ethox/src/storage/ring_buffer.rs.
use ethox.Base.{
  get_elem?-some, set-put_slice, ℕ, zero, suc, ◌-◌, ◌≡◌, ◌<◌, inl, inr, refl, ap, ◌∙◌, sym, some,
  returns, List, [], ◌∷◌, ◌++◌, get_elem?, drop, set, get_elem?-take, arith, ltb, if◌then◌else◌,
  true, false,
}
use ethox.Storage.Ring.Dequeue.{emptied, emptied-contents}
use ethox.Storage.Ring.Enqueue.{filled, filled-contents}
use ethox.Storage.Ring.{
  RingBuffer, capacity, is_full, is_empty, window, get_idx, get_idx_unchecked, enqueue_one,
  dequeue_one, enqueue_one_with, dequeue_one_with,
}
use ethox.Storage.Ring.View.{whole, contents, IsSound, get_elem?-whole, above, get_idx_lem}

module _ {A : Type 0} where
  set-same : (xs : List A) (i : ℕ) (x : A) → get_elem? xs i ≡ some x → set xs i x ≡ xs
  set-same [] i x h = cc
  set-same (y ∷ xs) zero x h = let e : y ≡ x = cc in ap (λ z. z ∷ xs) (sym e)
  set-same (y ∷ xs) (suc i) x h = ap (λ zs. y ∷ zs) (set-same xs i x h)

  get_idx_unchecked_lem :
      (r : RingBuffer A) (n : ℕ) → 0 < capacity r → get_idx_unchecked r n ≡ returns (get_idx r n)
  unfolding get_idx get_idx_unchecked
  get_idx_unchecked_lem r n h = ground arith

  -- `enqueue_one` refuses an element exactly when the ring is full, and leaves it as it was; otherwise the
  -- value is behind all others, and one element less is free.
  pub enqueue_one-contents :
      (r : RingBuffer A) (value : A)
      → IsSound r
      → (r' : RingBuffer A) × (enqueue_one r value ≡ returns (ltb 0 (window r), r'))
        × IsSound r'
        × (contents r' ≡ (if ltb 0 (window r) then contents r ++ (value ∷ []) else contents r))
        × (window r' ≡ window r - 1)
  unfolding enqueue_one enqueue_one_with
  enqueue_one-contents r value v = elim (above (window r)) [
    | inl full ↦
        let t : is_full r ≡ true = ground arith in
        let f : ltb 0 (window r) ≡ false = ground arith in
        (r, rw (t, f) refl, v, rw f refl, omega arith)
    | inr free ↦
        let f : is_full r ≡ false = ground arith in
        let t : ltb 0 (window r) ≡ true = ground arith in
        let (low, turn) = get_idx_lem r r.length v v.length_fits in
        let at = get_idx r r.length in
        let (x, there) = get_elem?-some r.storage at (omega arith) in
        let same = set-put_slice r.storage at value (omega arith) in
        let (sound, more, left, _) =
          filled-contents r (value ∷ []) (x ∷ []) 1 v (omega arith) (omega (arith, v.read_fits))
            (omega arith) (omega arith) in
        (
          filled r (value ∷ []) (x ∷ []) 1,
          rw (f, get_idx_unchecked_lem r r.length (omega arith), there, t, same) refl,
          sound,
          more ∙ (rw t refl),
          omega arith,
        )
  ]

  -- `dequeue_one` takes the first element of the contents away and returns it, or nothing when there is
  -- none; it never panics, and the ring stays sound.
  pub dequeue_one-contents :
      (r : RingBuffer A)
      → IsSound r
      → (r' : RingBuffer A) × (dequeue_one r ≡ returns (get_elem? (contents r) 0, r'))
        × IsSound r'
        × (contents r' ≡ drop 1 (contents r))
        × (r'.length ≡ r.length - 1)
        × (r'.storage ≡ r.storage)
  unfolding dequeue_one dequeue_one_with
  dequeue_one-contents r v = elim (above r.length) [
    | inl none_there ↦
        let t : is_empty r ≡ true = ground arith in
        let e : contents r ≡ [] = rw none_there refl in
        (r, rw (t, e) refl, v, rw e refl, omega arith, refl)
    | inr some_there ↦
        let f : is_empty r ≡ false = ground arith in
        let (x, there) =
          get_elem?-some r.storage r.read_at (omega (arith, v.read_fits, v.length_fits)) in
        let same : set r.storage r.read_at x ≡ r.storage = set-same r.storage r.read_at x there in
        let first : get_elem? (contents r) 0 ≡ some x = ground (
          arith,
          get_elem?-take r.length (whole r) 0,
          get_elem?-whole r.storage r.read_at 0 (omega (arith, v.read_fits)),
          v.read_fits,
          v.length_fits,
          there,
        ) in
        let (sound, rest) =
          emptied-contents r 1 v (omega (arith, v.read_fits, v.length_fits)) (omega arith) in
        (
          emptied r 1,
          rw (f, get_idx_unchecked_lem r 1 (omega (arith, v.length_fits)), there, first, same)
              (unfold get_idx in refl),
          sound,
          rest,
          omega arith,
          refl,
        )
  ]
