-- ===== src/Storage/Ring/Random.antt =====
-- The random access to the ring in ethox/src/storage/ring_buffer.rs, on the ring as one list.
use ethox.Base.{
  ℕ, ◌+◌, ◌-◌, ◌≡◌, ◌≤◌, ◌<◌, inl, inr, refl, sym, returns, panics, length, take, drop, min,
  get_elem?-take, get_elem?-drop, length-take, length-drop, list_ext, take_twice, drop_twice, arith,
  ltb, leb, if◌then◌else◌, true, false, Bool-cases,
}
use ethox.Storage.Ring.{
  RingBuffer, capacity, get_idx, get_allocated, read_allocated, dequeue_allocated,
}
use ethox.Storage.Ring.View.{whole, contents, IsSound, get_elem?-whole, length-whole, get_idx_lem}
use native.Mathlib.Decide.{dec_le}

module _ {A : Type 0} where
  length-contents : (r : RingBuffer A) → IsSound r → length (contents r) ≡ r.length
  length-contents r v = omega (
    arith,
    length-take r.length (whole r),
    length-whole r (omega (arith, v.read_fits)),
    v.length_fits,
  )

  -- The slice of the allocated elements at an offset, up to the end of the storage.
  abbrev part_size : RingBuffer A → ℕ → ℕ → ℕ
  part_size r offset size = min (min size (r.length - offset)) (capacity r - get_idx r offset)

  get_allocated_lem :
      (r : RingBuffer A) (offset size : ℕ)
      → offset ≤ r.length
      → get_allocated r offset size ≡ (get_idx r offset, part_size r offset size)
  unfolding get_allocated
  get_allocated_lem r offset size h =
      let f : ltb r.length offset ≡ false = ground arith in rw f refl

  get_allocated-past :
      (r : RingBuffer A) (offset size : ℕ)
      → r.length < offset
      → get_allocated r offset size ≡ (0, 0)
  unfolding get_allocated
  get_allocated-past r offset size h =
      let t : ltb r.length offset ≡ true = ground arith in rw t refl

  part_lem :
      (r : RingBuffer A) (offset size : ℕ)
      → IsSound r
      → offset ≤ r.length
      → take (part_size r offset size) (drop (get_idx r offset) r.storage)
        ≡ take (part_size r offset size) (drop offset (contents r))
  part_lem r offset size v h = list_ext _ _ (λ i. ground (
    arith,
    get_elem?-take (part_size r offset size) (drop (get_idx r offset) r.storage) i,
    get_elem?-take (part_size r offset size) (drop offset (contents r)) i,
    get_elem?-drop (get_idx r offset) r.storage i,
    get_elem?-drop offset (contents r) i,
    get_elem?-take r.length (whole r) (offset + i),
    get_elem?-whole r.storage r.read_at (offset + i) (omega (arith, v.read_fits)),
    get_idx_lem r offset v (omega (arith, v.length_fits)),
    v.length_fits,
    v.read_fits,
  ))

  -- Two slices are all that is allocated.
  two_parts :
      (r : RingBuffer A) (offset size : ℕ)
      → IsSound r
      → offset ≤ r.length
      → let n = part_size r offset size in
        n + part_size r (offset + n) (size - n) ≡ min size (r.length - offset)
  two_parts r offset size v h =
      let n = part_size r offset size in
      ground (
        arith,
        get_idx_lem r offset v (omega (arith, v.length_fits)),
        get_idx_lem r (offset + n) v (omega (arith, v.length_fits)),
        v.length_fits,
        v.read_fits,
      )

  -- `read_allocated` copies out what the contents hold from an offset, as much as there is room for, and
  -- returns its number; from an offset past them, nothing.
  pub read_allocated-contents :
      (r : RingBuffer A) (offset room : ℕ)
      → IsSound r
      → let size = min room (r.length - offset) in
        read_allocated r offset room ≡ (size, take size (drop offset (contents r)))
  unfolding read_allocated
  read_allocated-contents r offset room v = elim (dec_le offset r.length) [
    | yes h ↦
        let n = part_size r offset room in
        let m = part_size r (offset + n) (room - n) in
        let h' : offset + n ≤ r.length = omega arith in
        let l : n ≤ length (drop offset (contents r)) =
          omega (arith, length-drop offset (contents r), length-contents r v) in
        rw
          (
            get_allocated_lem r offset room h,
            get_allocated_lem r (offset + n) (room - n) h',
            part_lem r offset room v h,
            part_lem r (offset + n) (room - n) v h',
            sym (drop_twice offset n (contents r)),
            take_twice n m (drop offset (contents r)) l,
            two_parts r offset room v h,
          )
          refl
    | no h ↦
        let e : min room (r.length - offset) ≡ 0 = omega arith in
        rw
          (
            get_allocated-past r offset room (omega arith),
            get_allocated-past r (offset + 0) (room - 0) (omega arith),
            e,
          )
          refl
  ]

  -- `dequeue_allocated` drops as many elements from the front of the contents, and panics, as its
  -- assertion says, exactly when they are fewer.
  pub dequeue_allocated-contents :
      (r : RingBuffer A) (count : ℕ)
      → IsSound r
      → (r' : RingBuffer A) × (dequeue_allocated r count
          ≡ (if leb count r.length then returns r' else panics))
        × (count ≤ r.length → IsSound r' × (contents r' ≡ drop count (contents r)))
  unfolding dequeue_allocated
  dequeue_allocated-contents r count v =
      let r' : RingBuffer A = record r { length = r.length - count; read_at = get_idx r count } in
      (
        r',
        elim (Bool-cases (leb count r.length)) [ inl t ↦ rw t refl | inr f ↦ rw f refl ],
        (λ h.
            let (low, turn) = get_idx_lem r count v (omega (arith, v.length_fits)) in
            (
              record {
                capacity_fits = v.capacity_fits;
                read_fits = low;
                length_fits = omega (arith, v.length_fits);
              },
              list_ext _ _ (λ i. ground (
                arith,
                get_elem?-take (r.length - count) (whole r') i,
                get_elem?-whole r.storage (get_idx r count) i (omega (arith, low)),
                get_elem?-drop count (contents r) i,
                get_elem?-take r.length (whole r) (count + i),
                get_elem?-whole r.storage r.read_at (count + i) (omega (arith, v.read_fits)),
                v.length_fits,
                v.read_fits,
                low,
                turn,
              )),
            )),
      )
