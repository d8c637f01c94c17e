-- ===== src/Storage/Ring/Dequeue.antt =====
-- The dequeueing operations of the ring in ethox/src/storage/ring_buffer.rs refine those of a bounded queue.
use ethox.Base.{
  put_slice-same, ℕ, ◌+◌, ◌-◌, ◌%◌, ◌^◌, ◌≡◌, ◌≤◌, ◌⊎◌, inl, inr, refl, ap, ◌∙◌, Outcome, returns,
  List, length, get_elem?, take, drop, min, get_elem?-take, get_elem?-drop, length-take,
  length-drop, list_ext, take_twice, drop_twice, arith, ltb, leb, if◌then◌else◌, true,
}
use ethox.Storage.Ring.{RingBuffer, capacity, slice, dequeue_many_with, copied_out, dequeue_slice}
use ethox.Storage.Ring.View.{
  whole, contents, IsSound, get_elem?-whole, length-whole, above, round_once,
}

module _ {A : Type 0} where
  -- Where the reader is after `size` elements of a slice.
  abbrev pub advanced : RingBuffer A → ℕ → ℕ
  advanced r size = if ltb 0 (capacity r) then (r.read_at + size) % 2 ^ 64 % capacity r else 0

  advanced_lem :
      (r : RingBuffer A) (size : ℕ)
      → IsSound r
      → r.read_at + size ≤ capacity r
      → (advanced r size ≤ capacity r - 1)
        × ((advanced r size ≡ r.read_at + size)
            ⊎ ((r.read_at + size ≡ capacity r) × (advanced r size ≡ 0)))
  advanced_lem r size v h = elim (above (capacity r)) [
    | inl none_there ↦ ground arith
    | inr some_there ↦
        ground (
          arith,
          round_once (r.read_at + size) (capacity r) some_there v.capacity_fits (omega arith),
        )
  ]

  abbrev pub emptied : RingBuffer A → ℕ → RingBuffer A
  emptied r size = record r { read_at = advanced r size; length = r.length - size }

  pub emptied-contents :
      (r : RingBuffer A) (size : ℕ)
      → IsSound r
      → r.read_at + size ≤ capacity r
      → size ≤ r.length
      → IsSound (emptied r size) × (contents (emptied r size) ≡ drop size (contents r))
  emptied-contents r size v h k = (
    record {
      capacity_fits = v.capacity_fits;
      read_fits = (advanced_lem r size v h).0;
      length_fits = omega (arith, v.length_fits);
    },
    list_ext _ _ same,
  )
    where
      same :
          (i : ℕ) → get_elem? (contents (emptied r size)) i ≡ get_elem? (drop size (contents r)) i
      same i = ground (
        arith,
        get_elem?-take (r.length - size) (whole (emptied r size)) i,
        get_elem?-whole r.storage (advanced r size) i (omega (arith, advanced_lem r size v h)),
        get_elem?-drop size (contents r) i,
        get_elem?-take r.length (whole r) (size + i),
        get_elem?-whole r.storage r.read_at (size + i) (omega (arith, v.read_fits)),
        v.length_fits,
        advanced_lem r size v h,
      )

  -- What one call of `dequeue_many_with` that copies returns.
  abbrev Dequeues : RingBuffer A → ℕ → Outcome ((ℕ × List A) × RingBuffer A) → Type 0
  Dequeues r room m =
      (size : ℕ) × (r' : RingBuffer A) × (m ≡ returns ((size, take size (contents r)), r'))
      × IsSound r'
      × (contents r' ≡ drop size (contents r))
      × (r'.length + size ≡ r.length)
      × (size ≤ room)
      × (size ≤ length (contents r))
      × ((size ≡ min r.length room) ⊎ (r'.read_at ≡ 0))
      × ((r.read_at ≡ 0) → size ≡ min r.length room)
      × (capacity r' ≡ capacity r)

  -- The slice of the storage that the closure is handed.
  abbrev front_slice : RingBuffer A → List A
  front_slice r = take (min r.length (capacity r - r.read_at)) (drop r.read_at r.storage)

  -- The slice is the front of the contents.
  front_slice_lem :
      (r : RingBuffer A) (size : ℕ)
      → IsSound r
      → (length (front_slice r) ≡ min r.length (capacity r - r.read_at))
        × (size ≤ length (front_slice r) → take size (front_slice r) ≡ take size (contents r))
  front_slice_lem r size v = (l, λ h. list_ext _ _ (same h))
    where
      l : length (front_slice r) ≡ min r.length (capacity r - r.read_at)
      l = omega (
        arith,
        length-take (min r.length (capacity r - r.read_at)) (drop r.read_at r.storage),
        length-drop r.read_at r.storage,
      )

      same :
          size ≤ length (front_slice r)
          → (i : ℕ) → get_elem? (take size (front_slice r)) i ≡ get_elem? (take size (contents r)) i
      same h i = ground (
        arith,
        get_elem?-take size (front_slice r) i,
        get_elem?-take (min r.length (capacity r - r.read_at)) (drop r.read_at r.storage) i,
        get_elem?-drop r.read_at r.storage i,
        get_elem?-take size (contents r) i,
        get_elem?-take r.length (whole r) i,
        get_elem?-whole r.storage r.read_at i (omega (arith, v.read_fits)),
        l,
      )

  dequeue_step :
      (r : RingBuffer A) (room : ℕ)
      → IsSound r
      → Dequeues r room (dequeue_many_with r (copied_out room))
  unfolding dequeue_many_with slice
  dequeue_step r room v =
      let max_size = min r.length (capacity r - r.read_at) in
      let size = min (length (front_slice r)) room in
      let (l, front) = front_slice_lem r size v in
      let slice_fits : leb (r.read_at + max_size) (capacity r) ≡ true =
        ground (arith, v.read_fits) in
      let size_fits : leb size max_size ≡ true = ground (arith, l) in
      let (sound, rest) =
        emptied-contents r size v (omega (arith, v.read_fits)) (omega (arith, l)) in
      let (_, turn) = advanced_lem r size v (omega (arith, v.read_fits)) in
      let same = put_slice-same r.storage r.read_at max_size (omega (arith, v.read_fits)) in
      (
        size,
        emptied r size,
        rw (slice_fits, size_fits, front (omega arith), same) refl,
        sound,
        rest,
        omega (arith, l),
        omega arith,
        omega (
          arith,
          l,
          length-take r.length (whole r),
          length-whole r (omega (arith, v.read_fits)),
          v.length_fits,
        ),
        ground (arith, l, turn),
        (λ start. ground (arith, l, v.length_fits)),
        refl,
      )

  -- `dequeue_slice` copies out and removes as many elements as are in use and as the slice has room for,
  -- from the front of the contents, and returns their number; it never panics, and the ring stays
  -- sound and keeps its capacity.
  pub dequeue_slice-contents :
      (r : RingBuffer A) (room : ℕ)
      → IsSound r
      → let size = min r.length room in
        (r' : RingBuffer A) × (dequeue_slice r room ≡ returns ((size, take size (contents r)), r'))
        × IsSound r'
        × (contents r' ≡ drop size (contents r))
        × (r'.length + size ≡ r.length)
        × (capacity r' ≡ capacity r)
  unfolding dequeue_slice
  dequeue_slice-contents r room v =
      let (size_1, r', runs, sound, rest, left, in_room, in_contents, all, _, same) =
        dequeue_step r room v in
      let (size_2, r'', runs', sound', rest', left', in_room', _, _, at_start, same') =
        dequeue_step r' (room - size_1) sound in
      let rest_taken : size_2 ≡ min r'.length (room - size_1) = elim all [
        | inl e ↦ omega arith
        | inr e ↦ at_start e
      ] in
      let total : size_1 + size_2 ≡ min r.length room = omega arith in
      (
        r'',
        (rw (runs, runs', rest, take_twice size_1 size_2 (contents r) in_contents) refl)
            ∙ ap (λ n. returns ((n, take n (contents r)), r'')) total,
        sound',
        rest'
            ∙ ap (drop size_2) rest
            ∙ drop_twice size_1 size_2 (contents r)
            ∙ ap (λ n. drop n (contents r)) total,
        omega arith,
        same' ∙ same,
      )
