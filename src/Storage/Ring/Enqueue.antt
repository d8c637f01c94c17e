-- ===== src/Storage/Ring/Enqueue.antt =====
-- The enqueueing operations of the ring in ethox/src/storage/ring_buffer.rs refine those of a bounded queue.
use ethox.Base.{
  put_slice, length-put_slice, ℕ, ◌+◌, ◌-◌, ◌≡◌, ◌≤◌, ◌⊎◌, inl, inr, refl, ap, ◌∙◌, sym, Outcome,
  returns, List, ◌++◌, length, take, drop, min, length-append, length-take, length-drop, take_twice,
  arith, leb, ◌==◌, true, false,
}
use mathlib.Core.List.{append_assoc}
use ethox.Storage.Ring.{
  RingBuffer, capacity, window, get_idx, contiguous_window, slice, restarted, enqueue_into,
  enqueue_many_with, copied, enqueue_slice,
}
use ethox.Storage.Ring.View.{
  whole, contents, IsSound, whole-put_slice, take-put_slice, length-whole, get_idx_lem,
}

empty_or_not : (n : ℕ) → ((n ≡ 0) × ((n == 0) ≡ true)) ⊎ ((n == 0) ≡ false)
empty_or_not n = ground arith

module _ {A : Type 0} where
  restarted-facts :
      (r : RingBuffer A)
      → IsSound r
      → IsSound (restarted r)
        × (contents (restarted r) ≡ contents r)
        × ((restarted r).length ≡ r.length)
        × ((restarted r).storage ≡ r.storage)
  restarted-facts r v = elim (empty_or_not r.length) [
    | inl (e, t) ↦ rw t (
      record {
        capacity_fits = v.capacity_fits;
        read_fits = omega arith;
        length_fits = v.length_fits;
      },
      rw e refl,
      refl,
      refl,
    )
    | inr f ↦ rw f (v, refl, refl, refl)
  ]

  -- The ring after `size` elements are written to a slice of free ones, where those begin.
  abbrev pub filled : RingBuffer A → List A → List A → ℕ → RingBuffer A
  filled r items buf size = record r {
    storage = put_slice r.storage (get_idx r r.length) (take size items ++ drop size buf);
    length = r.length + size;
  }

  pub filled-contents :
      (r : RingBuffer A) (items buf : List A) (size : ℕ)
      → IsSound r
      → length buf ≤ window r
      → get_idx r r.length + length buf ≤ capacity r
      → size ≤ length buf
      → size ≤ length items
      → IsSound (filled r items buf size)
        × (contents (filled r items buf size) ≡ contents r ++ take size items)
        × (window (filled r items buf size) + size ≡ window r)
        × (capacity (filled r items buf size) ≡ capacity r)
  filled-contents r items buf size v room fits in_buf in_items = (
    record {
      capacity_fits = rw same v.capacity_fits;
      read_fits = rw same v.read_fits;
      length_fits = rw same (omega (arith, v.length_fits));
    },
    ap (take (r.length + size)) moved
        ∙ take-put_slice (whole r) items (drop size buf) r.length size
            (omega (arith, lw, l', v.length_fits)) in_items,
    rw same (omega (arith, v.length_fits)),
    same,
  )
    where
      l' : length (drop size buf) ≡ length buf - size
      l' = length-drop size buf

      l : length (take size items ++ drop size buf) ≡ length buf
      l = omega (arith, length-append (take size items) (drop size buf), length-take size items, l')

      lw : length (whole r) ≡ capacity r
      lw = length-whole r (omega (arith, v.read_fits))

      same :
          length (put_slice r.storage (get_idx r r.length) (take size items ++ drop size buf))
          ≡ capacity r
      same =
          length-put_slice r.storage (take size items ++ drop size buf) (get_idx r r.length)
            (omega (arith, l))

      moved :
          whole (filled r items buf size)
          ≡ put_slice (whole r) r.length (take size items ++ drop size buf)
      moved =
          whole-put_slice r.storage (take size items ++ drop size buf) r.read_at r.length
            (get_idx r r.length) (omega (arith, v.read_fits)) (omega (arith, l, v.length_fits))
            (omega (arith, l)) (get_idx_lem r r.length v v.length_fits).1

  -- What one call of `enqueue_many_with` that copies returns, from a ring that does not restart.
  abbrev Enqueues : RingBuffer A → List A → Outcome ((ℕ × List A) × RingBuffer A) → Type 0
  Enqueues r items m =
      (size : ℕ) × (r' : RingBuffer A) × (m ≡ returns ((size, drop size items), r'))
      × IsSound r'
      × (contents r' ≡ contents r ++ take size items)
      × (window r' + size ≡ window r)
      × (size ≤ length items)
      × ((size ≡ min (window r) (length items)) ⊎ (r'.read_at + r'.length ≡ capacity r'))
      × ((r.read_at + r.length ≡ capacity r) → size ≡ min (window r) (length items))

  -- The free slice that the closure is handed, from the ring that has restarted.
  abbrev free_slice : RingBuffer A → List A
  free_slice r = take (contiguous_window r) (drop (get_idx r r.length) r.storage)

  abbrev step_size : RingBuffer A → List A → ℕ
  step_size r items = min (length (free_slice r)) (length items)

  -- How much fits: all that can be stored, or all up to the end of the storage.
  free_slice-facts :
      (r : RingBuffer A) (items : List A)
      → IsSound r
      → (length (free_slice r) ≤ window r)
        × (get_idx r r.length + length (free_slice r) ≤ capacity r)
        × ((step_size r items ≡ min (window r) (length items))
            ⊎ (r.read_at + (r.length + step_size r items) ≡ capacity r))
        × ((r.read_at + r.length ≡ capacity r) → step_size r items ≡ min (window r) (length items))
  unfolding contiguous_window
  free_slice-facts r items v =
      let (idx, turn) = get_idx_lem r r.length v v.length_fits in
      let l = length-take (contiguous_window r) (drop (get_idx r r.length) r.storage) in
      let l' = length-drop (get_idx r r.length) r.storage in
      (
        omega (arith, l, l'),
        omega (arith, l, l', v.read_fits),
        ground (arith, l, l', v.read_fits, v.length_fits, turn),
        (λ full. ground (arith, l, l', v.read_fits, v.length_fits, turn, idx)),
      )

  enqueue_into-copied :
      (r : RingBuffer A) (items : List A)
      → IsSound r
      → enqueue_into r (copied items)
        ≡ returns (
          (step_size r items, drop (step_size r items) items),
          filled r items (free_slice r) (step_size r items),
        )
  unfolding enqueue_into slice
  enqueue_into-copied r items v =
      let (room, fits, _, _) = free_slice-facts r items v in
      let (idx, turn) = get_idx_lem r r.length v v.length_fits in
      let window_fits : leb (get_idx r r.length + contiguous_window r) (capacity r) ≡ true =
        unfold contiguous_window in ground (arith, v.read_fits, idx) in
      let size_fits : leb (step_size r items) (contiguous_window r) ≡ true =
        ground (arith, length-take (contiguous_window r) (drop (get_idx r r.length) r.storage)) in
      rw (window_fits, size_fits) refl

  restarted-end :
      (r : RingBuffer A)
      → IsSound r
      → r.read_at + r.length ≡ capacity r
      → ((restarted r).read_at + (restarted r).length ≡ capacity (restarted r)) ⊎ (capacity r ≡ 0)
  restarted-end r v full = elim (empty_or_not r.length) [
    | inl (e, t) ↦ inr (omega (arith, v.read_fits))
    | inr f ↦ rw f (inl full)
  ]

  enqueue_step :
      (r : RingBuffer A) (items : List A)
      → IsSound r
      → Enqueues r items (enqueue_many_with r (copied items))
  unfolding enqueue_many_with
  enqueue_step r items v =
      let (v', same, same_length, same_storage) = restarted-facts r v in
      let r₀ : RingBuffer A = restarted r in
      let size = step_size r₀ items in
      let (room, fits, all, at_end) = free_slice-facts r₀ items v' in
      let (sound, more, left, same_capacity) =
        filled-contents r₀ items (free_slice r₀) size v' room fits (omega arith) (omega arith) in
      let same_window : window r₀ ≡ window r = λ i. length (same_storage i) - same_length i in
      (
        size,
        filled r₀ items (free_slice r₀) size,
        enqueue_into-copied r₀ items v',
        sound,
        more ∙ ap (λ xs. xs ++ take size items) same,
        left ∙ same_window,
        omega arith,
        elim all [
          | inl e ↦ inl (e ∙ ap (λ n. min n (length items)) same_window)
          | inr e ↦ inr (e ∙ sym same_capacity)
        ],
        (λ full. elim (restarted-end r v full) [
          | inl e ↦ at_end e ∙ ap (λ n. min n (length items)) same_window
          | inr e ↦ omega (arith, room, same_window)
        ]),
      )

  -- `enqueue_slice` appends to the contents as many of the items as there is room for, from the front,
  -- and returns their number; it never panics, and the ring stays sound.
  pub enqueue_slice-contents :
      (r : RingBuffer A) (items : List A)
      → IsSound r
      → let size = min (window r) (length items) in
        (r' : RingBuffer A) × (enqueue_slice r items ≡ returns (size, r'))
        × IsSound r'
        × (contents r' ≡ contents r ++ take size items)
        × (window r' + size ≡ window r)
  unfolding enqueue_slice
  enqueue_slice-contents r items v =
      let (size_1, r', runs, sound, more, left, in_items, all, _) = enqueue_step r items v in
      let rest = drop size_1 items in
      let (size_2, r'', runs', sound', more', left', in_rest, all', at_end) =
        enqueue_step r' rest sound in
      let l = length-drop size_1 items in
      let rest_taken : size_2 ≡ min (window r') (length rest) = elim all [
        | inl e ↦ omega arith
        | inr e ↦ at_end e
      ] in
      let total : size_1 + size_2 ≡ min (window r) (length items) = omega arith in
      (
        r'',
        (rw (runs, runs') refl) ∙ ap (λ n. returns (n, r'')) total,
        sound',
        more'
            ∙ ap (λ xs. xs ++ take size_2 rest) more
            ∙ append_assoc (contents r) (take size_1 items) (take size_2 rest)
            ∙ ap (λ xs. contents r ++ xs) (take_twice size_1 size_2 items in_items)
            ∙ ap (λ n. contents r ++ take n items) total,
        omega arith,
      )
