-- ===== src/Storage/Ring/Write.antt =====
-- Writing at random to the ring in ethox/src/storage/ring_buffer.rs, and enqueueing what is written.
use ethox.Base.{
  put_slice, get_elem?-put_slice, length-put_slice, put_slice_twice, ℕ, ◌+◌, ◌-◌, ◌≡◌, ◌≤◌, ◌<◌,
  ◌⊎◌, refl, ap, ◌∙◌, returns, List, ◌++◌, length, take, drop, min, get_elem?-append,
  get_elem?-take, get_elem?-drop, get_elem?-past, length-take, length-drop, list_ext, take_twice,
  arith, ltb, leb, true, false,
}
use ethox.Storage.Ring.{
  RingBuffer, capacity, window, get_idx, get_unallocated, write_unallocated, enqueue_unallocated,
}
use ethox.Storage.Ring.View.{whole, contents, IsSound, whole-put_slice, length-whole, get_idx_lem}

module _ {A : Type 0} where
  -- The slice of the free elements at an offset, up to the end of the storage.
  abbrev part_size : RingBuffer A → ℕ → ℕ → ℕ
  part_size r offset size =
      min (min size (window r - offset)) (capacity r - get_idx r (r.length + offset))

  get_unallocated_lem :
      (r : RingBuffer A) (offset size : ℕ)
      → offset ≤ window r
      → get_unallocated r offset size ≡ (get_idx r (r.length + offset), part_size r offset size)
  unfolding get_unallocated
  get_unallocated_lem r offset size h =
      let f : ltb (window r) offset ≡ false = ground arith in rw f refl

  get_unallocated-past :
      (r : RingBuffer A) (offset size : ℕ)
      → window r < offset
      → get_unallocated r offset size ≡ (0, 0)
  unfolding get_unallocated
  get_unallocated-past r offset size h =
      let t : ltb (window r) offset ≡ true = ground arith in rw t refl

  two_parts :
      (r : RingBuffer A) (offset size : ℕ)
      → IsSound r
      → offset ≤ window r
      → let n = part_size r offset size in
        n + part_size r (offset + n) (size - n) ≡ min size (window r - offset)
  two_parts r offset size v h =
      let n = part_size r offset size in
      ground (
        arith,
        get_idx_lem r (r.length + offset) v (omega (arith, v.length_fits)),
        get_idx_lem r (r.length + (offset + n)) v (omega (arith, v.length_fits)),
        v.length_fits,
        v.read_fits,
      )

  -- What one slice that is written to changes.
  abbrev put_part : RingBuffer A → ℕ → List A → RingBuffer A
  put_part r offset items = record r {
    storage =
        put_slice r.storage (get_idx r (r.length + offset))
          (take (part_size r offset (length items)) items);
  }

  put_part_lem :
      (r : RingBuffer A) (offset : ℕ) (items : List A)
      → IsSound r
      → offset ≤ window r
      → IsSound (put_part r offset items)
        × (whole (put_part r offset items)
            ≡ put_slice
                (whole r)
                (r.length + offset)
                (take (part_size r offset (length items)) items))
        × (capacity (put_part r offset items) ≡ capacity r)
        × ((p : ℕ) → get_idx (put_part r offset items) p ≡ get_idx r p)
  unfolding get_idx
  put_part_lem r offset items v h = (
    record {
      capacity_fits = rw same v.capacity_fits;
      read_fits = rw same v.read_fits;
      length_fits = rw same v.length_fits;
    },
    whole-put_slice r.storage (take n items) r.read_at (r.length + offset) start
        (omega (arith, v.read_fits)) (omega (arith, l, v.length_fits)) (omega (arith, l, low)) turn,
    same,
    (λ p. rw same refl),
  )
    where
      start : ℕ
      start = get_idx r (r.length + offset)

      n : ℕ
      n = part_size r offset (length items)

      l : length (take n items) ≡ n
      l = omega (arith, length-take n items)

      low : start ≤ capacity r - 1
      low = (get_idx_lem r (r.length + offset) v (omega (arith, v.length_fits))).0

      turn :
          (start ≡ r.read_at + (r.length + offset))
          ⊎ (start + capacity r ≡ r.read_at + (r.length + offset))
      turn = (get_idx_lem r (r.length + offset) v (omega (arith, v.length_fits))).1

      same : length (put_slice r.storage start (take n items)) ≡ capacity r
      same = length-put_slice r.storage (take n items) start (omega (arith, l, low))

  join_parts :
      (xs ys zs items : List A) (n m k p q : ℕ)
      → ys ≡ put_slice xs p (take n items)
      → zs ≡ put_slice ys q (take m (drop n items))
      → q ≡ p + n
      → n ≤ length items
      → m ≤ length items - n
      → n + m ≡ k
      → p + k ≤ length xs
      → zs ≡ put_slice xs p (take k items)
  join_parts xs ys zs items n m k p q first second behind hn hm all room =
      let l : length (take n items) ≡ n = omega (arith, length-take n items) in
      let l' : length (take m (drop n items)) ≡ m =
        omega (arith, length-take m (drop n items), length-drop n items) in
      let at : q ≡ p + length (take n items) = omega arith in
      second
      ∙ (λ i. put_slice (first i) (at i) (take m (drop n items)))
      ∙ put_slice_twice xs (take n items) (take m (drop n items)) p (omega arith)
      ∙ ap (put_slice xs p) (take_twice n m items hn ∙ ap (λ j. take j items) all)

  take_before :
      (xs ys zs : List A) (n p : ℕ)
      → zs ≡ put_slice xs p ys
      → n ≤ p
      → p + length ys ≤ length xs
      → take n zs ≡ take n xs
  take_before xs ys zs n p e h room =
      ap (take n) e
      ∙ list_ext _ _ (λ i. ground (
        arith,
        get_elem?-take n (put_slice xs p ys) i,
        get_elem?-put_slice xs ys p i room,
        get_elem?-take n xs i,
      ))

  take_through :
      (xs ys zs : List A) (n offset size : ℕ)
      → zs ≡ put_slice xs (n + offset) ys
      → length ys ≡ size
      → n + offset + size ≤ length xs
      → take (n + (offset + size)) zs ≡ take n xs ++ (take offset (drop n xs) ++ ys)
  take_through xs ys zs n offset size e l room =
      ap (take (n + (offset + size))) e
      ∙ list_ext _ _ (λ i. ground (
        arith,
        get_elem?-take (n + (offset + size)) (put_slice xs (n + offset) ys) i,
        get_elem?-put_slice xs ys (n + offset) i (omega arith),
        get_elem?-append (take n xs) (take offset (drop n xs) ++ ys) i,
        get_elem?-take n xs i,
        get_elem?-append (take offset (drop n xs)) ys (i - n),
        get_elem?-take offset (drop n xs) (i - n),
        get_elem?-drop n xs (i - n),
        length-take n xs,
        length-take offset (drop n xs),
        length-drop n xs,
        get_elem?-past ys (i - n - offset),
      ))

  -- What the two slices of `write_unallocated` change.
  abbrev written : RingBuffer A → ℕ → List A → RingBuffer A
  written r offset items =
      let n = part_size r offset (length items) in
      put_part (put_part r offset items) (offset + n) (drop n items)

  write_unallocated_lem :
      (r : RingBuffer A) (offset : ℕ) (items : List A)
      → IsSound r
      → offset ≤ window r
      → let size = min (length items) (window r - offset) in
        (write_unallocated r offset items ≡ (size, written r offset items))
        × IsSound (written r offset items)
        × (whole (written r offset items)
            ≡ put_slice (whole r) (r.length + offset) (take size items))
        × (capacity (written r offset items) ≡ capacity r)
  unfolding write_unallocated
  write_unallocated_lem r offset items v h =
      let n = part_size r offset (length items) in
      let r' : RingBuffer A = put_part r offset items in
      let (v', first, same, idx) = put_part_lem r offset items v h in
      let h' : offset + n ≤ window r' = omega arith in
      let (v'', second, same', _) = put_part_lem r' (offset + n) (drop n items) v' h' in
      let l : length (drop n items) ≡ length items - n = length-drop n items in
      let n' = part_size r' (offset + n) (length (drop n items)) in
      let all : n + n' ≡ min (length items) (window r - offset) =
        omega
          (arith, two_parts r offset (length items) v h, idx (r.length + (offset + n)), l, same) in
      let in_items : n ≤ length items = omega arith in
      let room : r.length + offset + min (length items) (window r - offset) ≤ length (whole r) =
        omega (arith, length-whole r (omega (arith, v.read_fits)), v.length_fits) in
      (
        (rw
              (
                get_unallocated_lem r offset (length items) h,
                get_unallocated_lem r' (offset + n) (length (drop n items)) h',
              )
              refl)
            ∙ ap (λ k. (k, written r offset items)) all,
        v'',
        join_parts (whole r) (whole r') (whole (written r offset items)) items n n' _ _ _ first
            second (omega arith) in_items (omega arith) all room,
        same' ∙ same,
      )

  -- From an offset that is not past the free elements, `write_unallocated` stores as many of the items as
  -- fit behind it and returns their number, while the contents stay; enqueueing up to their end then makes
  -- the contents, the free elements before the offset and those items the contents.
  pub write_unallocated-contents :
      (r : RingBuffer A) (offset : ℕ) (items : List A)
      → IsSound r
      → offset ≤ window r
      → let size = min (length items) (window r - offset) in
        (r' : RingBuffer A) × (r'' : RingBuffer A) × (write_unallocated r offset items ≡ (size, r'))
        × (contents r' ≡ contents r)
        × (enqueue_unallocated r' (offset + size) ≡ returns r'')
        × IsSound r''
        × (contents r'' ≡ contents r ++ (take offset (drop r.length (whole r)) ++ take size items))
  unfolding enqueue_unallocated
  write_unallocated-contents r offset items v h =
      let size = min (length items) (window r - offset) in
      let r' : RingBuffer A = written r offset items in
      let (runs, v', change, same) = write_unallocated_lem r offset items v h in
      let r'' : RingBuffer A = record r' { length = r.length + (offset + size) } in
      let l : length (take size items) ≡ size = omega (arith, length-take size items) in
      let lw : length (whole r) ≡ capacity r = length-whole r (omega (arith, v.read_fits)) in
      let fits : leb (offset + size) (window r') ≡ true = ground (arith, same) in
      (
        r',
        r'',
        runs,
        take_before (whole r) (take size items) (whole r') r.length (r.length + offset) change
            (omega arith) (omega (arith, l, lw, v.length_fits)),
        rw fits refl,
        record {
          capacity_fits = v'.capacity_fits;
          read_fits = v'.read_fits;
          length_fits = omega (arith, v.length_fits, same);
        },
        take_through (whole r) (take size items) (whole r') r.length offset size change l
            (omega (arith, lw, v.length_fits)),
      )
