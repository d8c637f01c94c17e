-- ===== src/Storage/Ring.antt =====
-- `RingBuffer` of ethox/src/storage/ring_buffer.rs. A closure that the source hands a mutable element
-- or slice is a function that also returns what it leaves there; a method that returns a mutable slice
-- returns the index and the length of that slice.
pub mod View
pub mod Enqueue
pub mod Dequeue
pub mod Single
pub mod Random
pub mod Write
use ethox.Base.{
  put_slice, ℕ, ◌+◌, ◌-◌, ◌%◌, ◌^◌, min, Bool, Option, none, some, ◌⊎◌, inl, inr, Outcome, returns,
  panics, ensure, unwrap, ◌>>=◌, ◌>>◌, List, ◌++◌, length, get_elem?, take, drop, set, ltb, leb,
  ◌==◌, if◌then◌else◌, map,
}

pub record RingBuffer {ℓ} (A : Type ℓ) : Type ℓ where
  pub storage : List A
  pub read_at : ℕ
  pub length : ℕ

module _ {ℓ} {A : Type ℓ} where
  abbrev pub new : List A → RingBuffer A
  new storage = record { storage = storage; read_at = 0; length = 0 }

  unfoldable pub clear : RingBuffer A → RingBuffer A
  clear r = record r { read_at = 0; length = 0 }

  abbrev pub capacity : RingBuffer A → ℕ
  capacity r = length r.storage

  -- `Resettable::reset` of an element is the argument.
  unfoldable pub reset : (A → A) → RingBuffer A → RingBuffer A
  unfolding clear
  reset reset_element r = record (clear r) { storage = map reset_element r.storage }

  -- `capacity - len`, which is not negative as long as the ring is sound.
  abbrev pub window : RingBuffer A → ℕ
  window r = capacity r - r.length

  abbrev pub is_empty : RingBuffer A → Bool
  is_empty r = r.length == 0

  abbrev pub is_full : RingBuffer A → Bool
  is_full r = window r == 0

  -- The sum is one of `usize`.
  unfoldable pub get_idx : RingBuffer A → ℕ → ℕ
  get_idx r idx = if ltb 0 (capacity r) then (r.read_at + idx) % 2 ^ 64 % capacity r else 0

  -- A remainder by zero panics.
  unfoldable pub get_idx_unchecked : RingBuffer A → ℕ → Outcome ℕ
  get_idx_unchecked r idx =
      if capacity r == 0 then panics else returns ((r.read_at + idx) % 2 ^ 64 % capacity r)

  unfoldable pub contiguous_window : RingBuffer A → ℕ
  unfolding get_idx
  contiguous_window r = min (window r) (capacity r - get_idx r r.length)

  unfoldable pub enqueue_one_with {κ κ'} :
      {R : Type κ} {E : Type κ'}
      → RingBuffer A
      → (A → (R ⊎ E) × A)
      → Outcome (Option (R ⊎ E) × RingBuffer A)
  enqueue_one_with r f = if is_full r then returns (none, r) else (do
    index ← get_idx_unchecked r r.length
    element ← unwrap (get_elem? r.storage index)
    let (result, element') = f element
    let r' : RingBuffer A = record r { storage = set r.storage index element' }
    returns (some result, elim result [ inl _ ↦ record r' { length = r.length + 1 } | inr _ ↦ r' ]))

  -- `Ok`, of a reference to an element that then holds this value.
  abbrev accept : A → (A ⊎ Unit {0}) × A
  accept element = (inl element, element)

  -- `enqueue_one`, and the value that is written to the element it returns.
  unfoldable pub enqueue_one : RingBuffer A → A → Outcome (Bool × RingBuffer A)
  enqueue_one r value = do
    (result, r') ← enqueue_one_with r (λ element. accept value)
    returns (elim result [ none ↦ Bool.false | some _ ↦ Bool.true ], r')

  unfoldable pub dequeue_one_with {κ κ'} :
      {R : Type κ} {E : Type κ'}
      → RingBuffer A
      → (A → (R ⊎ E) × A)
      → Outcome (Option (R ⊎ E) × RingBuffer A)
  dequeue_one_with r f = if is_empty r then returns (none, r) else (do
    next_at ← get_idx_unchecked r 1
    element ← unwrap (get_elem? r.storage r.read_at)
    let (result, element') = f element
    let r' : RingBuffer A = record r { storage = set r.storage r.read_at element' }
    returns (
      some result,
      elim result [ inl _ ↦ record r' { length = r.length - 1; read_at = next_at } | inr _ ↦ r' ],
    ))

  -- The element that `dequeue_one` returns a reference to.
  unfoldable pub dequeue_one : RingBuffer A → Outcome (Option A × RingBuffer A)
  dequeue_one r = do
    (result, r') ← dequeue_one_with r accept
    returns (elim result [ none ↦ none | some (inl x) ↦ some x | some (inr _) ↦ none ], r')

  -- `&mut storage[start..start + len]`
  unfoldable pub slice : List A → ℕ → ℕ → Outcome (List A)
  slice xs start len =
      if leb (start + len) (length xs) then returns (take len (drop start xs)) else panics

  -- An empty ring begins again at the start of its storage.
  abbrev pub restarted : RingBuffer A → RingBuffer A
  restarted r = if r.length == 0 then record r { read_at = 0 } else r

  -- `enqueue_many_with` behind that.
  unfoldable pub enqueue_into {κ} :
      {R : Type κ} → RingBuffer A → (List A → ℕ × R × List A) → Outcome ((ℕ × R) × RingBuffer A)
  enqueue_into r f =
      let write_at = get_idx r r.length in
      let max_size = contiguous_window r in
      (do
        buf ← slice r.storage write_at max_size
        let (size, result, buf') = f buf
        ensure (leb size max_size)
        returns (
          (size, result),
          record r { storage = put_slice r.storage write_at buf'; length = r.length + size },
        ))

  -- The closure returns a size, a result, and what it leaves in the slice.
  unfoldable pub enqueue_many_with {κ} :
      {R : Type κ} → RingBuffer A → (List A → ℕ × R × List A) → Outcome ((ℕ × R) × RingBuffer A)
  unfolding enqueue_into
  enqueue_many_with r f = enqueue_into (restarted r) f

  -- The start and the length of the slice that it returns.
  unfoldable pub enqueue_many : RingBuffer A → ℕ → Outcome (ℕ × RingBuffer A)
  enqueue_many r size = do
    (result, r') ← enqueue_many_with r (λ buf. (min size (length buf), tt {0}, buf))
    returns (result.0, r')

  -- `buf[..size].copy_from_slice(&data[..size])`
  abbrev pub copied : List A → List A → ℕ × List A × List A
  copied items buf =
      let size = min (length buf) (length items) in
      (size, drop size items, take size items ++ drop size buf)

  unfoldable pub enqueue_slice : RingBuffer A → List A → Outcome (ℕ × RingBuffer A)
  enqueue_slice r items = do
    ((size_1, rest), r') ← enqueue_many_with r (copied items)
    ((size_2, _), r'') ← enqueue_many_with r' (copied rest)
    returns (size_1 + size_2, r'')

  unfoldable pub dequeue_many_with {κ} :
      {R : Type κ} → RingBuffer A → (List A → ℕ × R × List A) → Outcome ((ℕ × R) × RingBuffer A)
  dequeue_many_with r f =
      let max_size = min r.length (capacity r - r.read_at) in
      (do
        buf ← slice r.storage r.read_at max_size
        let (size, result, buf') = f buf
        ensure (leb size max_size)
        returns (
          (size, result),
          record r {
            storage = put_slice r.storage r.read_at buf';
            read_at = if ltb 0 (capacity r) then (r.read_at + size) % 2 ^ 64 % capacity r else 0;
            length = r.length - size;
          },
        ))

  -- The elements of the slice that it returns.
  unfoldable pub dequeue_many : RingBuffer A → ℕ → Outcome (List A × RingBuffer A)
  dequeue_many r size = do
    ((_, out), r') ←
        dequeue_many_with r
          (λ buf. let size' = min size (length buf) in (size', take size' buf, buf))
    returns (out, r')

  -- `data[..size].copy_from_slice(&buf[..size])`, of the `room` elements that `data` has: what is
  -- copied is returned.
  abbrev pub copied_out : ℕ → List A → ℕ × List A × List A
  copied_out room buf = let size = min (length buf) room in (size, take size buf, buf)

  -- What is written to the front of `data`, which has `room` elements; its length is the size that the
  -- source returns.
  unfoldable pub dequeue_slice : RingBuffer A → ℕ → Outcome ((ℕ × List A) × RingBuffer A)
  dequeue_slice r room = do
    ((size_1, out_1), r') ← dequeue_many_with r (copied_out room)
    ((size_2, out_2), r'') ← dequeue_many_with r' (copied_out (room - size_1))
    returns ((size_1 + size_2, out_1 ++ out_2), r'')

  -- The start and the length of the slice.
  unfoldable pub get_unallocated : RingBuffer A → ℕ → ℕ → ℕ × ℕ
  get_unallocated r offset size =
      let start_at = get_idx r (r.length + offset) in
      if ltb (window r) offset
      then (0, 0)
      else (start_at, min (min size (window r - offset)) (capacity r - start_at))

  unfoldable pub write_unallocated : RingBuffer A → ℕ → List A → ℕ × RingBuffer A
  write_unallocated r offset items =
      let (start_1, size_1) = get_unallocated r offset (length items) in
      let r' : RingBuffer A = record r {
        storage = put_slice r.storage start_1 (take size_1 items);
      } in
      let rest = drop size_1 items in
      let (start_2, size_2) = get_unallocated r' (offset + size_1) (length rest) in
      (size_1 + size_2, record r' { storage = put_slice r'.storage start_2 (take size_2 rest) })

  unfoldable pub enqueue_unallocated : RingBuffer A → ℕ → Outcome (RingBuffer A)
  enqueue_unallocated r count = do
    ensure (leb count (window r))
    returns (record r { length = r.length + count })

  -- The start and the length of the slice.
  unfoldable pub get_allocated : RingBuffer A → ℕ → ℕ → ℕ × ℕ
  get_allocated r offset size =
      let start_at = get_idx r offset in
      if ltb r.length offset
      then (0, 0)
      else (start_at, min (min size (r.length - offset)) (capacity r - start_at))

  -- What is written to the front of `data`, which has `room` elements.
  unfoldable pub read_allocated : RingBuffer A → ℕ → ℕ → ℕ × List A
  read_allocated r offset room =
      let (start_1, size_1) = get_allocated r offset room in
      let out_1 = take size_1 (drop start_1 r.storage) in
      let (start_2, size_2) = get_allocated r (offset + size_1) (room - size_1) in
      (size_1 + size_2, out_1 ++ take size_2 (drop start_2 r.storage))

  unfoldable pub dequeue_allocated : RingBuffer A → ℕ → Outcome (RingBuffer A)
  dequeue_allocated r count = do
    ensure (leb count r.length)
    returns (record r { length = r.length - count; read_at = get_idx r count })
