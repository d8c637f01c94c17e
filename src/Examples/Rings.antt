-- ===== src/Examples/Rings.antt =====
-- A ring of ethox/src/storage/ring_buffer.rs that goes round its storage, and the checksum of
-- ethox/src/wire/ip.rs.
use ethox.Base.{ℕ, ◌+◌, returns, [], ◌∷◌, ◌≡◌, arith}
use ethox.Storage.Ring.{
  RingBuffer, enqueue_slice, dequeue_slice, write_unallocated, enqueue_unallocated, read_allocated,
  window, capacity,
}
use ethox.Storage.Ring.View.{IsSound, contents}
use ethox.Storage.Ring.Enqueue.{enqueue_slice-contents}
use ethox.Storage.Ring.Dequeue.{dequeue_slice-contents}
use ethox.Storage.Ring.Random.{read_allocated-contents}
use ethox.Storage.Ring.Write.{write_unallocated-contents}

-- The contents are 4, 5, 1.
abbrev ring : RingBuffer ℕ
ring = record { storage = 1 ∷ 2 ∷ 3 ∷ 4 ∷ 5 ∷ []; read_at = 3; length = 3 }

ring-IsSound : IsSound ring
ring-IsSound = record {
  capacity_fits = omega arith;
  read_fits = omega arith;
  length_fits = omega arith;
}

enqueue_slice-contents_example :
    (r' : RingBuffer ℕ) × (enqueue_slice ring (7 ∷ 8 ∷ 9 ∷ []) ≡ returns (2, r'))
    × IsSound r'
    × (contents r' ≡ 4 ∷ 5 ∷ 1 ∷ 7 ∷ 8 ∷ [])
    × (◌≡◌ {A = ℕ} (window r' + 2) 2)
enqueue_slice-contents_example = enqueue_slice-contents ring (7 ∷ 8 ∷ 9 ∷ []) ring-IsSound

dequeue_slice-contents_example :
    (r' : RingBuffer ℕ) × (dequeue_slice ring 5 ≡ returns ((3, 4 ∷ 5 ∷ 1 ∷ []), r'))
    × IsSound r'
    × (contents r' ≡ [])
    × (◌≡◌ {A = ℕ} (r'.length + 3) 3)
    × (capacity r' ≡ 5)
dequeue_slice-contents_example = dequeue_slice-contents ring 5 ring-IsSound

write_unallocated-contents_example :
    (r' : RingBuffer ℕ) × (r'' : RingBuffer ℕ) × (write_unallocated ring 1 (7 ∷ 8 ∷ 9 ∷ [])
      ≡ (1, r'))
    × (contents r' ≡ 4 ∷ 5 ∷ 1 ∷ [])
    × (enqueue_unallocated r' 2 ≡ returns r'')
    × IsSound r''
    × (contents r'' ≡ 4 ∷ 5 ∷ 1 ∷ 2 ∷ 7 ∷ [])
write_unallocated-contents_example =
    write_unallocated-contents ring 1 (7 ∷ 8 ∷ 9 ∷ []) ring-IsSound (omega arith)

read_allocated-contents_example : read_allocated ring 1 7 ≡ (2, 5 ∷ 1 ∷ [])
read_allocated-contents_example = read_allocated-contents ring 1 7 ring-IsSound
