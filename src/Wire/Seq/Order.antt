-- ===== src/Wire/Seq/Order.antt =====
-- Arithmetic and order of `SeqNumber` (ethox/src/wire/tcp.rs) against offsets from an anchor.
use ethox.Base.{ℕ, ◌^◌, ◌≤◌, ◌<◌, ◌≡◌, true, returns, arith, ltb, leb, i32_max}
use ethox.Wire.Seq.{SeqNumber, wrapping_add, add, sub_size, sub, lt, le, gt, ge}

-- For a sequence number `s` and an offset `n` up to `i32::MAX` all three calls return: `s + n` is
-- some `t`, `t - n` is `s` again, and the distance `t - s` is `n`.
pub add-sub_roundtrip :
    (s : SeqNumber) (n : ℕ)
    → s < 2 ^ 32
    → n ≤ i32_max
    → (t : SeqNumber) × (add s n ≡ returns t) × (sub_size t n ≡ returns s) × (sub t s ≡ returns n)
unfolding add sub_size sub
add-sub_roundtrip s n hs hn = (wrapping_add s n, ground arith, ground arith, ground arith)

-- Of two sequence numbers that lie up to `i32::MAX` after a common one, the order is that of their
-- offsets, wherever the numbers wrap: the four comparisons agree with those on the offsets.
pub compare-offsets :
    (s : SeqNumber) (i j : ℕ)
    → s < 2 ^ 32
    → i ≤ i32_max
    → j ≤ i32_max
    → (lt (wrapping_add s i) (wrapping_add s j) ≡ ltb i j)
      × (le (wrapping_add s i) (wrapping_add s j) ≡ leb i j)
      × (gt (wrapping_add s i) (wrapping_add s j) ≡ ltb j i)
      × (ge (wrapping_add s i) (wrapping_add s j) ≡ leb j i)
unfolding wrapping_add lt le gt ge
compare-offsets s i j hs hi hj = (ground arith, ground arith, ground arith, ground arith)

-- Two numbers exactly 2^31 apart are each below the other, so `<` is no order on all numbers.
pub lt_antipodal :
    (s : SeqNumber)
    → s < 2 ^ 32
    → (lt s (wrapping_add s (2 ^ 31)) ≡ true) × (lt (wrapping_add s (2 ^ 31)) s ≡ true)
unfolding wrapping_add lt
lt_antipodal s h = (ground arith, ground arith)
