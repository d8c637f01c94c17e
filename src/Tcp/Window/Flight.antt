-- ===== src/Tcp/Window/Flight.antt =====
-- `Send::incoming_ack` and `Send::in_flight` of ethox/src/layer/tcp/connection.rs, against the
-- number `k` of sequence numbers in flight and the offset `d` of the acknowledged one.
use ethox.Base.{
  ℕ, ◌-◌, ◌^◌, ◌≤◌, ◌<◌, ◌≡◌, ◌≢◌, ◌⊎◌, returns, arith, leb, ◌==◌, if◌then◌else◌, i32_max,
}
use ethox.Wire.Seq.{wrapping_add}
use ethox.Tcp.Types.{Send, AckUpdate, too_low, duplicate, updated, unsent}
use ethox.Tcp.Window.{incoming_ack, in_flight}

-- The offset decides: nothing new, `d` new bytes, a number not sent yet, or an old one.
pub classified : Send → ℕ → ℕ → AckUpdate × Send
classified s k d =
    if d == 0
    then (duplicate, s)
    else if leb d k
    then (updated d, record s { unacked = wrapping_add s.unacked d })
    else if leb d i32_max
    then (unsent, s)
    else (too_low, s)

-- An acknowledgement within the flight, or of an old number, is not taken for one of a number not sent yet.
pub sent-not_unsent : (s : Send) (k d : ℕ) → (d ≤ k) ⊎ (i32_max < d) → (classified s k d).0 ≢ unsent
unfolding classified
sent-not_unsent s k d h = ground arith

-- With `k` up to `i32::MAX` numbers in flight, an acknowledgement `d` after `unacked` is a
-- duplicate at `d = 0`, acknowledges `d` bytes for `0 < d ≤ k` and moves `unacked` there, is unsent
-- up to `i32::MAX`, and too low beyond; only the second changes the state, and no call panics.
pub incoming_ack-classified :
    (s : Send) (k d : ℕ)
    → s.unacked < 2 ^ 32
    → s.next ≡ wrapping_add s.unacked k
    → k ≤ i32_max
    → d < 2 ^ 32
    → incoming_ack s (wrapping_add s.unacked d) ≡ returns (classified s k d)
unfolding incoming_ack classified wrapping_add
incoming_ack-classified s k d hu hn hk hd = ground arith

-- An acknowledgement of `d` of the `k` numbers in flight leaves `k - d` in flight, and the
-- assertion of `in_flight` holds before and after.
pub in_flight-acked :
    (s : Send) (k d : ℕ)
    → s.unacked < 2 ^ 32
    → s.next ≡ wrapping_add s.unacked k
    → k ≤ i32_max
    → d ≤ k
    → (in_flight s ≡ returns k)
      × (in_flight (record s { unacked = wrapping_add s.unacked d }) ≡ returns (k - d))
unfolding in_flight wrapping_add
in_flight-acked s k d hu hn hk hd = (ground arith, ground arith)
