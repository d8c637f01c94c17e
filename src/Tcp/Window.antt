-- ===== src/Tcp/Window.antt =====
-- `Send` and `Receive` of ethox/src/layer/tcp/connection.rs: windows, and an incoming ACK.
pub mod Flight
pub mod Scale
use ethox.Base.{
  ℕ, ◌+◌, ◌*◌, ◌/◌, ◌%◌, ◌^◌, min, Bool, not, Outcome, returns, panics, ensure, ◌>>=◌, ◌>>◌, ltb,
  ◌==◌, if◌then◌else◌, u16_max, u32_max,
}
use ethox.Wire.Seq
use ethox.Wire.Seq.{SeqNumber}
use ethox.Wire.Flags.{from_bool}
use ethox.Tcp.Types.{Send, Receive, AckUpdate, too_low, duplicate, updated, unsent}

-- `x << k` of a `u32`: the shift count is taken modulo 32, and bits above the word are lost.
abbrev pub shl32 : ℕ → ℕ → ℕ
shl32 x k = x * 2 ^ (k % 32) % 2 ^ 32

abbrev pub shr32 : ℕ → ℕ → ℕ
shr32 x k = x / 2 ^ (k % 32)

unfoldable pub in_window : Receive → SeqNumber → Outcome Bool
unfolding Seq.contains_in_window
in_window r seq = Seq.contains_in_window r.next seq r.window

-- The window field of at most 16 bits that stands for `window` bytes, rounded up.
unfoldable pub scaled_down : Receive → ℕ → ℕ
scaled_down r window =
    let most = shl32 u16_max r.window_scale in
    let capped = min (min window u32_max) most in
    (shr32 capped r.window_scale + from_bool (not (capped % shl32 1 r.window_scale == 0))) % 2 ^ 32

-- `u16::try_from(scaled_down).unwrap()`
unfoldable pub update_window : Receive → ℕ → Outcome Receive
update_window r window =
    let scaled = scaled_down r window in
    if ltb u16_max scaled then panics else returns (record r { window = scaled })

unfoldable pub incoming_ack : Send → SeqNumber → Outcome (AckUpdate × Send)
unfolding Seq.lt Seq.le Seq.sub
incoming_ack s seq =
    if Seq.lt seq s.unacked
    then returns (too_low, s)
    else if seq == s.unacked
    then returns (duplicate, s)
    else if Seq.le seq s.next
    then (do
      new_bytes ← Seq.sub seq s.unacked
      returns (updated new_bytes, record s { unacked = seq }))
    else returns (unsent, s)

unfoldable pub send_window : Send → ℕ
send_window s = shl32 s.window s.window_scale

-- The first line is the function's `assert!`.
unfoldable pub in_flight : Send → Outcome ℕ
unfolding Seq.le Seq.sub
in_flight s = do ensure (Seq.le s.unacked s.next); Seq.sub s.next s.unacked
