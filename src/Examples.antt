-- ===== src/Examples.antt =====
-- Concrete runs of the code in ethox/src/: the theorems applied where their conditions hold, and tests.
-- The connections here are those of ethox/src/layer/tcp/connection.rs.
mod Sorting
mod Words
mod Sending
mod Arriving
mod Slots
mod Fragments
mod Rings
mod Routing
mod Neighbors
mod Segments
mod Datagrams
use ethox.Base.{
  ℕ, false, true, none, some, [], Option, Outcome, returns, panics, arith, u16_max, ◌≤◌,
}
use ethox.Time.{Instant, from_millis, at}
use ethox.Wire.Flags.{ack_flag}
use ethox.Wire.Repr.{Repr, unspecified}
use ethox.Tcp.Types.{
  Connection, established, State, established, FourTuple, EntryKey, AvailableBytes, InPacket,
  zeroed,
}
use ethox.Tcp.Acks.{no_sacks}
use ethox.Tcp.Machine.{MssKnown, SynPending, IsSound, IsWire, IsGenerator}

abbrev pub tuple : FourTuple
tuple = record { local = unspecified; remote = unspecified; local_port = 80; remote_port = 4000 }

abbrev pub entry : EntryKey
entry = record { key_in_slot = tuple; get_isn = λ four time. 7; remapped = [] }

pub entry-IsGenerator : IsGenerator entry
entry-IsGenerator = record { isn_fits = λ four time. omega arith }

-- Fifty bytes are in flight, and everything received has been acknowledged.
abbrev pub connection : State → Connection
connection s = record zeroed {
  current = s;
  sender_maximum_segment_size = 536;
  ack_timer = at (from_millis 900);
  ack_timeout = 200000000;
  retransmission_timer = from_millis 2000;
  retransmission_timeout = 1000000000;
  restart_timeout = 3000000000;
  send = record (zeroed.send) { unacked = 100; next = 150; window = 1000; window_scale = 1 };
  recv = record (zeroed.recv) { next = 500; acked = 500; window = 400 };
}

-- The same connection with a byte that has not been acknowledged.
abbrev pub unacknowledged : State → Connection
unacknowledged s = record (connection s) {
  recv = record (zeroed.recv) { next = 501; acked = 500; window = 400 };
}

pub connection-IsSound :
    (s : State) → MssKnown s 536 → SynPending s (connection s).send → IsSound (connection s)
connection-IsSound s known pending = record {
  recv_next_fits = omega arith;
  recv_acked_fits = omega arith;
  recv_window_fits = omega arith;
  send_window_fits = omega arith;
  send_scale_fits = omega arith;
  unacked_fits = omega arith;
  next_fits = omega arith;
  initial_fits = omega arith;
  flight_fits = omega arith;
  mss_fits = omega arith;
  linger_fits = omega arith;
  mss_known = known;
  syn_pending = pending;
}

pub unacknowledged-IsSound : IsSound (unacknowledged established)
unacknowledged-IsSound = record {
  recv_next_fits = omega arith;
  recv_acked_fits = omega arith;
  recv_window_fits = omega arith;
  send_window_fits = omega arith;
  send_scale_fits = omega arith;
  unacked_fits = omega arith;
  next_fits = omega arith;
  initial_fits = omega arith;
  flight_fits = omega arith;
  mss_fits = omega arith;
  linger_fits = omega arith;
  mss_known = omega arith;
  syn_pending = tt;
}

abbrev pub now : Instant
now = from_millis 1000

abbrev pub thousand : AvailableBytes
thousand = record { fin = true; total = 1000 }

-- An acknowledgement of ten bytes, with `len` bytes of data from `seq` on.
abbrev pub segment : ℕ → ℕ → Repr
segment seq len = record {
  src_port = 4000;
  dst_port = 80;
  flags = ack_flag;
  seq_number = seq;
  ack_number = some 110;
  window_len = 800;
  window_scale = none;
  max_seg_size = none;
  sack_permitted = false;
  sack_ranges = no_sacks;
  payload_len = len;
}

abbrev pub packet : Repr → InPacket
packet r = record { segment = r; from = unspecified; time = now }

pub segment-IsWire : (seq len : ℕ) → seq ≤ u16_max → len ≤ u16_max → IsWire (segment seq len)
segment-IsWire seq len s l = record {
  seq_fits = omega arith;
  ack_fits = omega arith;
  window_fits = omega arith;
  scale_fits = tt;
  mss_fits = tt;
  payload_fits = l;
}

-- What a call returned, or `other` if it panicked.
abbrev pub value_or {ℓ} : {A : Type ℓ} → A → Outcome A → A
value_or other (returns a) = a
value_or other panics = other
