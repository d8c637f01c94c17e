-- ===== src/Tcp/Machine.antt =====
-- The connection of ethox/src/layer/tcp/connection.rs as a state machine: its public calls, and what
-- ethox/src/layer/tcp/endpoint.rs (`remove`, `listen`) and packet.rs (`Open::read`) do to it themselves, in any
-- order, and what holds in every state that they reach.
pub mod Opens
pub mod Receives
pub mod Transmits
pub mod Total
pub mod Handled
pub mod Reachable
pub mod Final
pub mod Diagram
use ethox.Base.{
  ℕ, ◌+◌, ◌-◌, ◌*◌, ◌%◌, ◌^◌, ◌≤◌, ◌<◌, ◌≡◌, Option, some, none, Outcome, returns, u16_max,
}
use ethox.Time.{Instant, Duration, max_duration}
use ethox.Wire.Seq.{SeqNumber, wrapping_add}
use ethox.Wire.Repr.{Repr}
use ethox.Tcp.Types.{
  State, closed, listen, syn_sent, Send, Receive, Connection, ReceivedSegment, Signals, InPacket,
  AvailableBytes, OutSignals, FourTuple, EntryKey, zeroed,
}
use ethox.Tcp.Window.{update_window}
use ethox.Tcp.Acks.{change_state, set_recv_ack}
use ethox.Tcp.Opening.{open_connection}
use ethox.Tcp.Ingress.{arrives}
use ethox.Tcp.Egress.{next_send_segment}

abbrev pub IsWord : Option SeqNumber → Type 0
IsWord none = Unit
IsWord (some a) = a < 2 ^ 32

abbrev pub IsScale : Option ℕ → Type 0
IsScale none = Unit
IsScale (some k) = k ≤ 14

abbrev pub IsShort : Option ℕ → Type 0
IsShort none = Unit
IsShort (some n) = n ≤ u16_max

-- What the types of the fields of `tcp::Repr`, and the parser's limit on the window scale, ensure.
pub record IsWire (r : Repr) : Type 0 where
  pub seq_fits : r.seq_number < 2 ^ 32
  pub ack_fits : IsWord r.ack_number
  pub window_fits : r.window_len ≤ u16_max
  pub scale_fits : IsScale r.window_scale
  pub mss_fits : IsShort r.max_seg_size
  pub payload_fits : r.payload_len ≤ u16_max

-- The sequence numbers from `unacked` up to `next`.
abbrev pub flight : Send → ℕ
flight s = (s.next + 2 ^ 32 - s.unacked) % 2 ^ 32

-- While our SYN is out, it is all that was sent.
abbrev pub SynPending : State → Send → Type 0
SynPending syn_sent s = s.next ≡ (s.initial_seq + 1) % 2 ^ 32
SynPending _ s = Unit

-- Past the handshake the segment size is known.
abbrev pub MssKnown : State → ℕ → Type 0
MssKnown closed mss = Unit
MssKnown listen mss = Unit
MssKnown syn_sent mss = Unit
MssKnown _ mss = 0 < mss

pub record IsSound (c : Connection) : Type 0 where
  pub recv_next_fits : c.recv.next < 2 ^ 32
  pub recv_acked_fits : c.recv.acked < 2 ^ 32
  pub recv_window_fits : c.recv.window ≤ u16_max
  pub send_window_fits : c.send.window ≤ u16_max
  pub send_scale_fits : c.send.window_scale ≤ 14
  pub unacked_fits : c.send.unacked < 2 ^ 32
  pub next_fits : c.send.next < 2 ^ 32
  pub initial_fits : c.send.initial_seq < 2 ^ 32
  pub flight_fits : flight c.send ≤ 2 ^ 30
  pub mss_fits : c.sender_maximum_segment_size ≤ u16_max
  pub linger_fits : 2 * c.retransmission_timeout ≤ max_duration
  pub mss_known : MssKnown c.current c.sender_maximum_segment_size
  pub syn_pending : SynPending c.current c.send

-- The generator of initial sequence numbers returns words.
pub record IsGenerator (entry : EntryKey) : Type 0 where
  pub isn_fits : (four : FourTuple) (time : Instant) → entry.get_isn four time < 2 ^ 32

-- One call on the connection that returned, or one write by the endpoint: `removes` is the call of `change_state` in
-- `Endpoint::remove`, `listens` the assignment in `Endpoint::listen`, which is to a connection just created, and
-- `announces` the call of `update_window` in `Open::read`.
pub data Step (c d : Connection) : Type 0 where
  opens :
      (time : Instant) (entry : EntryKey)
      → IsGenerator entry
      → open_connection c time entry ≡ returns (some d)
      → Step c d
  takes :
      (incoming : InPacket) (entry entry' : EntryKey) (signals : Signals)
      → IsWire incoming.segment
      → IsGenerator entry
      → arrives c incoming entry ≡ returns (signals, d, entry')
      → Step c d
  reads :
      (meta : ReceivedSegment) → meta.begin < 2 ^ 32 → set_recv_ack c meta ≡ returns d → Step c d
  sends :
      (available : AvailableBytes) (time : Instant) (tuple : FourTuple) (out : OutSignals)
      → next_send_segment c available time tuple ≡ returns (out, d)
      → Step c d
  announces :
      (window : ℕ) (recv : Receive)
      → update_window c.recv window ≡ returns recv
      → d ≡ record c { recv = recv }
      → Step c d
  listens : c.current ≡ closed → d ≡ record c { current = listen } → Step c d
  removes : d ≡ change_state c closed → Step c d

pub data Reach (c : Connection) : Connection → Type 0 where
  here : Reach c c
  next : {d e : Connection} → Reach c d → Step d e → Reach c e
