-- ===== src/Tcp/Types.antt =====
-- The data of ethox/src/layer/tcp/connection.rs, with the keys of layer/tcp/endpoint.rs that a
-- connection is handed. The constructors and fields are those of the source; a field of an unsigned
-- type is a number below its range.
use ethox.Base.{ℕ, Bool, false, Option, none, List}
use ethox.Time.{Instant, from_millis, Duration, Expiration, never}
use ethox.Wire.Seq.{SeqNumber}
use ethox.Wire.Flags.{Flags}
use ethox.Wire.Repr.{Address, SackRanges, Repr}

pub data State : Type 0 where
  closed listen syn_sent syn_received established fin_wait closing time_wait close_wait last_ack :
      State

pub record Flow : Type 0 where
  pub ssthresh : ℕ
  pub congestion_window : ℕ
  pub recover : SeqNumber

pub record Send : Type 0 where
  pub unacked : SeqNumber
  pub next : SeqNumber
  pub last_time : Instant
  pub unsent : ℕ
  pub window : ℕ
  pub window_scale : ℕ
  pub initial_seq : SeqNumber

pub record Receive : Type 0 where
  pub next : SeqNumber
  pub acked : SeqNumber
  pub last_time : Instant
  pub window : ℕ
  pub window_scale : ℕ
  pub initial_seq : SeqNumber

pub record Connection : Type 0 where
  pub current : State
  pub previous : State
  pub flow_control : Flow
  pub receive_window : ℕ
  pub sender_maximum_segment_size : ℕ
  pub receiver_maximum_segment_size : ℕ
  pub last_ack_receive_offset : SeqNumber
  pub ack_timer : Expiration
  pub ack_timeout : Duration
  pub retransmission_timer : Instant
  pub retransmission_timeout : Duration
  pub restart_timeout : Duration
  pub selective_acknowledgements : Bool
  pub duplicate_ack : ℕ
  pub send : Send
  pub recv : Receive

pub record ReceivedSegment : Type 0 where
  pub syn : Bool
  pub fin : Bool
  pub data_len : ℕ
  pub begin : SeqNumber
  pub timestamp : Instant

pub record Signals : Type 0 where
  pub delete : Bool
  pub reset : Bool
  pub receive : Option ReceivedSegment
  pub may_send : Bool
  pub answer : Option Repr

-- `Signals::default()`
abbrev pub no_signals : Signals
no_signals = record {
  delete = false;
  reset = false;
  receive = none;
  may_send = false;
  answer = none;
}

pub record AvailableBytes : Type 0 where
  pub fin : Bool
  pub total : ℕ

pub record InPacket : Type 0 where
  pub segment : Repr
  pub from : Address
  pub time : Instant

-- `range` is `begin..end`.
pub record Segment : Type 0 where
  pub repr : Repr
  pub range_start : ℕ
  pub range_end : ℕ

pub record OutSignals : Type 0 where
  pub delete : Bool
  pub segment : Option Segment

pub data AckUpdate : Type 0 where
  too_low : AckUpdate
  duplicate : AckUpdate
  updated : ℕ → AckUpdate
  unsent : AckUpdate

pub record InnerRepr : Type 0 where
  pub flags : Flags
  pub seq_number : SeqNumber
  pub ack_number : Option SeqNumber
  pub window_len : ℕ
  pub window_scale : Option ℕ
  pub max_seg_size : Option ℕ
  pub sack_permitted : Bool
  pub sack_ranges : SackRanges
  pub payload_len : ℕ

pub record FourTuple : Type 0 where
  pub local : Address
  pub remote : Address
  pub local_port : ℕ
  pub remote_port : ℕ

-- `EntryKey`: the four-tuple stored in the slot, the generator of initial sequence numbers, and the
-- port map behind its trait `PortMap`, of which a connection only calls `remap`; the calls are kept
-- in order, the latest first.
pub record EntryKey : Type 0 where
  pub key_in_slot : FourTuple
  pub get_isn : FourTuple → Instant → SeqNumber
  pub remapped : List (FourTuple × FourTuple)

-- `Connection::zeroed`
abbrev pub zeroed : Connection
zeroed = record {
  current = State.closed;
  previous = State.closed;
  flow_control = record { ssthresh = 0; congestion_window = 0; recover = 0 };
  receive_window = 0;
  sender_maximum_segment_size = 0;
  receiver_maximum_segment_size = 0;
  last_ack_receive_offset = 0;
  ack_timer = never;
  ack_timeout = 0;
  retransmission_timer = from_millis 0;
  retransmission_timeout = 0;
  restart_timeout = 0;
  selective_acknowledgements = false;
  duplicate_ack = 0;
  send = record {
    unacked = 0;
    next = 0;
    last_time = from_millis 0;
    unsent = 0;
    window = 0;
    window_scale = 0;
    initial_seq = 0;
  };
  recv = record {
    next = 0;
    acked = 0;
    last_time = from_millis 0;
    window = 0;
    window_scale = 0;
    initial_seq = 0;
  };
}
