-- ===== src/Tcp/Segments.antt =====
-- Small values of ethox/src/layer/tcp/connection.rs: received segments, headers without ports, the
-- keys of an entry, and the results of the transmission side.
use ethox.Base.{
  ℕ, ◌+◌, ◌%◌, ◌^◌, Bool, false, some, none, ◌∷◌, Outcome, returns, ◌>>=◌, if◌then◌else◌,
}
use ethox.Time.{Instant}
use ethox.Wire.Seq
use ethox.Wire.Seq.{SeqNumber}
use ethox.Wire.Flags.{from_bool}
use ethox.Wire.Repr.{Repr}
use ethox.Tcp.Types.{ReceivedSegment, InnerRepr, FourTuple, EntryKey, Segment, OutSignals}

-- `ReceivedSegment`
unfoldable pub sequence_len : ReceivedSegment → ℕ
sequence_len r = (r.data_len + from_bool r.syn + from_bool r.fin) % 2 ^ 64

unfoldable pub sequence_end : ReceivedSegment → Outcome SeqNumber
unfolding sequence_len Seq.add
sequence_end r = Seq.add r.begin (sequence_len r)

unfoldable pub data_begin : ReceivedSegment → Outcome SeqNumber
unfolding Seq.add
data_begin r = Seq.add r.begin (from_bool r.syn)

unfoldable pub data_end : ReceivedSegment → Outcome SeqNumber
unfolding Seq.add
data_end r = do start ← Seq.add r.begin (from_bool r.syn); Seq.add start r.data_len

unfoldable pub segment_contains : ReceivedSegment → SeqNumber → Outcome Bool
unfolding sequence_len Seq.contains_in_window
segment_contains r seq = Seq.contains_in_window r.begin seq (sequence_len r)

-- The comparison is only made for a segment with a FIN.
unfoldable pub covers_end : ReceivedSegment → SeqNumber → Outcome Bool
unfolding sequence_end Seq.add Seq.ge
covers_end r ack = do next ← Seq.add ack 1; end ← sequence_end r; returns (Seq.ge next end)

unfoldable pub acked_until : ReceivedSegment → SeqNumber → Outcome ReceivedSegment
unfolding covers_end
acked_until r ack = do
  fin ← if r.fin then covers_end r ack else returns false
  returns (record r { fin = fin })

-- `InnerRepr`
unfoldable pub send_impl : InnerRepr → ℕ → ℕ → Repr
send_impl r src dst = record {
  src_port = src;
  dst_port = dst;
  flags = r.flags;
  seq_number = r.seq_number;
  ack_number = r.ack_number;
  window_len = r.window_len;
  window_scale = r.window_scale;
  max_seg_size = r.max_seg_size;
  sack_permitted = r.sack_permitted;
  sack_ranges = r.sack_ranges;
  payload_len = r.payload_len;
}

unfoldable pub send_back : InnerRepr → Repr → Repr
unfolding send_impl
send_back r incoming = send_impl r incoming.dst_port incoming.src_port

unfoldable pub send_to : InnerRepr → FourTuple → Repr
unfolding send_impl
send_to r tuple = send_impl r tuple.local_port tuple.remote_port

-- `EntryKey` of ethox/src/layer/tcp/endpoint.rs
unfoldable pub initial_seq_num : EntryKey → Instant → SeqNumber
initial_seq_num e time = e.get_isn e.key_in_slot time

unfoldable pub set_four_tuple : EntryKey → FourTuple → EntryKey
set_four_tuple e new = record e { key_in_slot = new; remapped = (e.key_in_slot, new) ∷ e.remapped }

-- `OutSignals::none` and `OutSignals::segment`
abbrev pub out_none : OutSignals
out_none = record { delete = false; segment = none }

abbrev pub out_segment : Segment → OutSignals
out_segment s = record { delete = false; segment = some s }
