-- ===== src/Examples/Arriving.antt =====
-- Segments that ethox/src/layer/tcp/connection.rs takes, on concrete connections.
use ethox.Base.{
  ◌≡◌, ◌%◌, ◌+◌, ◌^◌, ◌≤◌, inl, max, refl, false, some, none, returns, arith, if◌then◌else◌,
}
use mathlib.Core.Option.{get_or}
use ethox.Time.{at}
use ethox.Wire.Flags
use ethox.Wire.Flags.{Flags, syn_flag, rst_flag, from_bool}
use ethox.Wire.Repr.{Repr}
use ethox.Tcp.Types.{Connection, closed, syn_sent, established, Signals, no_signals}
use ethox.Tcp.Window.{in_flight, incoming_ack}
use ethox.Tcp.Opening.{arrives_closed, open_connection}
use ethox.Tcp.Opening.Answers.{handshake}
use ethox.Tcp.Ingress.{
  ingress_acceptable, in_window_segment, handle_ack, acknowledged, receive_data,
  arrives_established, arrives, received,
}
use ethox.Tcp.Ingress.Resets.{reset_exactly}
use ethox.Tcp.Ingress.Data.{data_announced, empty_segment_skips}
use ethox.Tcp.Machine.{IsSound, flight, here, next, Step, takes}
use ethox.Tcp.Machine.Reachable.{Moves, Step-follows, Reach-in_flight}
use ethox.Examples.{
  connection, connection-IsSound, entry, entry-IsGenerator, tuple, now, segment, segment-IsWire,
  packet, value_or,
}

-- What the handler of an open connection does with a segment.
abbrev taken : Repr → Signals × Connection
taken r =
    value_or (no_signals, connection established)
      (arrives_established (connection established) (packet r) tuple)

abbrev reset_segment : Repr
reset_segment = record (segment 5000 0) { flags = rst_flag }

abbrev syn_segment : Repr
syn_segment = record (segment 900 0) { flags = syn_flag; ack_number = none }

abbrev syn_answer : Repr
syn_answer = record (segment 900 0) { flags = syn_flag; ack_number = some 8 }

reset_taken :
    arrives_established (connection established) (packet reset_segment) tuple
    ≡ returns (taken reset_segment)
unfolding arrives_established ingress_acceptable
reset_taken = refl

arrived :
    arrives (connection established) (packet (segment 500 20)) entry
    ≡ returns ((taken (segment 500 20)).0, (taken (segment 500 20)).1, entry)
unfolding arrives arrives_established ingress_acceptable in_window_segment handle_ack incoming_ack
    acknowledged receive_data
arrived = refl

arrival : Step (connection established) (taken (segment 500 20)).1
arrival =
    takes (packet (segment 500 20)) entry entry (taken (segment 500 20)).0
      (segment-IsWire 500 20 (omega arith) (omega arith)) entry-IsGenerator arrived

-- What the handler of a closed connection answers.
abbrev closed_answer : Signals
closed_answer = value_or no_signals (arrives_closed (segment 500 20))

-- The reset that it answers with.
abbrev closed_reset : Repr
closed_reset = record (segment 110 0) {
  src_port = 80;
  dst_port = 4000;
  flags = rst_flag;
  ack_number = none;
  window_len = 0;
}

answered_closed : arrives_closed (segment 500 20) ≡ returns closed_answer
unfolding arrives_closed
answered_closed = refl

established-IsSound : IsSound (connection established)
established-IsSound = connection-IsSound established (omega arith) tt

Step-follows_example : Moves arrival
Step-follows_example = Step-follows arrival

Reach-in_flight_example :
    (in_flight (taken (segment 500 20)).1.send ≡ returns (flight (taken (segment 500 20)).1.send))
    × (flight (taken (segment 500 20)).1.send ≤ 2 ^ 30)
    × IsSound (taken (segment 500 20)).1
Reach-in_flight_example = Reach-in_flight established-IsSound (next here arrival)

reset_exactly_example :
    ((taken reset_segment).0.reset
      ≡ (if false then Flags.syn reset_segment.flags else Flags.rst reset_segment.flags))
    × ((taken reset_segment).0.delete ≡ (taken reset_segment).0.reset)
reset_exactly_example =
    reset_exactly (connection established) (taken reset_segment).1 (packet reset_segment) tuple
      (taken reset_segment).0 false (unfold ingress_acceptable in refl) reset_taken

data_announced_example :
    (d : Connection) × (arrives_established (connection established) (packet (segment 500 20)) tuple
      ≡ returns (record no_signals { receive = some (received (packet (segment 500 20))) }, d))
    × (d.recv ≡ (connection established).recv)
unfolding Flags.syn
data_announced_example =
    data_announced (connection established) (packet (segment 500 20)) tuple 110 established-IsSound
      (segment-IsWire 500 20 (omega arith) (omega arith)) (unfold ingress_acceptable in refl) refl
      refl (inl (omega arith)) (omega arith)

empty_segment_skips_example :
    (d : Connection) × (arrives_established (connection established) (packet (segment 510 0)) tuple
      ≡ returns (no_signals, d))
    × (d.recv.next
        ≡ ((segment 510 0).seq_number + from_bool (Flags.fin (segment 510 0).flags)) % 2 ^ 32)
unfolding Flags.syn
empty_segment_skips_example =
    empty_segment_skips (connection established) (packet (segment 510 0)) tuple 110
      established-IsSound (segment-IsWire 510 0 (omega arith) (omega arith))
      (unfold ingress_acceptable in refl) refl refl (inl (omega arith)) refl

handshake_example :
    (c' d : Connection) × (open_connection (connection closed) now entry ≡ returns (some c'))
    × (c'.current ≡ syn_sent)
    × (arrives c' (packet syn_answer) entry ≡ returns (no_signals, d, entry))
    × (d.current ≡ established)
    × (d.send.unacked ≡ d.send.next)
    × (d.send.next ≡ (entry.get_isn entry.key_in_slot now + 1) % 2 ^ 32)
    × (d.recv.next ≡ (syn_answer.seq_number + 1) % 2 ^ 32)
    × (d.ack_timer ≡ at now)
    × (d.send.window ≡ syn_answer.window_len)
    × (d.send.window_scale ≡ get_or syn_answer.window_scale 0)
    × (d.sender_maximum_segment_size ≡ max (get_or syn_answer.max_seg_size 536) 536)
unfolding Flags.rst Flags.syn
handshake_example =
    handshake (connection closed) now entry (packet syn_answer) refl entry-IsGenerator
      (record {
        seq_fits = omega arith;
        ack_fits = omega arith;
        window_fits = omega arith;
        scale_fits = tt;
        mss_fits = tt;
        payload_fits = omega arith;
      })
      refl refl refl
