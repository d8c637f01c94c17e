-- ===== src/Examples/Sending.antt =====
-- Segments that ethox/src/layer/tcp/connection.rs chooses to send, on concrete connections.
use ethox.Base.{false, ◌≡◌, refl, true, false, some, none, returns, arith}
use ethox.Time.{Instant, from_millis}
use ethox.Tcp.Types.{
  AvailableBytes, Connection, State, established, fin_wait, time_wait, last_ack, Segment,
  OutSignals,
}
use ethox.Wire.Flags.{none_set}
use ethox.Tcp.Acks.{no_sacks, should_ack}
use ethox.Tcp.Segments.{out_none, out_segment}
use ethox.Tcp.Window.{send_window, in_flight}
use ethox.Tcp.Egress.{
  next_send_segment, send_closing, select_send_segment, restart_if_idle, send_or_ack, send_new,
  ensure_time_wait,
}
use ethox.Tcp.Egress.Bounds.{Bounded, next_send_segment-Bounded}
use ethox.Tcp.Egress.Acked.{Acked, next_send_segment-Acked}
use ethox.Tcp.Egress.Closing.{fin_sent, StaysInFlight, fin_sent-StaysInFlight}
use ethox.Tcp.Egress.Progress.{IsNewData, next_send_segment_progress}
use ethox.Tcp.Machine.{IsSound}
use ethox.Tcp.Machine.Total.{next_send_segment_total}
use ethox.Tcp.Machine.Final.{is_expired, deleted_exactly}
use ethox.Tcp.Egress.Due.{IsPureAck, ack_is_due, due_ack_sent}
use ethox.Examples.{
  unacknowledged, unacknowledged-IsSound, connection, connection-IsSound, tuple, now, thousand,
  value_or,
}

-- What the choice returns in a state.
abbrev sent : State → Instant → OutSignals × Connection
sent s time =
    value_or (out_none, connection s) (next_send_segment (connection s) thousand time tuple)

established-IsSound : IsSound (connection established)
established-IsSound = connection-IsSound established (omega arith) tt

sent_data :
    next_send_segment (connection established) thousand now tuple ≡ returns (sent established now)
unfolding next_send_segment select_send_segment restart_if_idle send_or_ack in_flight send_new
sent_data = refl

sent_closing :
    next_send_segment (connection fin_wait) thousand now tuple ≡ returns (sent fin_wait now)
unfolding next_send_segment send_closing select_send_segment restart_if_idle send_or_ack in_flight
sent_closing = refl

sent_last : next_send_segment (connection last_ack) thousand now tuple ≡ returns (sent last_ack now)
unfolding next_send_segment send_closing select_send_segment restart_if_idle send_or_ack in_flight
sent_last = refl

sent_lingering :
    next_send_segment (connection time_wait) thousand (from_millis 2500) tuple
    ≡ returns (sent time_wait (from_millis 2500))
unfolding next_send_segment
sent_lingering = refl

next_send_segment-Bounded_example :
    Bounded (connection established) thousand (sent established now).0.segment
next_send_segment-Bounded_example =
    next_send_segment-Bounded (connection established) (sent established now).1 thousand now tuple
      (sent established now).0 established-IsSound sent_data

next_send_segment-Acked_example :
    Acked (connection established) (sent established now).1 (sent established now).0.segment
next_send_segment-Acked_example =
    next_send_segment-Acked (connection established) (sent established now).1 thousand now tuple
      (sent established now).0 sent_data

fin_sent-StaysInFlight_example :
    StaysInFlight (connection fin_wait) (sent fin_wait now).1 thousand (sent fin_wait now).0
fin_sent-StaysInFlight_example =
    fin_sent-StaysInFlight (connection fin_wait) (sent fin_wait now).1 thousand now tuple
      (sent fin_wait now).0 (connection-IsSound fin_wait (omega arith) tt) (unfold fin_sent in refl)
      sent_closing

next_send_segment_progress_example :
    (s : Segment) × (d : Connection) × (next_send_segment
        (connection established)
        thousand
        now
        tuple
      ≡ returns (out_segment s, d))
    × IsNewData (connection established) thousand s d
next_send_segment_progress_example =
    next_send_segment_progress (connection established) thousand now tuple established-IsSound refl
      (omega arith) refl (unfold send_window in omega arith)

next_send_segment_total_example :
    (r : OutSignals × Connection) × (next_send_segment (connection established) thousand now tuple
      ≡ returns r)
next_send_segment_total_example =
    next_send_segment_total (connection established) thousand now tuple established-IsSound

deleted_exactly_example :
    (sent time_wait (from_millis 2500)).0.delete
    ≡ is_expired (connection time_wait) (from_millis 2500)
deleted_exactly_example =
    deleted_exactly (connection time_wait) (sent time_wait (from_millis 2500)).1 thousand
      (from_millis 2500) tuple (sent time_wait (from_millis 2500)).0 sent_lingering

-- With nothing offered, a byte that was received is acknowledged.
abbrev nothing : AvailableBytes
nothing = record { fin = false; total = 0 }

due_ack_sent_example :
    (s : Segment) × (d : Connection) × (next_send_segment
        (unacknowledged established)
        nothing
        now
        tuple
      ≡ returns (out_segment s, d))
    × IsPureAck (unacknowledged established) s d
due_ack_sent_example =
    due_ack_sent (unacknowledged established) nothing now tuple unacknowledged-IsSound refl
      (omega arith) refl (unfold send_window in omega arith) (unfold ack_is_due should_ack in refl)

-- The segment that is sent: 536 bytes from byte 50 of the buffer on.
sent_range :
    (sent established now).0.segment
    ≡ some (record {
      repr = record {
        src_port = 80;
        dst_port = 4000;
        flags = none_set;
        seq_number = 150;
        ack_number = some 500;
        window_len = 400;
        window_scale = none;
        max_seg_size = none;
        sack_permitted = false;
        sack_ranges = no_sacks;
        payload_len = 536;
      };
      range_start = 50;
      range_end = 586;
    })
unfolding next_send_segment select_send_segment restart_if_idle send_or_ack in_flight send_new
sent_range = refl

-- The lingering connection is given up.
given_up : (sent time_wait (from_millis 2500)).0.delete ≡ true
unfolding next_send_segment ensure_time_wait
given_up = refl
