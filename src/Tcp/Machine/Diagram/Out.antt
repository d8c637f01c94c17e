-- ===== src/Tcp/Machine/Diagram/Out.antt =====
-- The choice of the next segment follows the diagram.
use ethox.Base.{ℕ, min, ◌≡◌, refl, true, Option, returns, arith, >>=-eq-returns}
use ethox.Time.{Instant}
use ethox.Wire.Seq
use ethox.Wire.Seq.{SeqNumber}
use ethox.Tcp.Types.{
  State, closed, listen, syn_sent, syn_received, established, time_wait, close_wait, Connection,
  FourTuple, AvailableBytes, OutSignals, Segment,
}
use ethox.Tcp.Window.{in_flight, send_window}
use ethox.Tcp.Acks.{change_state, rearm_retransmission_timer}
use ethox.Tcp.Egress.{
  retransmit_some, segment_retransmit, fast_retransmit, timeout_retransmit, send_new, send_or_ack,
  ack_if_due, restart_if_idle, select_send_segment, select_syn_retransmit, ensure_closed_ack,
  ensure_time_wait, send_closing, send_in, next_send_segment, signalled, byte_window,
}
use ethox.Tcp.Machine.Transmits.{signalled-inverse}
use ethox.Tcp.Machine.Diagram.{follows, follows_self}

segment_retransmit-current :
    (c d : Connection) (available : AvailableBytes) (tuple : FourTuple) (segment : Option Segment)
    → segment_retransmit c available tuple ≡ returns (segment, d)
    → d.current ≡ c.current
unfolding segment_retransmit retransmit_some
segment_retransmit-current c d available tuple segment h = ground arith

restart_if_idle-current :
    (c : Connection) (time : Instant) → (restart_if_idle c time).current ≡ c.current
unfolding restart_if_idle
restart_if_idle-current c time = ground arith

send_new-follows :
    (s : State) (c d : Connection) (available : AvailableBytes) (tuple : FourTuple)
    (sent max_sent : ℕ) (segment : Option Segment)
    → c.current ≡ s
    → send_new c available tuple sent max_sent ≡ returns (segment, d)
    → follows s d.current ≡ true
unfolding send_new change_state follows
send_new-follows established c d available tuple sent max_sent segment e h = ground arith
send_new-follows close_wait c d available tuple sent max_sent segment e h = ground arith
send_new-follows s c d available tuple sent max_sent segment e h =
    follows_self s d.current (ground arith)

send_or_ack-follows :
    (c d : Connection) (available : AvailableBytes) (time : Instant) (tuple : FourTuple)
    (segment : Option Segment)
    → send_or_ack c available time tuple ≡ returns (segment, d)
    → follows c.current d.current ≡ true
unfolding send_or_ack ack_if_due
send_or_ack-follows c d available time tuple segment h =
    let (sent, _, rest) = >>=-eq-returns (in_flight c.send) _ h in
    let max_sent = min (send_window c.send) (byte_window available) in
    ground (
      arith,
      send_new-follows c.current c d available tuple sent max_sent segment refl,
      follows_self c.current d.current,
    )

select_send_segment-follows :
    (c d : Connection) (available : AvailableBytes) (time : Instant) (tuple : FourTuple)
    (segment : Option Segment)
    → select_send_segment c available time tuple ≡ returns (segment, d)
    → follows c.current d.current ≡ true
unfolding select_send_segment fast_retransmit timeout_retransmit rearm_retransmission_timer
select_send_segment-follows c d available time tuple segment h = ground (
  arith,
  restart_if_idle-current c time,
  segment_retransmit-current c' d available tuple segment,
  segment_retransmit-current (rearm_retransmission_timer c' time) d available tuple segment,
  send_or_ack-follows c' d available time tuple segment,
  follows_self c.current d.current,
)
  where
    c' : Connection
    c' = restart_if_idle c time

send_closing-follows :
    (c d : Connection) (available : AvailableBytes) (time : Instant) (tuple : FourTuple)
    (out : OutSignals)
    → send_closing c available time tuple ≡ returns (out, d)
    → follows c.current d.current ≡ true
unfolding send_closing
send_closing-follows c d available time tuple out h =
    let (k, e, h₁) = >>=-eq-returns (Seq.sub c.send.next c.send.unacked) _ h in
    let (r, e', h₂) = >>=-eq-returns (select_send_segment c _ time tuple) _ h₁ in
    ground (arith, select_send_segment-follows c r.1 _ time tuple r.0 e')

selected-follows :
    (c d : Connection) (available : AvailableBytes) (time : Instant) (tuple : FourTuple)
    (out : OutSignals)
    → signalled (select_send_segment c available time tuple) ≡ returns (out, d)
    → follows c.current d.current ≡ true
selected-follows c d available time tuple out h =
    let (segment, e, _) = signalled-inverse (select_send_segment c available time tuple) h in
    select_send_segment-follows c d available time tuple segment e

syn_retransmitted-current :
    (c d : Connection) (time : Instant) (tuple : FourTuple) (out : OutSignals)
    → signalled (select_syn_retransmit c time tuple) ≡ returns (out, d)
    → d.current ≡ c.current
unfolding select_syn_retransmit rearm_retransmission_timer
syn_retransmitted-current c d time tuple out h = ground arith

send_in-follows :
    (s : State) (c d : Connection) (available : AvailableBytes) (time : Instant) (tuple : FourTuple)
    (out : OutSignals)
    → c.current ≡ s
    → send_in s c available time tuple ≡ returns (out, d)
    → follows c.current d.current ≡ true
unfolding send_in ensure_time_wait ensure_closed_ack
send_in-follows established c d available time tuple out e h =
    selected-follows c d available time tuple out h
send_in-follows close_wait c d available time tuple out e h =
    selected-follows c d available time tuple out h
send_in-follows syn_sent c d available time tuple out e h =
    follows_self c.current d.current (syn_retransmitted-current c d time tuple out h)
send_in-follows syn_received c d available time tuple out e h =
    follows_self c.current d.current (syn_retransmitted-current c d time tuple out h)
send_in-follows closed c d available time tuple out e h =
    follows_self c.current d.current (ground arith)
send_in-follows time_wait c d available time tuple out e h =
    follows_self c.current d.current (ground arith)
send_in-follows listen c d available time tuple out e h =
    follows_self c.current d.current (ground arith)
send_in-follows _ c d available time tuple out e h =
    send_closing-follows c d available time tuple out h

pub next_send_segment-follows :
    (c d : Connection) (available : AvailableBytes) (time : Instant) (tuple : FourTuple)
    (out : OutSignals)
    → next_send_segment c available time tuple ≡ returns (out, d)
    → follows c.current d.current ≡ true
unfolding next_send_segment
next_send_segment-follows c d available time tuple out h =
    send_in-follows c.current c d available time tuple out refl h
