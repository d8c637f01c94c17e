-- ===== src/Tcp/Egress/Progress.antt =====
-- `next_send_segment` of ethox/src/layer/tcp/connection.rs sends new data while it can.
use ethox.Base.{
  ℕ, ◌+◌, ◌≡◌, ◌<◌, ◌^◌, refl, ap, ◌∙◌, ◌==◌, Option, some, none, returns, arith, min, ◌-◌, ◌%◌,
  ◌&&◌, if◌then◌else◌, ltb, leb, lt→ltb, true, false, u32_max,
}
use ethox.Time.{Instant, instant_lt}
use ethox.Wire.Flags.{from_bool}
use ethox.Tcp.Types.{Connection, FourTuple, Segment, AvailableBytes, established, fin_wait}
use ethox.Tcp.Window.{in_flight, send_window}
use ethox.Tcp.Egress.{
  send_new, send_or_ack, restart_if_idle, select_send_segment, send_in, next_send_segment,
  byte_window, signalled,
}
use ethox.Tcp.Machine.{IsSound, flight}
use ethox.Tcp.Segments.{out_segment}
use ethox.Tcp.Machine.Total.{send_new-total, returns_of}
use ethox.Tcp.Machine.Transmits.{in_flight_sound, send_window-le}

-- The length of the next new segment.
pub new_length : Connection → AvailableBytes → ℕ
new_length c available =
    min c.sender_maximum_segment_size
      (min (send_window c.send) (min available.total u32_max) - flight c.send)

-- The segment `s` sent from `c`, leaving `d`, is new data.
pub record IsNewData (c : Connection) (available : AvailableBytes) (s : Segment) (d : Connection)
    : Type 0 where
  pub from_flight : s.range_start ≡ flight c.send
  pub as_long_as_allowed : s.range_end ≡ flight c.send + new_length c available
  pub not_empty : 0 < new_length c available
  pub counted :
      d.send.next
      ≡ (c.send.next
          + new_length c available
          + from_bool (available.fin && s.range_end == available.total))
        % 2 ^ 32
  pub unacked_stays : d.send.unacked ≡ c.send.unacked
  pub state :
      d.current
      ≡ (if available.fin && s.range_end == available.total then fin_wait else established)

new_data :
    (c d : Connection) (available : AvailableBytes) (tuple : FourTuple) (segment : Option Segment)
    → IsSound c
    → c.current ≡ established
    → flight c.send < min (send_window c.send) (byte_window available)
    → send_new c available tuple (flight c.send) (min (send_window c.send) (byte_window available))
      ≡ returns (segment, d)
    → (s : Segment) × (segment ≡ some s) × IsNewData c available s d
unfolding send_new new_length
new_data c d available tuple none v e m h = absurd (ground arith)
new_data c d available tuple (some s) v e m h = (
  s,
  refl,
  record {
    from_flight = ground arith;
    as_long_as_allowed = ground arith;
    not_empty = ground arith;
    counted = ground (arith, send_window-le c v);
    unacked_stays = ground arith;
    state = ground arith;
  },
)

-- The restart after idle time changes only the congestion window.
pub restart-fields :
    (c : Connection) (time : Instant)
    → ((restart_if_idle c time).send ≡ c.send)
      × ((restart_if_idle c time).current ≡ c.current)
      × ((restart_if_idle c time).duplicate_ack ≡ c.duplicate_ack)
      × ((restart_if_idle c time).retransmission_timer ≡ c.retransmission_timer)
      × ((restart_if_idle c time).sender_maximum_segment_size ≡ c.sender_maximum_segment_size)
unfolding restart_if_idle
restart-fields c time = (ground arith, ground arith, ground arith, ground arith, ground arith)

IsNewData-of_same :
    (c c' d : Connection) (available : AvailableBytes) (s : Segment)
    → c'.send ≡ c.send
    → c'.sender_maximum_segment_size ≡ c.sender_maximum_segment_size
    → IsNewData c' available s d
    → IsNewData c available s d
unfolding new_length
IsNewData-of_same c c' d available s e m n = ground arith

-- The selection with no retransmission due is that of new data.
select-new :
    (c : Connection) (available : AvailableBytes) (time : Instant) (tuple : FourTuple)
    → IsSound c
    → c.duplicate_ack < 2
    → instant_lt c.retransmission_timer time ≡ false
    → flight c.send < min (send_window c.send) (byte_window available)
    → let c' = restart_if_idle c time in
      select_send_segment c available time tuple
      ≡ send_new c' available tuple
          (flight c'.send)
          (min (send_window c'.send) (byte_window available))
unfolding select_send_segment send_or_ack
select-new c available time tuple v f l m =
    let (same_send, same_state, same_dup, same_timer, same_mss) = restart-fields c time in
    let slow : leb 2 (restart_if_idle c time).duplicate_ack ≡ false = rw same_dup (ground arith) in
    let early : instant_lt (restart_if_idle c time).retransmission_timer time ≡ false =
      rw same_timer l in
    let flying : in_flight (restart_if_idle c time).send ≡ returns (flight c.send) =
      rw same_send (in_flight_sound c v) in
    let more : ltb (flight c.send) (min (send_window c.send) (byte_window available)) ≡ true =
      lt→ltb _ _ m in
    rw (slow, early, flying, same_send, more)

pub established_sends :
    (c d : Connection) (available : AvailableBytes) (time : Instant) (tuple : FourTuple)
    (s : Segment)
    → c.current ≡ established
    → select_send_segment c available time tuple ≡ returns (some s, d)
    → next_send_segment c available time tuple ≡ returns (out_segment s, d)
unfolding next_send_segment send_in
established_sends c d available time tuple s e h =
    ap (λ x. send_in x c available time tuple) e ∙ ap signalled h

-- On an established connection with fewer than two duplicate acknowledgements and the retransmission
-- timer not passed, if the peer's window and the offered bytes reach beyond what is in flight, a
-- segment is sent. It starts there and is as long as one segment, the window and the offer allow, at
-- least one byte; `next` moves past its bytes, and past a FIN exactly when the offer is final and ends
-- with them, which is when the state becomes `FinWait`.
pub next_send_segment_progress :
    (c : Connection) (available : AvailableBytes) (time : Instant) (tuple : FourTuple)
    → IsSound c
    → c.current ≡ established
    → c.duplicate_ack < 2
    → instant_lt c.retransmission_timer time ≡ false
    → flight c.send < min (send_window c.send) (min available.total u32_max)
    → (s : Segment) × (d : Connection) × (next_send_segment c available time tuple
        ≡ returns (out_segment s, d))
      × IsNewData c available s d
next_send_segment_progress c available time tuple v e f l m =
    let (same_send, same_state, same_dup, same_timer, same_mss) = restart-fields c time in
    let c' = restart_if_idle c time in
    let e' : c'.current ≡ established = same_state ∙ e in
    let m' : flight c'.send < min (send_window c'.send) (byte_window available) = rw same_send m in
    let v' : IsSound c' = unfold restart_if_idle in ground arith in
    let positive : 0 < c'.sender_maximum_segment_size = ground arith in
    let total =
      send_new-total c' available tuple _ v' positive m' (omega (arith, send_window-le c' v')) in
    let (r, sent) = returns_of _ total in
    let (s, there, new) = new_data c' r.1 available tuple r.0 v' e' m' sent in
    let selected : select_send_segment c available time tuple ≡ returns (some s, r.1) =
      select-new c available time tuple v f l m ∙ sent ∙ (cc there) in
    (
      s,
      r.1,
      established_sends c r.1 available time tuple s e selected,
      IsNewData-of_same c c' r.1 available s same_send same_mss new,
    )
