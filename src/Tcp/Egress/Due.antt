-- ===== src/Tcp/Egress/Due.antt =====
-- `next_send_segment` of ethox/src/layer/tcp/connection.rs acknowledges when it has nothing to send.
use ethox.Base.{
  ◌≡◌, ◌<◌, ◌≤◌, refl, ap, ◌∙◌, ◌||◌, Bool, some, returns, arith, min, ltb, leb, true, false,
  u32_max,
}
use ethox.Time.{Instant, instant_lt, at, expiration_ge}
use ethox.Wire.Seq
use ethox.Tcp.Types.{Connection, FourTuple, Segment, AvailableBytes, established}
use ethox.Tcp.Segments.{out_segment}
use ethox.Tcp.Window.{in_flight, send_window}
use ethox.Tcp.Acks.{should_ack, segment_ack_all, rearm_ack_timer}
use ethox.Tcp.Egress.{
  ack_if_due, send_or_ack, restart_if_idle, select_send_segment, next_send_segment, byte_window,
}
use ethox.Tcp.Egress.Progress.{restart-fields, established_sends}
use ethox.Tcp.Machine.{IsSound, flight}
use ethox.Tcp.Machine.Transmits.{in_flight_sound}

-- Whether something received waits to be acknowledged, or the timer for it has run out.
unfoldable pub ack_is_due : Connection → Instant → Bool
ack_is_due c time = should_ack c || expiration_ge (at time) c.ack_timer

restart-recv :
    (c : Connection) (time : Instant)
    → ((restart_if_idle c time).recv ≡ c.recv) × ((restart_if_idle c time).ack_timer ≡ c.ack_timer)
unfolding restart_if_idle
restart-recv c time = (ground arith, ground arith)

-- The selection with no retransmission due and nothing new to send.
select-idle :
    (c : Connection) (available : AvailableBytes) (time : Instant) (tuple : FourTuple)
    → IsSound c
    → c.duplicate_ack < 2
    → instant_lt c.retransmission_timer time ≡ false
    → min (send_window c.send) (byte_window available) ≤ flight c.send
    → select_send_segment c available time tuple
      ≡ returns (ack_if_due (restart_if_idle c time) time tuple)
unfolding select_send_segment send_or_ack
select-idle c available time tuple v f l m =
    let (same_send, same_state, same_dup, same_timer, same_mss) = restart-fields c time in
    let slow : leb 2 (restart_if_idle c time).duplicate_ack ≡ false = rw same_dup (ground arith) in
    let early : instant_lt (restart_if_idle c time).retransmission_timer time ≡ false =
      rw same_timer l in
    let flying : in_flight (restart_if_idle c time).send ≡ returns (flight c.send) =
      rw same_send (in_flight_sound c v) in
    let done : ltb (flight c.send) (min (send_window c.send) (byte_window available)) ≡ false =
      ground arith in
    rw (slow, early, flying, same_send, done)

-- A pure acknowledgement `s` sent from `c`, leaving `d`.
pub record IsPureAck (c : Connection) (s : Segment) (d : Connection) : Type 0 where
  pub acks : s.repr.ack_number ≡ some c.recv.next
  pub no_data : s.range_end ≡ s.range_start
  pub recorded : d.recv.acked ≡ c.recv.next
  pub same_send : d.send ≡ c.send
  pub same_state : d.current ≡ c.current

ack_if_due-cases :
    (c c' : Connection) (time : Instant) (tuple : FourTuple)
    → c'.recv ≡ c.recv
    → c'.ack_timer ≡ c.ack_timer
    → c'.send ≡ c.send
    → c'.current ≡ c.current
    → ack_is_due c time ≡ true
    → (s : Segment) × (d : Connection) × (ack_if_due c' time tuple ≡ (some s, d)) × IsPureAck c s d
unfolding ack_if_due ack_is_due
ack_if_due-cases c c' time tuple r t s e due = (
  sent.0,
  sent.1,
  rw due' refl,
  record {
    acks = ap (λ x. some x.next) r;
    no_data = refl;
    recorded = ap (λ x. x.next) r;
    same_send = s;
    same_state = e;
  },
)
  where
    sent : Segment × Connection
    sent = segment_ack_all (rearm_ack_timer c' time) tuple

    due' : ack_is_due c' time ≡ true
    due' =
        ap (λ x. Seq.lt x.acked x.next || expiration_ge (at time) c'.ack_timer) r
        ∙ ap (λ x. Seq.lt c.recv.acked c.recv.next || expiration_ge (at time) x) t
        ∙ due

-- On an established connection with fewer than two duplicate acknowledgements and the retransmission
-- timer not passed, if nothing can be sent beyond what is in flight, while something received waits to
-- be acknowledged or the timer for that has run out, a segment without data is sent that acknowledges
-- all that was received; the sending side and the state stay.
pub due_ack_sent :
    (c : Connection) (available : AvailableBytes) (time : Instant) (tuple : FourTuple)
    → IsSound c
    → c.current ≡ established
    → c.duplicate_ack < 2
    → instant_lt c.retransmission_timer time ≡ false
    → min (send_window c.send) (min available.total u32_max) ≤ flight c.send
    → ack_is_due c time ≡ true
    → (s : Segment) × (d : Connection) × (next_send_segment c available time tuple
        ≡ returns (out_segment s, d))
      × IsPureAck c s d
due_ack_sent c available time tuple v e f l m due =
    let (same_send, same_state, same_dup, same_timer, same_mss) = restart-fields c time in
    let (same_recv, same_ack) = restart-recv c time in
    let (s, d, acked, pure) =
      ack_if_due-cases c (restart_if_idle c time) time tuple same_recv same_ack same_send same_state
        due in
    (
      s,
      d,
      established_sends c d available time tuple s e
          (select-idle c available time tuple v f l m ∙ ap returns acked),
      pure,
    )
