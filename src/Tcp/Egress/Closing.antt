-- ===== src/Tcp/Egress/Closing.antt =====
-- After our FIN: the closing states of `next_send_segment` in ethox/src/layer/tcp/connection.rs.
use ethox.Base.{◌≡◌, ◌≤◌, refl, Bool, Option, returns, arith, min, true, false}
use ethox.Time.{Instant}
use ethox.Wire.Seq
use ethox.Tcp.Types.{
  Connection, FourTuple, State, Segment, AvailableBytes, OutSignals, fin_wait, closing, last_ack,
}
use ethox.Tcp.Acks.{rearm_retransmission_timer}
use ethox.Tcp.Egress.{
  retransmit_some, segment_retransmit, fast_retransmit, timeout_retransmit, ack_if_due, send_or_ack,
  restart_if_idle, select_send_segment, send_closing, send_in, next_send_segment, signalled,
}
use ethox.Tcp.Egress.Bounds.{Bounded, select-Bounded, signalled-Bounded}
use ethox.Tcp.Machine.{IsSound, flight}
use ethox.Tcp.Machine.Transmits.{signalled-inverse, in_flight_sound}

retransmit_keeps-send :
    (c d : Connection) (available : AvailableBytes) (tuple : FourTuple) (segment : Option Segment)
    → segment_retransmit c available tuple ≡ returns (segment, d)
    → d.send ≡ c.send
unfolding segment_retransmit retransmit_some
retransmit_keeps-send c d available tuple segment h = ground arith

ack_keeps-send :
    (c : Connection) (time : Instant) (tuple : FourTuple)
    → (ack_if_due c time tuple).1.send ≡ c.send
unfolding ack_if_due
ack_keeps-send c time tuple = ground arith

-- With no byte offered beyond those in flight there is nothing new.
nothing_new :
    (c d : Connection) (available : AvailableBytes) (time : Instant) (tuple : FourTuple)
    (segment : Option Segment)
    → IsSound c
    → available.total ≤ flight c.send
    → send_or_ack c available time tuple ≡ returns (segment, d)
    → d.send ≡ c.send
unfolding send_or_ack
nothing_new c d available time tuple segment v l h =
    ground (arith, in_flight_sound c v, ack_keeps-send c time tuple)

selection_keeps-send :
    (c d : Connection) (available : AvailableBytes) (time : Instant) (tuple : FourTuple)
    (segment : Option Segment)
    → IsSound c
    → available.total ≤ flight c.send
    → select_send_segment c available time tuple ≡ returns (segment, d)
    → d.send ≡ c.send
unfolding select_send_segment fast_retransmit timeout_retransmit
selection_keeps-send c d available time tuple segment v l h = ground (
  arith,
  same_send,
  retransmit_keeps-send (rearm_retransmission_timer c' time) d available tuple segment,
  timer_keeps-send,
  retransmit_keeps-send c' d available tuple segment,
  nothing_new c' d available time tuple segment v',
)
  where
    c' : Connection
    c' = restart_if_idle c time

    same_send : c'.send ≡ c.send
    same_send = unfold restart_if_idle in ground arith

    timer_keeps-send : (rearm_retransmission_timer c' time).send ≡ c'.send
    timer_keeps-send = unfold rearm_retransmission_timer in refl

    v' : IsSound c'
    v' = unfold restart_if_idle in ground arith

-- Whether our FIN has been sent, so that `next_send_segment` offers nothing new.
unfoldable pub fin_sent : State → Bool
fin_sent fin_wait = true
fin_sent closing = true
fin_sent last_ack = true
fin_sent _ = false

-- What a choice leaves of the sending side, and the segment it may choose, whose data lies within what is in flight.
abbrev pub StaysInFlight : Connection → Connection → AvailableBytes → OutSignals → Type 0
StaysInFlight c d available out =
    (d.send ≡ c.send)
    × Bounded c (record available { total = min available.total (flight c.send) }) out.segment

closing-StaysInFlight :
    (c d : Connection) (available : AvailableBytes) (time : Instant) (tuple : FourTuple)
    (out : OutSignals)
    → IsSound c
    → send_closing c available time tuple ≡ returns (out, d)
    → StaysInFlight c d available out
unfolding send_closing
closing-StaysInFlight c d available time tuple out v h =
    let fits : Seq.sub c.send.next c.send.unacked ≡ returns (flight c.send) =
      unfold Seq.sub in ground (arith, v) in
    let offered : AvailableBytes = record available {
      total = min available.total (flight c.send);
    } in
    let h₁ : signalled (select_send_segment c offered time tuple) ≡ returns (out, d) =
      rw fits at h in
    let (segment, e', _) = signalled-inverse (select_send_segment c offered time tuple) h₁ in
    (
      selection_keeps-send c d offered time tuple segment v (omega arith) e',
      signalled-Bounded c d offered _ out
          (λ segment. select-Bounded c d offered time tuple segment v) h₁,
    )

fin_sent_in :
    (s : State) (c d : Connection) (available : AvailableBytes) (time : Instant) (tuple : FourTuple)
    (out : OutSignals)
    → IsSound c
    → fin_sent s ≡ true
    → send_in s c available time tuple ≡ returns (out, d)
    → StaysInFlight c d available out
unfolding send_in fin_sent
fin_sent_in fin_wait c d available time tuple out v f h =
    closing-StaysInFlight c d available time tuple out v h
fin_sent_in closing c d available time tuple out v f h =
    closing-StaysInFlight c d available time tuple out v h
fin_sent_in last_ack c d available time tuple out v f h =
    closing-StaysInFlight c d available time tuple out v h
fin_sent_in _ c d available time tuple out v f h = cc

-- Once our FIN is sent (`FinWait`, `Closing` and `LastAck`) choosing a segment never moves the sending side, however
-- many bytes are offered: `next` stays, and the data of a segment that is sent lies below the count of the sequence
-- numbers in flight, in the offered bytes and in the peer's window. That count includes the number of the FIN, so
-- where more bytes are offered than were sent the first of those may be sent in its place.
pub fin_sent-StaysInFlight :
    (c d : Connection) (available : AvailableBytes) (time : Instant) (tuple : FourTuple)
    (out : OutSignals)
    → IsSound c
    → fin_sent c.current ≡ true
    → next_send_segment c available time tuple ≡ returns (out, d)
    → StaysInFlight c d available out
unfolding next_send_segment
fin_sent-StaysInFlight c d available time tuple out v f h =
    fin_sent_in c.current c d available time tuple out v f h
