-- ===== src/Tcp/Machine/Transmits.antt =====
-- The transmission side keeps `IsSound`.
use native.Mathlib.Nat.{mul-le-mul}
use ethox.Base.{
  ℕ, ◌*◌, ◌%◌, ◌≡◌, ◌≢◌, refl, ◌≤◌, ◌^◌, Option, returns, panics, arith, >>=-eq-returns, min,
  u16_max, Bool-cases, inl, inr, ltb, subst,
}
use ethox.Time.{Instant}
use ethox.Tcp.Types.{
  Connection, FourTuple, State, Segment, AvailableBytes, OutSignals, syn_sent, syn_received,
  established, close_wait, closed, listen, time_wait,
}
use ethox.Tcp.Window.{in_flight, send_window}
use ethox.Tcp.Window.Scale.{unit_bounds}
use ethox.Wire.Seq
use ethox.Tcp.Acks.{rearm_retransmission_timer, change_state}
use ethox.Tcp.Egress.{
  retransmit_some, segment_retransmit, fast_retransmit, timeout_retransmit, send_new, ack_if_due,
  send_or_ack, restart_if_idle, select_send_segment, select_syn_retransmit, ensure_time_wait,
  send_closing, send_in, next_send_segment, byte_window, after_fin, signalled, Selected, to_signals,
}
use ethox.Tcp.Machine.{IsSound, flight}

pub send_window-le : (c : Connection) → IsSound c → send_window c.send ≤ u16_max * 2 ^ 14
unfolding send_window
send_window-le c v =
    let e : c.send.window_scale % 32 ≡ c.send.window_scale = omega arith in
    rw e (
      omega (
        arith,
        mul-le-mul v.send_window_fits (unit_bounds c.send.window_scale v.send_scale_fits).1,
      ))

-- The assertion of `in_flight` holds, and it counts the flight.
pub in_flight_sound : (c : Connection) → IsSound c → in_flight c.send ≡ returns (flight c.send)
unfolding in_flight
in_flight_sound c v = ground arith

segment_retransmit-IsSound :
    (c d : Connection) (available : AvailableBytes) (tuple : FourTuple) (segment : Option Segment)
    → IsSound c
    → segment_retransmit c available tuple ≡ returns (segment, d)
    → IsSound d
unfolding segment_retransmit retransmit_some
segment_retransmit-IsSound c d available tuple segment v h = ground (arith, in_flight_sound c v)

after_fin-IsSound : (s : State) (c : Connection) → c.current ≡ s → IsSound c → IsSound (after_fin c)
unfolding change_state
after_fin-IsSound established c e v = ground arith
after_fin-IsSound _ c e v = ground arith

send_new-IsSound :
    (c d : Connection) (available : AvailableBytes) (tuple : FourTuple) (max_sent : ℕ)
    (segment : Option Segment)
    → IsSound c
    → c.current ≢ syn_sent
    → max_sent ≤ u16_max * 2 ^ 14
    → send_new c available tuple (flight c.send) max_sent ≡ returns (segment, d)
    → IsSound d
unfolding send_new
send_new-IsSound c d available tuple max_sent segment v n m h = ground arith

ack_if_due-IsSound :
    (c : Connection) (time : Instant) (tuple : FourTuple)
    → IsSound c
    → IsSound (ack_if_due c time tuple).1
unfolding ack_if_due
ack_if_due-IsSound c time tuple v = ground arith

send_or_ack-IsSound :
    (c d : Connection) (available : AvailableBytes) (time : Instant) (tuple : FourTuple)
    (segment : Option Segment)
    → IsSound c
    → c.current ≢ syn_sent
    → send_or_ack c available time tuple ≡ returns (segment, d)
    → IsSound d
unfolding send_or_ack
send_or_ack-IsSound c d available time tuple segment v n h =
    let most = min (send_window c.send) (byte_window available) in
    let (sent, e, rest) = >>=-eq-returns (in_flight c.send) _ h in
    let e' : sent ≡ flight c.send = ground (arith, in_flight_sound c v) in
    elim (Bool-cases (ltb sent most)) [
      | inl more ↦
          send_new-IsSound c d available tuple most segment v n (omega (arith, send_window-le c v))
            (rw (more, e') at rest)
      | inr less ↦
          let q : returns (ack_if_due c time tuple) ≡ returns (segment, d) = rw less at rest in
          let e'' : (ack_if_due c time tuple).1 ≡ d = cc in
          subst IsSound e'' (ack_if_due-IsSound c time tuple v)
    ]

select_send_segment-IsSound :
    (c d : Connection) (available : AvailableBytes) (time : Instant) (tuple : FourTuple)
    (segment : Option Segment)
    → IsSound c
    → c.current ≢ syn_sent
    → select_send_segment c available time tuple ≡ returns (segment, d)
    → IsSound d
unfolding select_send_segment fast_retransmit timeout_retransmit
select_send_segment-IsSound c d available time tuple segment v n h = ground (
  arith,
  segment_retransmit-IsSound c' d available tuple segment v',
  segment_retransmit-IsSound (rearm_retransmission_timer c' time) d available tuple segment
      (unfold rearm_retransmission_timer in ground (arith, v')),
  send_or_ack-IsSound c' d available time tuple segment v' n',
)
  where
    c' : Connection
    c' = restart_if_idle c time

    n' : c'.current ≢ syn_sent
    n' = unfold restart_if_idle in ground arith

    v' : IsSound c'
    v' = unfold restart_if_idle in ground arith

send_closing-IsSound :
    (c d : Connection) (available : AvailableBytes) (time : Instant) (tuple : FourTuple)
    (out : OutSignals)
    → IsSound c
    → c.current ≢ syn_sent
    → send_closing c available time tuple ≡ returns (out, d)
    → IsSound d
unfolding send_closing
send_closing-IsSound c d available time tuple out v n h =
    let (k, e, h₁) = >>=-eq-returns (Seq.sub c.send.next c.send.unacked) _ h in
    let (r, e', h₂) = >>=-eq-returns (select_send_segment c _ time tuple) _ h₁ in
    ground (arith, select_send_segment-IsSound c r.1 _ time tuple r.0 v n e')

pub signalled-inverse :
    (m : Selected) {out : OutSignals} {d : Connection}
    → signalled m ≡ returns (out, d)
    → (segment : Option Segment) × (m ≡ returns (segment, d)) × (out ≡ to_signals segment)
signalled-inverse (returns (segment, c)) h = (segment, ground arith, ground arith)
signalled-inverse panics h = cc

selected-IsSound :
    (c d : Connection) (available : AvailableBytes) (time : Instant) (tuple : FourTuple)
    (out : OutSignals)
    → IsSound c
    → c.current ≢ syn_sent
    → signalled (select_send_segment c available time tuple) ≡ returns (out, d)
    → IsSound d
selected-IsSound c d available time tuple out v n h =
    let (segment, e, _) = signalled-inverse (select_send_segment c available time tuple) h in
    select_send_segment-IsSound c d available time tuple segment v n e

select_syn_retransmit-IsSound :
    (c d : Connection) (time : Instant) (tuple : FourTuple) (segment : Option Segment)
    → IsSound c
    → select_syn_retransmit c time tuple ≡ returns (segment, d)
    → IsSound d
unfolding select_syn_retransmit
select_syn_retransmit-IsSound c d time tuple segment v h = ground arith

syn_retransmitted-IsSound :
    (c d : Connection) (time : Instant) (tuple : FourTuple) (out : OutSignals)
    → IsSound c
    → signalled (select_syn_retransmit c time tuple) ≡ returns (out, d)
    → IsSound d
syn_retransmitted-IsSound c d time tuple out v h =
    let (segment, e, _) = signalled-inverse (select_syn_retransmit c time tuple) h in
    select_syn_retransmit-IsSound c d time tuple segment v e

send_in-IsSound :
    (s : State) (c d : Connection) (available : AvailableBytes) (time : Instant) (tuple : FourTuple)
    (out : OutSignals)
    → c.current ≡ s
    → IsSound c
    → send_in s c available time tuple ≡ returns (out, d)
    → IsSound d
unfolding send_in ensure_time_wait
send_in-IsSound established c d available time tuple out e v h =
    selected-IsSound c d available time tuple out v (λ q. cc) h
send_in-IsSound close_wait c d available time tuple out e v h =
    selected-IsSound c d available time tuple out v (λ q. cc) h
send_in-IsSound syn_sent c d available time tuple out e v h =
    syn_retransmitted-IsSound c d time tuple out v h
send_in-IsSound syn_received c d available time tuple out e v h =
    syn_retransmitted-IsSound c d time tuple out v h
send_in-IsSound closed c d available time tuple out e v h = ground arith
send_in-IsSound time_wait c d available time tuple out e v h = ground arith
send_in-IsSound listen c d available time tuple out e v h = ground arith
send_in-IsSound _ c d available time tuple out e v h =
    send_closing-IsSound c d available time tuple out v (λ q. cc) h

pub next_send_segment-IsSound :
    (c d : Connection) (available : AvailableBytes) (time : Instant) (tuple : FourTuple)
    (out : OutSignals)
    → IsSound c
    → next_send_segment c available time tuple ≡ returns (out, d)
    → IsSound d
unfolding next_send_segment
next_send_segment-IsSound c d available time tuple out v h =
    send_in-IsSound c.current c d available time tuple out refl v h
