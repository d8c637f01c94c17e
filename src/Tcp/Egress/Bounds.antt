-- ===== src/Tcp/Egress/Bounds.antt =====
-- What a transmitted segment of ethox/src/layer/tcp/connection.rs carries: its data lies in the
-- buffer and in the peer's window, its header says where, and it acknowledges all that was received.
use ethox.Base.{
  ℕ, ◌+◌, ◌-◌, ◌%◌, ◌≡◌, refl, sym, ap, ◌∙◌, ◌==◌, ◌<◌, ◌≤◌, ◌^◌, Bool, Option, some, none, returns,
  arith, >>=-eq-returns, min, Bool-cases, inl, inr, ltb, ltb→lt, leb, ◌⊎◌, ◌||◌, subst,
}
use ethox.Time.{Instant, at, expiration_ge, instant_lt}
use ethox.Wire.Seq
use ethox.Wire.Seq.{SeqNumber}
use ethox.Tcp.Types.{
  Connection, FourTuple, State, Segment, AvailableBytes, OutSignals, closed, listen, syn_sent,
  syn_received, established, fin_wait, closing, time_wait, close_wait, last_ack,
}
use ethox.Tcp.Window.{send_window}
use ethox.Tcp.Acks.{rearm_retransmission_timer, should_ack, send_open}
use ethox.Tcp.Egress.{
  retransmit_some, segment_retransmit, fast_retransmit, timeout_retransmit, send_new, ack_if_due,
  send_or_ack, restart_if_idle, select_send_segment, select_syn_retransmit, ensure_closed_ack,
  ensure_time_wait, send_closing, send_in, next_send_segment, byte_window, signalled, Selected,
  to_signals,
}
use ethox.Tcp.Machine.{IsSound, flight}
use ethox.Tcp.Machine.Transmits.{in_flight_sound, signalled-inverse}

-- The data of a segment, for a connection `c` and what it was offered.
pub record IsInBounds (c : Connection) (available : AvailableBytes) (s : Segment) : Type 0 where
  pub ordered : s.range_start ≤ s.range_end
  pub in_buffer : s.range_end ≤ available.total
  pub in_window : s.range_end ≤ send_window c.send
  pub one_segment : s.range_end - s.range_start ≤ c.sender_maximum_segment_size
  pub announced : s.repr.payload_len ≡ s.range_end - s.range_start
  -- An empty segment may stand anywhere.
  pub placed :
      (s.repr.payload_len ≡ 0) ⊎ (s.repr.seq_number ≡ (c.send.unacked + s.range_start) % 2 ^ 32)

abbrev pub Bounded : Connection → AvailableBytes → Option Segment → Type 0
Bounded c available none = Unit
Bounded c available (some s) = IsInBounds c available s

retransmit-Bounded :
    (c d : Connection) (available : AvailableBytes) (tuple : FourTuple) (segment : Option Segment)
    → IsSound c
    → segment_retransmit c available tuple ≡ returns (segment, d)
    → Bounded c available segment
unfolding segment_retransmit retransmit_some
retransmit-Bounded c d available tuple none v h = tt
retransmit-Bounded c d available tuple (some s) v h = ground (arith, in_flight_sound c v)

send_new-Bounded :
    (c d : Connection) (available : AvailableBytes) (tuple : FourTuple) (segment : Option Segment)
    → IsSound c
    → flight c.send < min (send_window c.send) (byte_window available)
    → send_new c available tuple (flight c.send) (min (send_window c.send) (byte_window available))
      ≡ returns (segment, d)
    → Bounded c available segment
unfolding send_new
send_new-Bounded c d available tuple none v l h = tt
send_new-Bounded c d available tuple (some s) v l h = ground arith

ack_if_due-Bounded :
    (c : Connection) (available : AvailableBytes) (time : Instant) (tuple : FourTuple)
    → Bounded c available (ack_if_due c time tuple).0
unfolding ack_if_due
ack_if_due-Bounded c available time tuple = elim (Bool-cases due) [
  | inl yes_due ↦ rw yes_due (ground arith)
  | inr not_due ↦ rw not_due tt
]
  where
    due : Bool
    due = should_ack c || expiration_ge (at time) c.ack_timer

send_or_ack-Bounded :
    (c d : Connection) (available : AvailableBytes) (time : Instant) (tuple : FourTuple)
    (segment : Option Segment)
    → IsSound c
    → send_or_ack c available time tuple ≡ returns (segment, d)
    → Bounded c available segment
unfolding send_or_ack
send_or_ack-Bounded c d available time tuple segment v h =
    let most = min (send_window c.send) (byte_window available) in
    let e = in_flight_sound c v in
    elim (Bool-cases (ltb (flight c.send) most)) [
      | inl more ↦
          send_new-Bounded c d available tuple segment v (ltb→lt _ _ more) (rw (e, more) at h)
      | inr less ↦
          let q : returns (ack_if_due c time tuple) ≡ returns (segment, d) = rw (e, less) at h in
          let e' : (ack_if_due c time tuple).0 ≡ segment = cc in
          subst (Bounded c available) e' (ack_if_due-Bounded c available time tuple)
    ]

-- The steps before the selection leave what the bounds speak of alone.
pub segment-to_signals : (s : Option Segment) → (to_signals s).segment ≡ s
segment-to_signals none = refl
segment-to_signals (some s) = refl

Bounded-of_same :
    (c c' : Connection) (available : AvailableBytes) (segment : Option Segment)
    → c'.send ≡ c.send
    → c'.sender_maximum_segment_size ≡ c.sender_maximum_segment_size
    → Bounded c' available segment
    → Bounded c available segment
Bounded-of_same c c' available none e m b = tt
Bounded-of_same c c' available (some s) e m b = ground arith

pub select-Bounded :
    (c d : Connection) (available : AvailableBytes) (time : Instant) (tuple : FourTuple)
    (segment : Option Segment)
    → IsSound c
    → select_send_segment c available time tuple ≡ returns (segment, d)
    → Bounded c available segment
unfolding select_send_segment fast_retransmit timeout_retransmit
select-Bounded c d available time tuple segment v h =
    Bounded-of_same c c' available segment same_send same_mss
      (elim (Bool-cases (leb 2 c'.duplicate_ack)) [
        | inl fast ↦ retransmit-Bounded c' d available tuple segment v' (rw fast at h)
        | inr slow ↦ elim (Bool-cases (instant_lt c'.retransmission_timer time)) [
          | inl late ↦
              Bounded-of_same c' late_c available segment
                (unfold rearm_retransmission_timer in refl)
                (unfold rearm_retransmission_timer in refl)
                (retransmit-Bounded late_c d available tuple segment
                  (unfold rearm_retransmission_timer in ground (arith, v')) (rw (slow, late) at h))
          | inr early ↦
              send_or_ack-Bounded c' d available time tuple segment v' (rw (slow, early) at h)
        ]
      ])
  where
    c' : Connection
    c' = restart_if_idle c time

    same_send : c'.send ≡ c.send
    same_send = unfold restart_if_idle in ground arith

    same_mss : c'.sender_maximum_segment_size ≡ c.sender_maximum_segment_size
    same_mss = unfold restart_if_idle in ground arith

    v' : IsSound c'
    v' = unfold restart_if_idle in ground arith

    late_c : Connection
    late_c = rearm_retransmission_timer c' time

-- A selection whose segments are bounded signals bounded segments.
pub signalled-Bounded :
    (c d : Connection) (available : AvailableBytes) (m : Selected) (out : OutSignals)
    → ((segment : Option Segment) → m ≡ returns (segment, d) → Bounded c available segment)
    → signalled m ≡ returns (out, d)
    → Bounded c available out.segment
signalled-Bounded c d available m out all h =
    let (segment, e, o) = signalled-inverse m h in
    let e' : segment ≡ out.segment =
      sym (ap (λ (x : OutSignals). x.segment) o ∙ segment-to_signals segment) in
    subst (Bounded c available) e' (all segment e)

-- Fewer bytes offered: bounds for those are bounds for all.
Bounded-mono :
    (c : Connection) (available : AvailableBytes) (n : ℕ) (segment : Option Segment)
    → Bounded c (record available { total = min available.total n }) segment
    → Bounded c available segment
Bounded-mono c available n none b = tt
Bounded-mono c available n (some s) b = ground arith

send_closing-Bounded :
    (c d : Connection) (available : AvailableBytes) (time : Instant) (tuple : FourTuple)
    (out : OutSignals)
    → IsSound c
    → send_closing c available time tuple ≡ returns (out, d)
    → Bounded c available out.segment
unfolding send_closing
send_closing-Bounded c d available time tuple out v h =
    let (k, _, h₁) = >>=-eq-returns (Seq.sub c.send.next c.send.unacked) _ h in
    let offered : AvailableBytes = record available { total = min available.total k } in
    Bounded-mono c available k out.segment (
      signalled-Bounded c d offered _ out
        (λ segment. select-Bounded c d offered time tuple segment v) h₁)

syn_retransmit-Bounded :
    (c d : Connection) (available : AvailableBytes) (time : Instant) (tuple : FourTuple)
    (segment : Option Segment)
    → select_syn_retransmit c time tuple ≡ returns (segment, d)
    → Bounded c available segment
unfolding select_syn_retransmit send_open
syn_retransmit-Bounded c d available time tuple none h = tt
syn_retransmit-Bounded c d available time tuple (some s) h = ground arith

closed_ack-Bounded :
    (c : Connection) (available : AvailableBytes) (tuple : FourTuple)
    → Bounded c available (ensure_closed_ack c tuple).0
unfolding ensure_closed_ack
closed_ack-Bounded c available tuple = elim (Bool-cases (c.recv.acked == c.recv.next)) [
  | inl all ↦ rw all tt
  | inr some_left ↦ rw some_left (ground arith)
]

segment-time_wait :
    (c : Connection) (time : Instant) (tuple : FourTuple)
    → (ensure_time_wait c time tuple).0.segment ≡ (ensure_closed_ack c tuple).0
unfolding ensure_time_wait
segment-time_wait c time tuple = ground arith

Bounded-in :
    (s : State) (c d : Connection) (available : AvailableBytes) (time : Instant) (tuple : FourTuple)
    (out : OutSignals)
    → IsSound c
    → send_in s c available time tuple ≡ returns (out, d)
    → Bounded c available out.segment
unfolding send_in
Bounded-in established c d available time tuple out v h =
    signalled-Bounded c d available _ out (λ s. select-Bounded c d available time tuple s v) h
Bounded-in close_wait c d available time tuple out v h =
    signalled-Bounded c d available _ out (λ s. select-Bounded c d available time tuple s v) h
Bounded-in fin_wait c d available time tuple out v h =
    send_closing-Bounded c d available time tuple out v h
Bounded-in closing c d available time tuple out v h =
    send_closing-Bounded c d available time tuple out v h
Bounded-in last_ack c d available time tuple out v h =
    send_closing-Bounded c d available time tuple out v h
Bounded-in syn_sent c d available time tuple out v h =
    signalled-Bounded c d available _ out (syn_retransmit-Bounded c d available time tuple) h
Bounded-in syn_received c d available time tuple out v h =
    signalled-Bounded c d available _ out (syn_retransmit-Bounded c d available time tuple) h
Bounded-in closed c d available time tuple out v h =
    let e : (ensure_closed_ack c tuple).0 ≡ out.segment =
      ground (arith, segment-to_signals (ensure_closed_ack c tuple).0) in
    subst (Bounded c available) e (closed_ack-Bounded c available tuple)
Bounded-in time_wait c d available time tuple out v h =
    let e : (ensure_closed_ack c tuple).0 ≡ out.segment = cc (segment-time_wait c time tuple) in
    subst (Bounded c available) e (closed_ack-Bounded c available tuple)
Bounded-in listen c d available time tuple out v h =
    let e : none ≡ out.segment = ground arith in subst (Bounded c available) e tt

-- The data of every segment that a sound connection transmits lies in the offered bytes and in the
-- peer's window, is at most one segment size long, and is what the header's length says; unless it
-- is empty the header's sequence number is that of its first byte, counted from `unacked`.
pub next_send_segment-Bounded :
    (c d : Connection) (available : AvailableBytes) (time : Instant) (tuple : FourTuple)
    (out : OutSignals)
    → IsSound c
    → next_send_segment c available time tuple ≡ returns (out, d)
    → Bounded c available out.segment
unfolding next_send_segment
next_send_segment-Bounded c d available time tuple out v h =
    Bounded-in c.current c d available time tuple out v h
