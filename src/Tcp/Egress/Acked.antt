-- ===== src/Tcp/Egress/Acked.antt =====
-- What a transmitted segment of ethox/src/layer/tcp/connection.rs acknowledges.
use ethox.Base.{
  ℕ, ◌≡◌, refl, sym, ap, ◌∙◌, ◌==◌, Bool, Option, some, none, Outcome, returns, arith,
  >>=-eq-returns, min, Bool-cases, inl, inr, ltb, leb, ◌||◌, subst,
}
use ethox.Time.{Instant, at, never, expiration_ge, instant_lt}
use ethox.Wire.Seq
use ethox.Wire.Seq.{SeqNumber}
use ethox.Tcp.Types.{
  Connection, FourTuple, State, Segment, AvailableBytes, OutSignals, closed, listen, syn_sent,
  syn_received, established, time_wait, close_wait,
}
use ethox.Tcp.Window.{in_flight, send_window}
use ethox.Tcp.Acks.{rearm_retransmission_timer, should_ack, send_open}
use ethox.Tcp.Egress.{
  retransmit_some, segment_retransmit, fast_retransmit, timeout_retransmit, send_new, ack_if_due,
  send_or_ack, restart_if_idle, select_send_segment, select_syn_retransmit, ensure_closed_ack,
  ensure_time_wait, send_closing, send_in, next_send_segment, byte_window, signalled, Selected,
}
use ethox.Tcp.Machine.Transmits.{signalled-inverse}
use ethox.Tcp.Egress.Bounds.{segment-to_signals}

-- The acknowledgement of a segment sent from `c`, leaving `d`.
pub record Acknowledges (c d : Connection) (a : SeqNumber) : Type 0 where
  pub all_received : a ≡ c.recv.next
  pub nothing_new : d.recv.next ≡ c.recv.next
  pub recorded : d.recv.acked ≡ c.recv.next
  pub timer_off : d.ack_timer ≡ never

abbrev pub AckOf : Connection → Connection → Option SeqNumber → Type 0
AckOf c d none = d.recv ≡ c.recv
AckOf c d (some a) = Acknowledges c d a

abbrev pub Acked : Connection → Connection → Option Segment → Type 0
Acked c d none = d.recv ≡ c.recv
Acked c d (some s) = AckOf c d s.repr.ack_number

retransmit-Acked :
    (c d : Connection) (available : AvailableBytes) (tuple : FourTuple) (segment : Option Segment)
    → segment_retransmit c available tuple ≡ returns (segment, d)
    → Acked c d segment
unfolding segment_retransmit retransmit_some
retransmit-Acked c d available tuple none h = ground arith
retransmit-Acked c d available tuple (some s) h = ground arith

send_new-Acked :
    (c d : Connection) (available : AvailableBytes) (tuple : FourTuple) (sent most : ℕ)
    (segment : Option Segment)
    → send_new c available tuple sent most ≡ returns (segment, d)
    → Acked c d segment
unfolding send_new
send_new-Acked c d available tuple sent most none h = ground arith
send_new-Acked c d available tuple sent most (some s) h = ground arith

ack_if_due-Acked :
    (c : Connection) (time : Instant) (tuple : FourTuple)
    → Acked c (ack_if_due c time tuple).1 (ack_if_due c time tuple).0
unfolding ack_if_due
ack_if_due-Acked c time tuple = elim (Bool-cases due) [
  | inl yes_due ↦ rw yes_due (ground arith)
  | inr not_due ↦ rw not_due refl
]
  where
    due : Bool
    due = should_ack c || expiration_ge (at time) c.ack_timer

-- A pair that is returned, taken apart.
pair_returned :
    (c d : Connection) (r : Option Segment × Connection) (segment : Option Segment)
    → Outcome.returns r ≡ returns (segment, d)
    → Acked c r.1 r.0
    → Acked c d segment
pair_returned c d (s, c') segment h a =
    let e : s ≡ segment = cc in
    let e' : c' ≡ d = cc in subst (λ x. Acked c x segment) e' (subst (Acked c c') e a)

send_or_ack-Acked :
    (c d : Connection) (available : AvailableBytes) (time : Instant) (tuple : FourTuple)
    (segment : Option Segment)
    → send_or_ack c available time tuple ≡ returns (segment, d)
    → Acked c d segment
unfolding send_or_ack
send_or_ack-Acked c d available time tuple segment h =
    let (sent, e, rest) = >>=-eq-returns (in_flight c.send) _ h in
    elim (Bool-cases (ltb sent (min (send_window c.send) (byte_window available)))) [
      | inl more ↦ send_new-Acked c d available tuple sent _ segment (rw more at rest)
      | inr less ↦ pair_returned c d _ segment (rw less at rest) (ack_if_due-Acked c time tuple)
    ]

-- The steps before the selection do not receive.
Acked-of_same :
    (c c' d : Connection) (segment : Option Segment)
    → c'.recv ≡ c.recv
    → Acked c' d segment
    → Acked c d segment
Acked-of_same c c' d none e a = a ∙ e
Acked-of_same c c' d (some s) e a = ground arith

select-Acked :
    (c d : Connection) (available : AvailableBytes) (time : Instant) (tuple : FourTuple)
    (segment : Option Segment)
    → select_send_segment c available time tuple ≡ returns (segment, d)
    → Acked c d segment
unfolding select_send_segment fast_retransmit timeout_retransmit
select-Acked c d available time tuple segment h =
    Acked-of_same c c' d segment (unfold restart_if_idle in ground arith)
      (elim (Bool-cases (leb 2 c'.duplicate_ack)) [
        | inl fast ↦ retransmit-Acked c' d available tuple segment (rw fast at h)
        | inr slow ↦ elim (Bool-cases (instant_lt c'.retransmission_timer time)) [
          | inl late ↦
              Acked-of_same c' late_c d segment (unfold rearm_retransmission_timer in refl)
                (retransmit-Acked late_c d available tuple segment (rw (slow, late) at h))
          | inr early ↦ send_or_ack-Acked c' d available time tuple segment (rw (slow, early) at h)
        ]
      ])
  where
    c' : Connection
    c' = restart_if_idle c time

    late_c : Connection
    late_c = rearm_retransmission_timer c' time

signalled-Acked :
    (c d : Connection) (m : Selected) (out : OutSignals)
    → ((segment : Option Segment) → m ≡ returns (segment, d) → Acked c d segment)
    → signalled m ≡ returns (out, d)
    → Acked c d out.segment
signalled-Acked c d m out all h =
    let (segment, e, o) = signalled-inverse m h in
    let e' : segment ≡ out.segment =
      sym (ap (λ (x : OutSignals). x.segment) o ∙ segment-to_signals segment) in
    subst (Acked c d) e' (all segment e)

send_closing-Acked :
    (c d : Connection) (available : AvailableBytes) (time : Instant) (tuple : FourTuple)
    (out : OutSignals)
    → send_closing c available time tuple ≡ returns (out, d)
    → Acked c d out.segment
unfolding send_closing
send_closing-Acked c d available time tuple out h =
    let (k, _, h₁) = >>=-eq-returns (Seq.sub c.send.next c.send.unacked) _ h in
    signalled-Acked c d _ out (λ segment. select-Acked c d _ time tuple segment) h₁

syn_retransmit-Acked :
    (c d : Connection) (time : Instant) (tuple : FourTuple) (segment : Option Segment)
    → select_syn_retransmit c time tuple ≡ returns (segment, d)
    → Acked c d segment
unfolding select_syn_retransmit send_open
syn_retransmit-Acked c d time tuple none h = ground arith
syn_retransmit-Acked c d time tuple (some s) h = ground arith

closed_ack-Acked :
    (c : Connection) (tuple : FourTuple)
    → Acked c (ensure_closed_ack c tuple).1 (ensure_closed_ack c tuple).0
unfolding ensure_closed_ack
closed_ack-Acked c tuple = elim (Bool-cases (c.recv.acked == c.recv.next)) [
  | inl all ↦ rw all refl
  | inr some_left ↦ rw some_left (ground arith)
]

time_wait_parts :
    (c : Connection) (time : Instant) (tuple : FourTuple)
    → ((ensure_time_wait c time tuple).0.segment ≡ (ensure_closed_ack c tuple).0)
      × ((ensure_time_wait c time tuple).1 ≡ (ensure_closed_ack c tuple).1)
unfolding ensure_time_wait
time_wait_parts c time tuple = (ground arith, ground arith)

Acked-in :
    (s : State) (c d : Connection) (available : AvailableBytes) (time : Instant) (tuple : FourTuple)
    (out : OutSignals)
    → send_in s c available time tuple ≡ returns (out, d)
    → Acked c d out.segment
unfolding send_in
Acked-in established c d available time tuple out h =
    signalled-Acked c d _ out (select-Acked c d available time tuple) h
Acked-in close_wait c d available time tuple out h =
    signalled-Acked c d _ out (select-Acked c d available time tuple) h
Acked-in syn_sent c d available time tuple out h =
    signalled-Acked c d _ out (syn_retransmit-Acked c d time tuple) h
Acked-in syn_received c d available time tuple out h =
    signalled-Acked c d _ out (syn_retransmit-Acked c d time tuple) h
Acked-in closed c d available time tuple out h =
    signalled-Acked c d _ out (λ s e. pair_returned c d _ s e (closed_ack-Acked c tuple)) h
Acked-in time_wait c d available time tuple out h =
    let (same_segment, same_state) = time_wait_parts c time tuple in
    let e : (ensure_closed_ack c tuple).0 ≡ out.segment = cc in
    let e' : (ensure_closed_ack c tuple).1 ≡ d = cc in
    subst (λ x. Acked c x out.segment) e' (subst (Acked c _) e (closed_ack-Acked c tuple))
Acked-in listen c d available time tuple out h = ground arith
Acked-in _ c d available time tuple out h = send_closing-Acked c d available time tuple out h

-- Every segment that a connection transmits, in any state, acknowledges exactly what was received so
-- far, records that and turns the delayed-acknowledgement timer off, or it acknowledges nothing; then,
-- and where no segment is sent, nothing that is recorded of the receiving side changes.
pub next_send_segment-Acked :
    (c d : Connection) (available : AvailableBytes) (time : Instant) (tuple : FourTuple)
    (out : OutSignals)
    → next_send_segment c available time tuple ≡ returns (out, d)
    → Acked c d out.segment
unfolding next_send_segment
next_send_segment-Acked c d available time tuple out h =
    Acked-in c.current c d available time tuple out h
