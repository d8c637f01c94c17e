-- ===== src/Tcp/Machine/Total.antt =====
-- Which calls on a sound connection of ethox/src/layer/tcp/connection.rs can panic.
use ethox.Base.{
  ℕ, ◌*◌, ◌≡◌, ◌≢◌, refl, ◌<◌, ◌≤◌, ◌^◌, Outcome, returns, panics, arith, min, u16_max,
}
use ethox.Time.{Instant}
use ethox.Tcp.Types.{
  Connection, FourTuple, State, AvailableBytes, OutSignals, closed, listen, syn_sent, syn_received,
  established, time_wait, close_wait,
}
use ethox.Tcp.Window.{send_window}
use ethox.Tcp.Acks.{rearm_retransmission_timer}
use ethox.Tcp.Egress.{
  segment_retransmit, fast_retransmit, timeout_retransmit, send_new, send_or_ack, restart_if_idle,
  select_send_segment, select_syn_retransmit, send_closing, send_in, next_send_segment, byte_window,
  signalled, Selected,
}
use ethox.Tcp.Machine.{IsSound, flight}
use ethox.Tcp.Machine.Transmits.{in_flight_sound, send_window-le}

pub returns_of {ℓ} : {A : Type ℓ} (m : Outcome A) → m ≢ panics → (a : A) × (m ≡ returns a)
returns_of (returns a) h = (a, refl)
returns_of panics h = absurd (h refl)

pub send_new-total :
    (c : Connection) (available : AvailableBytes) (tuple : FourTuple) (max_sent : ℕ)
    → IsSound c
    → 0 < c.sender_maximum_segment_size
    → flight c.send < max_sent
    → max_sent ≤ u16_max * 2 ^ 14
    → send_new c available tuple (flight c.send) max_sent ≢ panics
unfolding send_new
send_new-total c available tuple max_sent v p l m = ground arith

send_or_ack-total :
    (c : Connection) (available : AvailableBytes) (time : Instant) (tuple : FourTuple)
    → IsSound c
    → 0 < c.sender_maximum_segment_size
    → send_or_ack c available time tuple ≢ panics
unfolding send_or_ack
send_or_ack-total c available time tuple v p = ground (
  arith,
  in_flight_sound c v,
  send_window-le c v,
  send_new-total c available tuple (min (send_window c.send) (byte_window available)) v p,
)

select-total :
    (c : Connection) (available : AvailableBytes) (time : Instant) (tuple : FourTuple)
    → IsSound c
    → 0 < c.sender_maximum_segment_size
    → select_send_segment c available time tuple ≢ panics
unfolding select_send_segment fast_retransmit timeout_retransmit segment_retransmit
select-total c available time tuple v p = ground (
  arith,
  in_flight_sound c' v',
  in_flight_sound (rearm_retransmission_timer c' time)
      (unfold rearm_retransmission_timer in ground (arith, v')),
  send_or_ack-total c' available time tuple v' p',
)
  where
    c' : Connection
    c' = restart_if_idle c time

    p' : 0 < c'.sender_maximum_segment_size
    p' = unfold restart_if_idle in ground arith

    v' : IsSound c'
    v' = unfold restart_if_idle in ground arith

signalled-total : (m : Selected) → m ≢ panics → signalled m ≢ panics
signalled-total (returns s) h = λ e. cc
signalled-total panics h = absurd (h refl)

send_closing-total :
    (c : Connection) (available : AvailableBytes) (time : Instant) (tuple : FourTuple)
    → IsSound c
    → 0 < c.sender_maximum_segment_size
    → send_closing c available time tuple ≢ panics
unfolding send_closing
send_closing-total c available time tuple v p =
    let offered : AvailableBytes = record available {
      total = min available.total (flight c.send);
    } in
    ground (
      arith,
      select-total c offered time tuple v p,
      signalled-total (select_send_segment c offered time tuple),
    )

send_in-total :
    (s : State) (c : Connection) (available : AvailableBytes) (time : Instant) (tuple : FourTuple)
    → c.current ≡ s
    → IsSound c
    → send_in s c available time tuple ≢ panics
unfolding send_in select_syn_retransmit
send_in-total syn_sent c available time tuple e v = ground arith
send_in-total syn_received c available time tuple e v = ground arith
send_in-total closed c available time tuple e v = ground arith
send_in-total time_wait c available time tuple e v = ground arith
send_in-total listen c available time tuple e v = ground arith
send_in-total established c available time tuple e v =
    signalled-total _ (select-total c available time tuple v (ground arith))
send_in-total close_wait c available time tuple e v =
    signalled-total _ (select-total c available time tuple v (ground arith))
send_in-total _ c available time tuple e v =
    send_closing-total c available time tuple v (ground arith)

-- On a sound connection the choice of the next segment returns in every state: no assertion, no
-- `unwrap` and no sequence number arithmetic in it panics.
pub next_send_segment_total :
    (c : Connection) (available : AvailableBytes) (time : Instant) (tuple : FourTuple)
    → IsSound c
    → (r : OutSignals × Connection) × (next_send_segment c available time tuple ≡ returns r)
unfolding next_send_segment
next_send_segment_total c available time tuple v =
    returns_of _ (send_in-total c.current c available time tuple refl v)
