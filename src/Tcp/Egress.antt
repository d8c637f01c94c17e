-- ===== src/Tcp/Egress.antt =====
-- The transmission side of ethox/src/layer/tcp/connection.rs: which segment to send next.
pub mod Bounds
pub mod Acked
pub mod Closing
pub mod Progress
pub mod Due
use ethox.Base.{
  ℕ, ◌+◌, ◌-◌, ◌%◌, ◌^◌, min, true, false, ◌&&◌, ◌||◌, Option, some, none, Outcome, returns, panics,
  ensure, ◌>>=◌, ◌>>◌, ltb, leb, ◌==◌, if◌then◌else◌, u32_max,
}
use ethox.Time.{Instant, after, at, expiration_ge, instant_lt, instant_le, instant_max}
use ethox.Wire.Seq
use ethox.Wire.Flags
use ethox.Wire.Flags.{fin_flag, from_bool}
use ethox.Tcp.Types.{
  Connection, State, closed, listen, syn_sent, syn_received, established, fin_wait, closing,
  time_wait, close_wait, last_ack, AvailableBytes, Segment, OutSignals, FourTuple,
}
use ethox.Tcp.Segments.{out_none, out_segment}
use ethox.Tcp.Window.{send_window, in_flight}
use ethox.Tcp.Acks.{
  change_state, should_ack, rearm_ack_timer, rearm_retransmission_timer, restart_window,
  repr_ack_all, segment_ack_all, send_open,
}

-- What a selection returns: perhaps a segment, and the new connection.
abbrev pub Selected : Type 0
Selected = Outcome (Option Segment × Connection)

-- `u32::try_from(available.total).ok().unwrap_or_else(u32::max_value)`
abbrev pub byte_window : AvailableBytes → ℕ
byte_window available = min available.total u32_max

-- `segment_retransmit` behind its first early return.
unfoldable pub retransmit_some :
    Connection → AvailableBytes → FourTuple → Option Segment × Connection
unfolding send_window repr_ack_all Flags.set_fin
retransmit_some c available tuple =
    let to_send =
      min (min (send_window c.send) c.sender_maximum_segment_size) (byte_window available) in
    if to_send == 0
    then (none, c)
    else (let is_fin = available.fin && to_send == available.total in
        let (repr, c') = repr_ack_all c tuple in
        (
          some (record {
            repr = record repr {
              flags = Flags.set_fin is_fin repr.flags;
              seq_number = c.send.unacked;
              payload_len = to_send % 2 ^ 16;
            };
            range_start = 0;
            range_end = to_send;
          }),
          c',
        ))

unfoldable pub segment_retransmit : Connection → AvailableBytes → FourTuple → Selected
segment_retransmit c available tuple = do
  flight ← in_flight c.send
  returns (if flight == 0 then (none, c) else retransmit_some c available tuple)

unfoldable pub fast_retransmit : Connection → AvailableBytes → FourTuple → Selected
fast_retransmit c available tuple = segment_retransmit c available tuple

unfoldable pub timeout_retransmit : Connection → AvailableBytes → Instant → FourTuple → Selected
unfolding rearm_retransmission_timer
timeout_retransmit c available time tuple =
    segment_retransmit (rearm_retransmission_timer c time) available tuple

-- The state after our FIN is sent.
abbrev pub after_fin : Connection → Connection
after_fin c = elim c.current [
  | established ↦ change_state c fin_wait
  | close_wait ↦ change_state c last_ack
  | _ ↦ c
]

-- One new segment, from byte `sent` of the buffer on.
unfoldable pub send_new : Connection → AvailableBytes → FourTuple → ℕ → ℕ → Selected
unfolding change_state repr_ack_all Seq.add
send_new c available tuple sent max_sent = do
  let end = min (min (sent + c.sender_maximum_segment_size) u32_max) max_sent
  let len = end - sent
  ensure (ltb 0 len)
  let is_fin = available.fin && end == available.total
  let (repr, c') = repr_ack_all (if is_fin then after_fin c else c) tuple
  data_end ← Seq.add c'.send.next len
  next ← Seq.add data_end (from_bool is_fin)
  returns (
    some (record {
      repr = record repr {
        payload_len = len % 2 ^ 16;
        flags = if is_fin then fin_flag else repr.flags;
      };
      range_start = sent;
      range_end = end;
    }),
    record c' { send = record (c'.send) { next = next } },
  )

unfoldable pub ack_if_due : Connection → Instant → FourTuple → Option Segment × Connection
unfolding should_ack expiration_ge rearm_ack_timer segment_ack_all
ack_if_due c time tuple =
    if should_ack c || expiration_ge (at time) c.ack_timer
    then (let (segment, c') = segment_ack_all (rearm_ack_timer c time) tuple in (some segment, c'))
    else (none, c)

-- `select_send_segment` behind the retransmissions.
unfoldable pub send_or_ack : Connection → AvailableBytes → Instant → FourTuple → Selected
unfolding send_window
send_or_ack c available time tuple = do
  let window = send_window c.send
  sent ← in_flight c.send
  let max_sent = min window (byte_window available)
  if ltb sent max_sent
      then send_new c available tuple sent max_sent
      else returns (ack_if_due c time tuple)

-- The restart after idle time.
unfoldable pub restart_if_idle : Connection → Instant → Connection
unfolding after restart_window
restart_if_idle c time =
    let last_time = instant_max c.recv.last_time c.send.last_time in
    if instant_lt (after last_time c.restart_timeout) time
    then record c {
      flow_control = record (c.flow_control) { congestion_window = restart_window c };
    }
    else c

unfoldable pub select_send_segment : Connection → AvailableBytes → Instant → FourTuple → Selected
select_send_segment c available time tuple =
    let c' = restart_if_idle c time in
    if leb 2 c'.duplicate_ack
    then fast_retransmit c' available tuple
    else if instant_lt c'.retransmission_timer time
    then timeout_retransmit c' available time tuple
    else send_or_ack c' available time tuple

-- The flag of the SYN, `unreachable!()` in the states that do not call it.
unfoldable pub select_syn_retransmit : Connection → Instant → FourTuple → Selected
unfolding rearm_retransmission_timer send_open
select_syn_retransmit c time tuple =
    if instant_lt time c.retransmission_timer then returns (none, c) else (do
      ack ← elim c.current [ syn_received ↦ returns true | syn_sent ↦ returns false | _ ↦ panics ]
      let (repr, c') = send_open (rearm_retransmission_timer c time) ack tuple
      returns (some (record { repr = repr; range_start = 0; range_end = 0 }), c'))

unfoldable pub ensure_closed_ack : Connection → FourTuple → Option Segment × Connection
unfolding segment_ack_all
ensure_closed_ack c tuple =
    if c.recv.acked == c.recv.next
    then (none, c)
    else (let (segment, c') = segment_ack_all c tuple in (some segment, c'))

unfoldable pub ensure_time_wait : Connection → Instant → FourTuple → OutSignals × Connection
unfolding ensure_closed_ack
ensure_time_wait c time tuple =
    let (segment, c') = ensure_closed_ack c tuple in
    elim segment [
      | some s ↦ (out_segment s, c')
      | none ↦ (record { delete = instant_le c'.retransmission_timer time; segment = none }, c')
    ]

-- `.map(OutSignals::segment).unwrap_or_else(OutSignals::none)`
abbrev pub to_signals : Option Segment → OutSignals
to_signals none = out_none
to_signals (some s) = out_segment s

abbrev pub signalled : Selected → Outcome (OutSignals × Connection)
signalled m = do (segment, c) ← m; returns (to_signals segment, c)

-- After our FIN no new data is sent: what is offered is cut to what is in flight.
unfoldable pub send_closing :
    Connection → AvailableBytes → Instant → FourTuple → Outcome (OutSignals × Connection)
unfolding Seq.sub
send_closing c available time tuple = do
  flight ← Seq.sub c.send.next c.send.unacked
  signalled
      (select_send_segment c (record available { total = min available.total flight }) time tuple)

-- The `match self.current` of `next_send_segment`.
unfoldable pub send_in :
    State → Connection → AvailableBytes → Instant → FourTuple → Outcome (OutSignals × Connection)
send_in established c available time tuple = signalled (select_send_segment c available time tuple)
send_in close_wait c available time tuple = signalled (select_send_segment c available time tuple)
send_in fin_wait c available time tuple = send_closing c available time tuple
send_in closing c available time tuple = send_closing c available time tuple
send_in last_ack c available time tuple = send_closing c available time tuple
send_in closed c available time tuple = signalled (returns (ensure_closed_ack c tuple))
send_in time_wait c available time tuple = returns (ensure_time_wait c time tuple)
send_in syn_sent c available time tuple = signalled (select_syn_retransmit c time tuple)
send_in syn_received c available time tuple = signalled (select_syn_retransmit c time tuple)
send_in listen c available time tuple = returns (out_none, c)

unfoldable pub next_send_segment :
    Connection → AvailableBytes → Instant → FourTuple → Outcome (OutSignals × Connection)
unfolding send_in
next_send_segment c available time tuple = send_in c.current c available time tuple
