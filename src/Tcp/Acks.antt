-- ===== src/Tcp/Acks.antt =====
-- Shared steps of the state machine in ethox/src/layer/tcp/connection.rs: acknowledging what was
-- received, timers, and the congestion window.
use ethox.Base.{
  ℕ, ◌+◌, ◌*◌, min, Bool, false, Option, some, none, Outcome, returns, ◌>>=◌, ltb, leb, ◌==◌,
  if◌then◌else◌, u32_max,
}
use ethox.Time.{Instant, after, mul_duration, at, never, expiration_min}
use ethox.Wire.Seq
use ethox.Wire.Seq.{SeqNumber}
use ethox.Wire.Flags.{none_set, syn_flag}
use ethox.Wire.Repr.{Repr, SackRanges}
use ethox.Tcp.Types.{
  Connection, State, syn_sent, syn_received, established, fin_wait, closing, time_wait, close_wait,
  last_ack, ReceivedSegment, Segment, FourTuple,
}
use ethox.Tcp.Segments.{send_to, sequence_end}

abbrev pub no_sacks : SackRanges
no_sacks = record { first = none; second = none; third = none }

unfoldable pub change_state : Connection → State → Connection
change_state c new = record c { previous = c.current; current = new }

-- Returns the acknowledged number.
unfoldable pub ack_all : Connection → SeqNumber × Connection
ack_all c =
    (c.recv.next, record c { recv = record c.recv { acked = c.recv.next }; ack_timer = never })

unfoldable pub should_ack : Connection → Bool
unfolding Seq.lt
should_ack c = Seq.lt c.recv.acked c.recv.next

unfoldable pub rearm_ack_timer : Connection → Instant → Connection
unfolding after
rearm_ack_timer c time = record c {
  ack_timer = elim c.ack_timer [ at _ ↦ at (after time c.ack_timeout) | never ↦ never ];
}

unfoldable pub rearm_retransmission_timer : Connection → Instant → Connection
unfolding after
rearm_retransmission_timer c time = record c {
  retransmission_timer = after time c.retransmission_timeout;
}

unfoldable pub restart_window : Connection → ℕ
restart_window c = min c.flow_control.congestion_window c.send.window

unfoldable pub repr_ack_all : Connection → FourTuple → Repr × Connection
unfolding ack_all send_to
repr_ack_all c remote =
    let (ack, c') = ack_all c in
    (
      send_to
          (record {
            flags = none_set;
            seq_number = c.send.next;
            ack_number = some ack;
            window_len = c.recv.window;
            window_scale = none;
            max_seg_size = none;
            sack_permitted = false;
            sack_ranges = no_sacks;
            payload_len = 0;
          })
          remote,
      c',
    )

unfoldable pub segment_ack_all : Connection → FourTuple → Segment × Connection
unfolding repr_ack_all
segment_ack_all c remote =
    let (repr, c') = repr_ack_all c remote in
    (record { repr = repr; range_start = 0; range_end = 0 }, c')

syn_segment : Connection → Option SeqNumber → FourTuple → Repr
unfolding send_to
syn_segment c ack_number to =
    send_to
      (record {
        flags = syn_flag;
        seq_number = c.send.initial_seq;
        ack_number = ack_number;
        window_len = 0;
        window_scale = some c.send.window_scale;
        max_seg_size = none;
        sack_permitted = false;
        sack_ranges = no_sacks;
        payload_len = 0;
      })
      to

unfoldable pub send_open : Connection → Bool → FourTuple → Repr × Connection
unfolding ack_all syn_segment
send_open c ack to =
    let (number, acked) = ack_all c in
    if ack then (syn_segment c (some number) to, acked) else (syn_segment c none to, c)

unfoldable pub window_update : Connection → ℕ → Connection
window_update c new_bytes =
    if ltb 0 c.duplicate_ack
    then widen flow.ssthresh
    else if leb flow.congestion_window flow.ssthresh
    then widen (min (flow.congestion_window * 2) u32_max)
    else widen (min (flow.congestion_window + min c.sender_maximum_segment_size new_bytes) u32_max)
  where
    open c use {flow_control as flow}

    widen : ℕ → Connection
    widen w = record c { flow_control = record flow { congestion_window = w } }

-- The `match (self.current, meta.fin, acked_all)` of `set_recv_ack`.
unfoldable pub received_end : State → Connection → ReceivedSegment → Bool → Outcome Connection
unfolding change_state after mul_duration
received_end established c meta acked_all =
    returns (if meta.fin then change_state c close_wait else c)
received_end syn_received c meta acked_all =
    returns (if meta.fin then change_state c close_wait else c)
received_end fin_wait c meta acked_all =
    if meta.fin
    then if acked_all
      then (do
        linger ← mul_duration 2 c.retransmission_timeout
        returns (record (change_state c time_wait) {
          retransmission_timer = after meta.timestamp linger;
        }))
      else returns (change_state c closing)
    else returns c
received_end closing c meta acked_all =
    if acked_all
    then (do
      linger ← mul_duration 2 c.retransmission_timeout
      returns (record (change_state c time_wait) {
        retransmission_timer = after meta.timestamp linger;
      }))
    else returns c
received_end _ c meta acked_all = returns c

unfoldable pub set_recv_ack : Connection → ReceivedSegment → Outcome Connection
unfolding sequence_end after expiration_min
set_recv_ack c meta = do
  end ← sequence_end meta
  c' ← received_end c.current c meta (c.send.next == c.send.unacked)
  returns (record c' {
    recv = record (c'.recv) { next = end };
    ack_timer = expiration_min c'.ack_timer (at (after meta.timestamp c'.ack_timeout));
  })

-- In the closing states a FIN that has been acknowledged is not counted.
unfoldable pub without_fin : Connection → Outcome SeqNumber
unfolding Seq.sub_size
without_fin c =
    if c.send.unacked == c.send.next then Seq.sub_size c.send.unacked 1 else returns c.send.unacked

unfoldable pub get_send_ack : Connection → Outcome SeqNumber
unfolding Seq.add without_fin
get_send_ack c = elim c.current [
  | syn_sent ↦ Seq.add c.send.unacked 1
  | fin_wait ↦ without_fin c
  | closing ↦ without_fin c
  | time_wait ↦ without_fin c
  | last_ack ↦ without_fin c
  | _ ↦ returns c.send.unacked
]
