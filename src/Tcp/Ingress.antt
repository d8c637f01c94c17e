-- ===== src/Tcp/Ingress.antt =====
-- The handler of a segment on an open connection in ethox/src/layer/tcp/connection.rs, and the
-- dispatch on the state, `Connection::arrives`.
pub mod Resets
pub mod Data
use ethox.Base.{
  ◌+◌, min, Bool, true, false, some, none, Outcome, returns, panics, ◌>>=◌, ltb, ◌==◌,
  if◌then◌else◌, u8_max,
}
use ethox.Wire.Seq
use ethox.Wire.Seq.{SeqNumber}
use ethox.Wire.Flags
use ethox.Wire.Repr.{Repr}
use ethox.Tcp.Types.{
  Connection, closed, listen, syn_sent, established, fin_wait, Signals, no_signals, InPacket,
  ReceivedSegment, FourTuple, EntryKey, AckUpdate, duplicate, updated, unsent,
}
use ethox.Tcp.Window.{in_window, incoming_ack}
use ethox.Tcp.Acks.{window_update, set_recv_ack}
use ethox.Tcp.Opening.{
  arrives_closed, arrives_listen, arrives_syn_sent, remote_reset_connection,
  signal_reset_connection, signal_ack_all,
}

-- The last test is made, and its arithmetic done, only if the first fails.
unfoldable pub ingress_acceptable : Connection → Repr → Outcome Bool
unfolding in_window Seq.add Seq.sub_size
ingress_acceptable c repr =
    if repr.payload_len == 0
    then (if c.recv.window == 0
        then returns (repr.seq_number == c.recv.next)
        else in_window c.recv repr.seq_number)
    else if c.recv.window == 0
    then returns false
    else (do
      first ← in_window c.recv repr.seq_number
      if first then returns true else (do
        end ← Seq.add repr.seq_number repr.payload_len
        last ← Seq.sub_size end 1
        in_window c.recv last))

-- The `match` on the update, but for the early return at `unsent`.
unfoldable pub apply_ack : AckUpdate → Connection → Repr → Connection
unfolding window_update
apply_ack duplicate c segment = record c { duplicate_ack = min (c.duplicate_ack + 1) u8_max }
apply_ack (updated new_bytes) c segment =
    let c' : Connection =
      if ltb 0 c.duplicate_ack
      then record c {
        flow_control = record (c.flow_control) { congestion_window = c.flow_control.ssthresh };
        duplicate_ack = 0;
      }
      else c in
    window_update (record c' { send = record (c'.send) { window = segment.window_len } }) new_bytes
apply_ack _ c segment = c

abbrev pub received : InPacket → ReceivedSegment
received incoming =
    let segment = incoming.segment in
    record {
      syn = Flags.syn segment.flags;
      fin = Flags.fin segment.flags;
      data_len = segment.payload_len;
      begin = segment.seq_number;
      timestamp = incoming.time;
    }

-- Data is only announced to the layer above, which acknowledges what it takes.
unfoldable pub receive_data : Connection → InPacket → Outcome (Signals × Connection)
unfolding Flags.syn Flags.fin
receive_data c incoming =
    if incoming.segment.payload_len == 0
    then (do c' ← set_recv_ack c (received incoming); returns (no_signals, c'))
    else returns (record no_signals { receive = some (received incoming) }, c)

-- The `match` on the update with its early return, and what follows it.
unfoldable pub acknowledged :
    AckUpdate → Connection → InPacket → FourTuple → Outcome (Signals × Connection)
unfolding signal_ack_all
acknowledged unsent c incoming four = returns (signal_ack_all c four)
acknowledged update c incoming four = receive_data (apply_ack update c incoming.segment) incoming

unfoldable pub handle_ack :
    Connection → InPacket → FourTuple → SeqNumber → Outcome (Signals × Connection)
handle_ack c incoming four ack = do
  (update, send) ← incoming_ack c.send ack
  acknowledged update (record c { send = send }) incoming four

-- The part of `arrives_established` behind the test of the sequence number.
unfoldable pub in_window_segment :
    Connection → InPacket → FourTuple → Outcome (Signals × Connection)
unfolding Flags.syn signal_reset_connection
in_window_segment c incoming four =
    if Flags.syn incoming.segment.flags
    then returns (signal_reset_connection c four)
    else elim incoming.segment.ack_number [
      | none ↦ returns (no_signals, c)
      | some ack ↦ handle_ack c incoming four ack
    ]

unfoldable pub arrives_established :
    Connection → InPacket → FourTuple → Outcome (Signals × Connection)
unfolding Flags.rst remote_reset_connection signal_ack_all
arrives_established c incoming four = do
  acceptable ← ingress_acceptable c incoming.segment
  if acceptable
      then in_window_segment c incoming four
      else returns (
          if Flags.rst incoming.segment.flags
          then remote_reset_connection c
          else signal_ack_all c four)

-- `unimplemented!()` in the states that have no handler.
unfoldable pub arrives :
    Connection → InPacket → EntryKey → Outcome (Signals × Connection × EntryKey)
arrives c incoming entry = elim c.current [
  | closed ↦ do signals ← arrives_closed incoming.segment; returns (signals, c, entry)
  | listen ↦ arrives_listen c incoming entry
  | syn_sent ↦ do
    (signals, c') ← arrives_syn_sent c incoming entry.key_in_slot
    returns (signals, c', entry)
  | established ↦ do
    (signals, c') ← arrives_established c incoming entry.key_in_slot
    returns (signals, c', entry)
  | fin_wait ↦ do
    (signals, c') ← arrives_established c incoming entry.key_in_slot
    returns (signals, c', entry)
  | _ ↦ panics
]
