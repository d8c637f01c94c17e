-- ===== src/Tcp/Opening.antt =====
-- How a connection opens and is reset in ethox/src/layer/tcp/connection.rs: the active open, the
-- handlers of a segment that arrives in a state before the handshake is done, and the reset signals.
-- A handler returns its signals, the new connection, and the new entry where it changes that.
pub mod Answers
use ethox.Base.{
  ℕ, max, Bool, true, false, not, ◌||◌, Option, some, none, Outcome, returns, ◌>>=◌, ◌==◌,
  if◌then◌else◌, is_some,
}
use mathlib.Core.Option.{get_or}
use ethox.Time.{Instant, at}
use ethox.Wire.Seq
use ethox.Wire.Seq.{SeqNumber}
use ethox.Wire.Flags
use ethox.Wire.Flags.{rst_flag}
use ethox.Wire.Repr
use ethox.Wire.Repr.{Repr}
use ethox.Tcp.Types.{
  Connection, closed, listen, syn_sent, syn_received, established, Signals, no_signals, InPacket,
  InnerRepr, FourTuple, EntryKey,
}
use ethox.Tcp.Segments.{send_back, send_to, initial_seq_num, set_four_tuple}
use ethox.Tcp.Acks.{no_sacks, change_state, ack_all, repr_ack_all, send_open}

-- A header with RST and nothing else, as five of the handlers write it out.
abbrev pub reset_repr : SeqNumber → Option SeqNumber → ℕ → InnerRepr
reset_repr seq ack window = record {
  flags = rst_flag;
  seq_number = seq;
  ack_number = ack;
  window_len = window;
  window_scale = none;
  max_seg_size = none;
  sack_permitted = false;
  sack_ranges = no_sacks;
  payload_len = 0;
}

abbrev pub answer_with : Repr → Signals
answer_with r = record no_signals { answer = some r }

-- The connection's methods that only build signals and change the connection.
unfoldable pub remote_reset_connection : Connection → Signals × Connection
unfolding change_state
remote_reset_connection c =
    (record no_signals { reset = true; delete = true }, change_state c closed)

unfoldable pub signal_reset_connection : Connection → FourTuple → Signals × Connection
unfolding change_state ack_all send_to
signal_reset_connection c four =
    let (ack, c') = ack_all (change_state c closed) in
    (
      record no_signals {
        reset = true;
        delete = true;
        answer = some (send_to (reset_repr c.send.next (some ack) 0) four);
      },
      c',
    )

unfoldable pub signal_ack_all : Connection → FourTuple → Signals × Connection
unfolding repr_ack_all
signal_ack_all c remote = let (repr, c') = repr_ack_all c remote in (answer_with repr, c')

-- `open`; `none` is `Err(Error::Illegal)`.
unfoldable pub open_connection : Connection → Instant → EntryKey → Outcome (Option Connection)
unfolding change_state initial_seq_num Seq.add
open_connection c time entry = elim c.current [
  | closed ↦ opened
  | listen ↦ opened
  | _ ↦ returns none
]
  where
    opened : Outcome (Option Connection)
    opened = do
      let isn = initial_seq_num entry time
      next ← Seq.add isn 1
      returns (
          some (record (change_state c syn_sent) {
            send = record (c.send) { initial_seq = isn; unacked = isn; next = next };
            retransmission_timer = time;
          }))

unfoldable pub arrives_closed : Repr → Outcome Signals
unfolding Flags.rst send_back Repr.sequence_len Seq.add
arrives_closed segment =
    if Flags.rst segment.flags then returns no_signals else elim segment.ack_number [
      | some ack ↦ returns (answer_with (send_back (reset_repr ack none 0) segment))
      | none ↦ do
        end ← Seq.add segment.seq_number (Repr.sequence_len segment)
        returns (answer_with (send_back (reset_repr 0 (some end) 0) segment))
    ]

-- The part of `arrives_listen` behind its guards.
unfoldable pub accept_syn :
    Connection → InPacket → EntryKey → Outcome (Signals × Connection × EntryKey)
unfolding set_four_tuple initial_seq_num Seq.add ack_all send_to
accept_syn c incoming entry = do
  let segment = incoming.segment
  let new_four : FourTuple = record (entry.key_in_slot) { remote = incoming.from }
  let entry' = set_four_tuple entry new_four
  recv_next ← Seq.add segment.seq_number 1
  let isn = initial_seq_num entry' incoming.time
  send_next ← Seq.add isn 1
  let c' : Connection = record c {
    recv = record (c.recv) { next = recv_next; initial_seq = segment.seq_number };
    send = record (c.send) { next = send_next; unacked = isn; initial_seq = isn };
  }
  let (ack, c'') = ack_all c'
  returns (answer_with (send_to (reset_repr isn (some ack) c''.recv.window) new_four), c'', entry')

unfoldable pub arrives_listen :
    Connection → InPacket → EntryKey → Outcome (Signals × Connection × EntryKey)
unfolding Flags.rst Flags.syn send_back
arrives_listen c incoming entry =
    let segment = incoming.segment in
    if Flags.rst segment.flags then returns (no_signals, c, entry) else elim segment.ack_number [
      | some ack ↦ returns (answer_with (send_back (reset_repr ack none 0) segment), c, entry)
      | none ↦
          if not (Flags.syn segment.flags)
          then returns (no_signals, c, entry)
          else accept_syn c incoming entry
    ]

-- Whether an acknowledgement lies outside what the SYN may be answered with.
unfoldable pub bad_syn_ack : Connection → SeqNumber → Bool
unfolding Seq.le Seq.gt
bad_syn_ack c ack = Seq.le ack c.send.initial_seq || Seq.gt ack c.send.next

-- The answer to a SYN behind the guards of `arrives_syn_sent`.
unfoldable pub syn_answered : Connection → InPacket → FourTuple → Outcome (Signals × Connection)
unfolding Seq.add change_state send_open
syn_answered c incoming four = do
  let segment = incoming.segment
  next ← Seq.add segment.seq_number 1
  let mss = max (get_or segment.max_seg_size 536) 536
  let c' : Connection = record c {
    recv = record (c.recv) { initial_seq = segment.seq_number; next = next };
    send = record (c.send) {
      window = segment.window_len;
      window_scale = get_or segment.window_scale 0;
      unacked = get_or segment.ack_number c.send.unacked;
    };
    sender_maximum_segment_size = mss;
    receiver_maximum_segment_size = mss;
  }
  if c'.send.unacked == c'.send.initial_seq
      then (let (repr, c'') = send_open (change_state c' syn_received) true four in
          returns (answer_with repr, c''))
      else returns
          (no_signals, record (change_state c' established) { ack_timer = at incoming.time })

-- A segment with RST, SYN or neither, whose acknowledgement is absent or in range.
unfoldable pub syn_sent_control : Connection → InPacket → FourTuple → Outcome (Signals × Connection)
unfolding Flags.rst Flags.syn remote_reset_connection
syn_sent_control c incoming four =
    let segment = incoming.segment in
    if Flags.rst segment.flags
    then (if is_some segment.ack_number
        then returns (remote_reset_connection c)
        else returns (no_signals, c))
    else if not (Flags.syn segment.flags)
    then returns (no_signals, c)
    else syn_answered c incoming four

unfoldable pub arrives_syn_sent : Connection → InPacket → FourTuple → Outcome (Signals × Connection)
unfolding bad_syn_ack Flags.rst send_back
arrives_syn_sent c incoming four =
    let segment = incoming.segment in
    elim segment.ack_number [
      | none ↦ syn_sent_control c incoming four
      | some ack ↦
          if not (bad_syn_ack c ack)
          then syn_sent_control c incoming four
          else if Flags.rst segment.flags
          then returns (no_signals, c)
          else returns
              (answer_with (send_back (reset_repr ack (some segment.seq_number) 0) segment), c)
    ]
