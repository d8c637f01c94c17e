-- ===== src/Tcp/Opening/Answers.antt =====
-- The answers to resets and to a SYN, and the handshake, in ethox/src/layer/tcp/connection.rs.
use ethox.Base.{
  ℕ, ◌+◌, ◌%◌, ◌^◌, ◌≡◌, ◌<◌, refl, max, true, false, some, none, returns, arith, Option, is_some,
  ◌||◌, not, if◌then◌else◌,
}
use mathlib.Core.Option.{get_or}
use ethox.Time.{Instant, at}
use ethox.Wire.Flags
use ethox.Wire.Repr.{Repr}
use ethox.Tcp.Types.{
  Connection, Signals, no_signals, InPacket, FourTuple, EntryKey, closed, syn_sent, established,
}
use ethox.Tcp.Opening.{
  arrives_closed, open_connection, bad_syn_ack, arrives_syn_sent, syn_sent_control, syn_answered,
}
use ethox.Tcp.Acks.{change_state}
use ethox.Tcp.Ingress.{arrives}
use ethox.Tcp.Machine.{IsWire, IsGenerator}

-- A closed connection never answers a reset, and its answer to anything else is one: whatever it
-- answers, another closed connection that receives the answer stays silent.
pub no_reset_loop :
    (segment answer : Repr) (signals : Signals)
    → arrives_closed segment ≡ returns signals
    → signals.answer ≡ some answer
    → (Flags.rst segment.flags ≡ false) × (arrives_closed answer ≡ returns no_signals)
unfolding arrives_closed
no_reset_loop segment answer signals h a = (ground arith, ground arith)

-- What a segment draws from a listening connection: no answer, or a reset.
abbrev pub IsAnswer : Repr → EntryKey → Option Repr → Type 0
IsAnswer segment entry none =
    (Flags.rst segment.flags || not (is_some segment.ack_number || Flags.syn segment.flags)) ≡ true
IsAnswer segment entry (some answer) =
    (Flags.rst segment.flags ≡ false)
    × ((is_some segment.ack_number || Flags.syn segment.flags) ≡ true)
    × (Flags.rst answer.flags ≡ true)
    × (Flags.syn answer.flags ≡ false)
    × (answer.dst_port
        ≡ (if is_some segment.ack_number then segment.src_port else entry.key_in_slot.remote_port))

-- The parts of a result of the handler of a listening connection.
abbrev pub StaysListening :
    Connection → InPacket → EntryKey → Signals × Connection × EntryKey → Type 0
StaysListening c incoming entry (signals, d, entry') =
    (d.current ≡ c.current)
    × (entry'.key_in_slot ≡ record (entry.key_in_slot) { remote = entry'.key_in_slot.remote })
    × IsAnswer incoming.segment entry signals.answer

-- The SYN that is looked for passes every guard of the handler.
syn_sent-accepts :
    (c : Connection) (incoming : InPacket) (four : FourTuple) (n : ℕ)
    → Flags.rst incoming.segment.flags ≡ false
    → Flags.syn incoming.segment.flags ≡ true
    → incoming.segment.ack_number ≡ some n
    → bad_syn_ack c n ≡ false
    → arrives_syn_sent c incoming four ≡ syn_answered c incoming four
unfolding arrives_syn_sent syn_sent_control
syn_sent-accepts c incoming four n r s a b = ground arith

next-IsGood :
    (c : Connection)
    → c.send.initial_seq < 2 ^ 32
    → c.send.next ≡ (c.send.initial_seq + 1) % 2 ^ 32
    → bad_syn_ack c c.send.next ≡ false
unfolding bad_syn_ack
next-IsGood c i e = ground arith

-- The active open. From a closed connection `open` sends the state to `SynSent`; when then a SYN
-- arrives that acknowledges ours, without RST, the connection is established, nothing is in flight,
-- the peer's SYN is taken and will be acknowledged at once, and the window, its scale (0 if absent) and
-- the size of the segments that are sent are the peer's, the last raised to 536 if it is absent or less.
pub handshake :
    (c : Connection) (time : Instant) (entry : EntryKey) (incoming : InPacket)
    → c.current ≡ closed
    → IsGenerator entry
    → IsWire incoming.segment
    → Flags.rst incoming.segment.flags ≡ false
    → Flags.syn incoming.segment.flags ≡ true
    → incoming.segment.ack_number ≡ some ((entry.get_isn entry.key_in_slot time + 1) % 2 ^ 32)
    → (c' d : Connection) × (open_connection c time entry ≡ returns (some c'))
      × (c'.current ≡ syn_sent)
      × (arrives c' incoming entry ≡ returns (no_signals, d, entry))
      × (d.current ≡ established)
      × (d.send.unacked ≡ d.send.next)
      × (d.send.next ≡ (entry.get_isn entry.key_in_slot time + 1) % 2 ^ 32)
      × (d.recv.next ≡ (incoming.segment.seq_number + 1) % 2 ^ 32)
      × (d.ack_timer ≡ at incoming.time)
      × (d.send.window ≡ incoming.segment.window_len)
      × (d.send.window_scale ≡ get_or incoming.segment.window_scale 0)
      × (d.sender_maximum_segment_size ≡ max (get_or incoming.segment.max_seg_size 536) 536)
unfolding open_connection change_state syn_answered arrives
handshake c time entry incoming e g w r s a = (
  opened,
  answered,
  ground (arith, g.isn_fits entry.key_in_slot time),
  refl,
  (rw (accepted, replied)),
  refl,
  refl,
  refl,
  refl,
  refl,
  refl,
  refl,
  refl,
)
  where
    isn : ℕ
    isn = entry.get_isn entry.key_in_slot time

    opened : Connection
    opened = record (change_state c syn_sent) {
      send = record (c.send) { initial_seq = isn; unacked = isn; next = (isn + 1) % 2 ^ 32 };
      retransmission_timer = time;
    }

    mss : ℕ
    mss = max (get_or incoming.segment.max_seg_size 536) 536

    answered : Connection
    answered = record (change_state opened established) {
      recv = record (c.recv) {
        initial_seq = incoming.segment.seq_number;
        next = (incoming.segment.seq_number + 1) % 2 ^ 32;
      };
      send = record (c.send) {
        window = incoming.segment.window_len;
        window_scale = get_or incoming.segment.window_scale 0;
        initial_seq = isn;
        unacked = (isn + 1) % 2 ^ 32;
        next = (isn + 1) % 2 ^ 32;
      };
      sender_maximum_segment_size = mss;
      receiver_maximum_segment_size = mss;
      ack_timer = at incoming.time;
    }

    accepted :
        arrives_syn_sent opened incoming entry.key_in_slot
        ≡ syn_answered opened incoming entry.key_in_slot
    accepted =
        syn_sent-accepts opened incoming entry.key_in_slot ((isn + 1) % 2 ^ 32) r s a
          (next-IsGood opened (g.isn_fits entry.key_in_slot time) refl)

    replied : syn_answered opened incoming entry.key_in_slot ≡ returns (no_signals, answered)
    replied = unfold syn_answered in ground (arith, g.isn_fits entry.key_in_slot time)
