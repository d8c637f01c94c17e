-- ===== src/Tcp/Machine/Diagram/In.antt =====
-- The calls that open a connection, or hand it a segment or data that was read, follow the diagram.
use ethox.Base.{◌≡◌, refl, Bool, true, some, returns, arith, >>=-eq-returns, Option-cases, inl, inr}
use ethox.Time.{Instant}
use ethox.Wire.Seq.{SeqNumber}
use ethox.Wire.Repr.{Repr}
use ethox.Tcp.Types.{
  State, closed, listen, syn_sent, syn_received, established, fin_wait, closing, Connection,
  ReceivedSegment, Signals, InPacket, FourTuple, EntryKey, AckUpdate, duplicate, updated, unsent,
}
use ethox.Tcp.Segments.{sequence_end}
use ethox.Tcp.Window.{incoming_ack}
use ethox.Tcp.Acks.{change_state, received_end, set_recv_ack}
use ethox.Tcp.Opening.{
  open_connection, arrives_listen, accept_syn, arrives_syn_sent, syn_sent_control, syn_answered,
}
use ethox.Tcp.Ingress.{
  apply_ack, received, receive_data, acknowledged, handle_ack, in_window_segment,
  arrives_established, arrives,
}
use ethox.Tcp.Machine.Diagram.{follows, follows_self}

received_end-follows :
    (s : State) (c d : Connection) (meta : ReceivedSegment) (all : Bool)
    → c.current ≡ s
    → received_end s c meta all ≡ returns d
    → follows s d.current ≡ true
unfolding received_end change_state follows
received_end-follows established c d meta all e h = ground arith
received_end-follows syn_received c d meta all e h = ground arith
received_end-follows fin_wait c d meta all e h = ground arith
received_end-follows closing c d meta all e h = ground arith
received_end-follows s c d meta all e h = follows_self s d.current (ground arith)

pub set_recv_ack-follows :
    (c d : Connection) (meta : ReceivedSegment)
    → set_recv_ack c meta ≡ returns d
    → follows c.current d.current ≡ true
unfolding set_recv_ack
set_recv_ack-follows c d meta h =
    let (end, he, h₁) = >>=-eq-returns (sequence_end meta) _ h in
    let (c', hc, h₂) = >>=-eq-returns (received_end c.current c meta _) _ h₁ in
    ground (arith, received_end-follows c.current c c' meta _ refl hc)

receive_data-follows :
    (c d : Connection) (incoming : InPacket) (signals : Signals)
    → receive_data c incoming ≡ returns (signals, d)
    → follows c.current d.current ≡ true
unfolding receive_data
receive_data-follows c d incoming signals h =
    ground (arith, set_recv_ack-follows c d (received incoming), follows_self c.current d.current)

apply_ack-current :
    (u : AckUpdate) (c : Connection) (segment : Repr) → (apply_ack u c segment).current ≡ c.current
unfolding apply_ack
apply_ack-current duplicate c segment = refl
apply_ack-current (updated n) c segment = ground arith
apply_ack-current _ c segment = refl

acknowledged-follows :
    (u : AckUpdate) (c d : Connection) (incoming : InPacket) (four : FourTuple) (signals : Signals)
    → acknowledged u c incoming four ≡ returns (signals, d)
    → follows c.current d.current ≡ true
unfolding acknowledged
acknowledged-follows unsent c d incoming four signals h =
    follows_self c.current d.current (ground arith)
acknowledged-follows u c d incoming four signals h = ground (
  arith,
  receive_data-follows (apply_ack u c incoming.segment) d incoming signals h,
  apply_ack-current u c incoming.segment,
)

handle_ack-follows :
    (c d : Connection) (incoming : InPacket) (four : FourTuple) (ack : SeqNumber)
    (signals : Signals)
    → handle_ack c incoming four ack ≡ returns (signals, d)
    → follows c.current d.current ≡ true
unfolding handle_ack
handle_ack-follows c d incoming four ack signals h =
    let (r, e, rest) = >>=-eq-returns (incoming_ack c.send ack) _ h in
    acknowledged-follows r.0 (record c { send = r.1 }) d incoming four signals rest

in_window_segment-follows :
    (c d : Connection) (incoming : InPacket) (four : FourTuple) (signals : Signals)
    → follows c.current closed ≡ true
    → in_window_segment c incoming four ≡ returns (signals, d)
    → follows c.current d.current ≡ true
unfolding in_window_segment change_state
in_window_segment-follows c d incoming four signals v h =
    elim (Option-cases incoming.segment.ack_number) [
      | inl absent ↦ ground (arith, follows_self c.current d.current)
      | inr (ack, there) ↦ ground (arith, handle_ack-follows c d incoming four ack signals)
    ]

arrives_established-follows :
    (c d : Connection) (incoming : InPacket) (four : FourTuple) (signals : Signals)
    → follows c.current closed ≡ true
    → arrives_established c incoming four ≡ returns (signals, d)
    → follows c.current d.current ≡ true
unfolding arrives_established change_state
arrives_established-follows c d incoming four signals v h =
    ground (
      arith,
      in_window_segment-follows c d incoming four signals v,
      follows_self c.current d.current,
    )

arrives_listen-current :
    (c d : Connection) (incoming : InPacket) (entry entry' : EntryKey) (signals : Signals)
    → arrives_listen c incoming entry ≡ returns (signals, d, entry')
    → d.current ≡ c.current
unfolding arrives_listen accept_syn
arrives_listen-current c d incoming entry entry' signals h = ground arith

arrives_syn_sent-follows :
    (c d : Connection) (incoming : InPacket) (four : FourTuple) (signals : Signals)
    → c.current ≡ syn_sent
    → arrives_syn_sent c incoming four ≡ returns (signals, d)
    → follows syn_sent d.current ≡ true
unfolding arrives_syn_sent syn_sent_control syn_answered change_state follows
arrives_syn_sent-follows c d incoming four signals e h = ground arith

arrives_at-follows :
    (s : State) (c d : Connection) (incoming : InPacket) (entry entry' : EntryKey)
    (signals : Signals)
    → c.current ≡ s
    → arrives c incoming entry ≡ returns (signals, d, entry')
    → follows s d.current ≡ true
unfolding arrives
arrives_at-follows closed c d incoming entry entry' signals e h =
    follows_self closed d.current (ground arith)
arrives_at-follows listen c d incoming entry entry' signals e h =
    follows_self listen d.current
      (ground (arith, arrives_listen-current c d incoming entry entry' signals))
arrives_at-follows syn_sent c d incoming entry entry' signals e h =
    ground (arith, arrives_syn_sent-follows c d incoming entry.key_in_slot signals e)
arrives_at-follows established c d incoming entry entry' signals e h =
    unfold follows in
    ground (arith, arrives_established-follows c d incoming entry.key_in_slot signals)
arrives_at-follows fin_wait c d incoming entry entry' signals e h =
    unfold follows in
    ground (arith, arrives_established-follows c d incoming entry.key_in_slot signals)
arrives_at-follows _ c d incoming entry entry' signals e h = ground arith

pub open_connection-follows :
    (c d : Connection) (time : Instant) (entry : EntryKey)
    → open_connection c time entry ≡ returns (some d)
    → follows c.current d.current ≡ true
unfolding open_connection change_state follows
open_connection-follows c d time entry h = ground arith

pub arrives-follows :
    (c d : Connection) (incoming : InPacket) (entry entry' : EntryKey) (signals : Signals)
    → arrives c incoming entry ≡ returns (signals, d, entry')
    → follows c.current d.current ≡ true
arrives-follows c d incoming entry entry' signals h =
    arrives_at-follows c.current c d incoming entry entry' signals refl h
