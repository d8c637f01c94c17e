-- ===== src/Tcp/Machine/Receives.antt =====
-- The handler of an open connection, and the dispatch on the state, keep `IsSound`.
use ethox.Base.{◌≡◌, refl, ◌<◌, ◌^◌, Bool, returns, arith, >>=-eq-returns, Option-cases, inl, inr}
use ethox.Wire.Seq.{SeqNumber}
use ethox.Wire.Repr.{Repr}
use ethox.Tcp.Types.{
  Connection, ReceivedSegment, Signals, InPacket, FourTuple, EntryKey, State, closed, listen,
  syn_sent, established, fin_wait, AckUpdate, duplicate, updated, unsent, Send,
}
use ethox.Tcp.Segments.{sequence_end}
use ethox.Tcp.Window.{incoming_ack}
use ethox.Tcp.Acks.{set_recv_ack, received_end}
use ethox.Tcp.Ingress.{
  arrives, arrives_established, in_window_segment, acknowledged, handle_ack, receive_data, received,
  apply_ack,
}
use ethox.Tcp.Machine.{IsWire, IsSound, IsGenerator}
use ethox.Tcp.Machine.Opens.{arrives_listen-IsSound, arrives_syn_sent-IsSound}

received_end-IsSound :
    (s : State) (c d : Connection) (meta : ReceivedSegment) (all : Bool)
    → IsSound c
    → c.current ≡ s
    → received_end s c meta all ≡ returns d
    → IsSound d
unfolding received_end
received_end-IsSound State.established c d meta all v e h = ground arith
received_end-IsSound State.syn_received c d meta all v e h = ground arith
received_end-IsSound State.fin_wait c d meta all v e h = ground arith
received_end-IsSound State.closing c d meta all v e h = ground arith
received_end-IsSound _ c d meta all v e h = ground arith

pub set_recv_ack-IsSound :
    (c d : Connection) (meta : ReceivedSegment)
    → IsSound c
    → set_recv_ack c meta ≡ returns d
    → IsSound d
unfolding set_recv_ack
set_recv_ack-IsSound c d meta v h =
    let (end, he, h₁) = >>=-eq-returns (sequence_end meta) _ h in
    let (c', hc, h₂) = >>=-eq-returns (received_end c.current c meta _) _ h₁ in
    ground (arith, received_end-IsSound c.current c c' meta _ v refl hc)

receive_data-IsSound :
    (c d : Connection) (incoming : InPacket) (signals : Signals)
    → IsSound c
    → receive_data c incoming ≡ returns (signals, d)
    → IsSound d
unfolding receive_data
receive_data-IsSound c d incoming signals v h =
    ground (arith, set_recv_ack-IsSound c d (received incoming))

pub incoming_ack-IsSound :
    (c : Connection) (ack : SeqNumber) (u : AckUpdate) (s : Send)
    → IsSound c
    → ack < 2 ^ 32
    → incoming_ack c.send ack ≡ returns (u, s)
    → IsSound (record c { send = s })
unfolding incoming_ack
incoming_ack-IsSound c ack u s v a h = ground arith

pub apply_ack-IsSound :
    (u : AckUpdate) (c : Connection) (segment : Repr)
    → IsSound c
    → IsWire segment
    → IsSound (apply_ack u c segment)
unfolding apply_ack
apply_ack-IsSound duplicate c segment v w = ground arith
apply_ack-IsSound (updated n) c segment v w = ground arith
apply_ack-IsSound _ c segment v w = ground arith

acknowledged-IsSound :
    (u : AckUpdate) (c d : Connection) (incoming : InPacket) (four : FourTuple) (signals : Signals)
    → IsSound c
    → IsWire incoming.segment
    → acknowledged u c incoming four ≡ returns (signals, d)
    → IsSound d
unfolding acknowledged
acknowledged-IsSound unsent c d incoming four signals v w h = ground arith
acknowledged-IsSound u c d incoming four signals v w h =
    receive_data-IsSound (apply_ack u c incoming.segment) d incoming signals
      (apply_ack-IsSound u c incoming.segment v w) h

handle_ack-IsSound :
    (c d : Connection) (incoming : InPacket) (four : FourTuple) (ack : SeqNumber)
    (signals : Signals)
    → IsSound c
    → IsWire incoming.segment
    → ack < 2 ^ 32
    → handle_ack c incoming four ack ≡ returns (signals, d)
    → IsSound d
unfolding handle_ack
handle_ack-IsSound c d incoming four ack signals v w a h =
    let (r, e, rest) = >>=-eq-returns (incoming_ack c.send ack) _ h in
    acknowledged-IsSound r.0 (record c { send = r.1 }) d incoming four signals
      (incoming_ack-IsSound c ack r.0 r.1 v a e) w rest

in_window_segment-IsSound :
    (c d : Connection) (incoming : InPacket) (four : FourTuple) (signals : Signals)
    → IsSound c
    → IsWire incoming.segment
    → in_window_segment c incoming four ≡ returns (signals, d)
    → IsSound d
unfolding in_window_segment
in_window_segment-IsSound c d incoming four signals v w h =
    elim (Option-cases incoming.segment.ack_number) [
      | inl absent ↦ ground arith
      | inr (ack, there) ↦
          let word : ack < 2 ^ 32 = rw there at w.ack_fits in
          ground (arith, handle_ack-IsSound c d incoming four ack signals v w word)
    ]

arrives_established-IsSound :
    (c d : Connection) (incoming : InPacket) (four : FourTuple) (signals : Signals)
    → IsSound c
    → IsWire incoming.segment
    → arrives_established c incoming four ≡ returns (signals, d)
    → IsSound d
unfolding arrives_established
arrives_established-IsSound c d incoming four signals v w h =
    ground (arith, in_window_segment-IsSound c d incoming four signals v w)

arrives_at-IsSound :
    (s : State) (c d : Connection) (incoming : InPacket) (entry entry' : EntryKey)
    (signals : Signals)
    → c.current ≡ s
    → IsSound c
    → IsWire incoming.segment
    → IsGenerator entry
    → arrives c incoming entry ≡ returns (signals, d, entry')
    → IsSound d
unfolding arrives
arrives_at-IsSound closed c d incoming entry entry' signals e v w g h = ground arith
arrives_at-IsSound listen c d incoming entry entry' signals e v w g h =
    ground (arith, arrives_listen-IsSound c d incoming entry entry' signals v e g)
arrives_at-IsSound syn_sent c d incoming entry entry' signals e v w g h =
    ground (arith, arrives_syn_sent-IsSound c d incoming entry.key_in_slot signals v e w)
arrives_at-IsSound established c d incoming entry entry' signals e v w g h =
    ground (arith, arrives_established-IsSound c d incoming entry.key_in_slot signals v w)
arrives_at-IsSound fin_wait c d incoming entry entry' signals e v w g h =
    ground (arith, arrives_established-IsSound c d incoming entry.key_in_slot signals v w)
arrives_at-IsSound _ c d incoming entry entry' signals e v w g h = ground arith

pub arrives-IsSound :
    (c d : Connection) (incoming : InPacket) (entry entry' : EntryKey) (signals : Signals)
    → IsSound c
    → IsWire incoming.segment
    → IsGenerator entry
    → arrives c incoming entry ≡ returns (signals, d, entry')
    → IsSound d
arrives-IsSound c d incoming entry entry' signals v w g h =
    arrives_at-IsSound c.current c d incoming entry entry' signals refl v w g h
