-- ===== src/Tcp/Ingress/Resets.antt =====
-- Which segments reset an open connection, and which states have no handler, in
-- ethox/src/layer/tcp/connection.rs.
use ethox.Base.{◌≡◌, Bool, false, returns, arith, >>=-eq-returns, if◌then◌else◌}
use ethox.Wire.Seq.{SeqNumber}
use ethox.Wire.Flags
use ethox.Tcp.Types.{Connection, Signals, InPacket, FourTuple, AckUpdate, unsent}
use ethox.Tcp.Window.{incoming_ack}
use ethox.Tcp.Ingress.{
  ingress_acceptable, acknowledged, apply_ack, handle_ack, in_window_segment, arrives_established,
  receive_data,
}

receive_data_quiet :
    (c c' : Connection) (incoming : InPacket) (signals : Signals)
    → receive_data c incoming ≡ returns (signals, c')
    → (signals.reset ≡ false) × (signals.delete ≡ false)
unfolding receive_data
receive_data_quiet c c' incoming signals h = ground arith

acknowledged_quiet :
    (u : AckUpdate) (c c' : Connection) (incoming : InPacket) (four : FourTuple) (signals : Signals)
    → acknowledged u c incoming four ≡ returns (signals, c')
    → (signals.reset ≡ false) × (signals.delete ≡ false)
unfolding acknowledged
acknowledged_quiet unsent c c' incoming four signals h = ground arith
acknowledged_quiet u c c' incoming four signals h =
    receive_data_quiet (apply_ack u c incoming.segment) c' incoming signals h

handle_ack_quiet :
    (c c' : Connection) (incoming : InPacket) (four : FourTuple) (ack : SeqNumber)
    (signals : Signals)
    → handle_ack c incoming four ack ≡ returns (signals, c')
    → (signals.reset ≡ false) × (signals.delete ≡ false)
unfolding handle_ack
handle_ack_quiet c c' incoming four ack signals h =
    let (r, e, rest) = >>=-eq-returns (incoming_ack c.send ack) _ h in
    acknowledged_quiet r.0 (record c { send = r.1 }) c' incoming four signals rest

-- The handler signals a reset exactly for a RST outside the receive window or a SYN inside it; and asks
-- for deletion in the same cases.
pub reset_exactly :
    (c c' : Connection) (incoming : InPacket) (four : FourTuple) (signals : Signals)
    → (acceptable : Bool) → ingress_acceptable c incoming.segment ≡ returns acceptable
    → arrives_established c incoming four ≡ returns (signals, c')
    → (signals.reset ≡ (
        if acceptable then Flags.syn incoming.segment.flags else Flags.rst incoming.segment.flags))
      × (signals.delete ≡ signals.reset)
unfolding arrives_established in_window_segment
reset_exactly c c' incoming four signals acceptable a h = grind (arith, handle_ack_quiet)
