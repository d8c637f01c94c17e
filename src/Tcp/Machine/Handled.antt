-- ===== src/Tcp/Machine/Handled.antt =====
-- Which arriving segments make a sound connection of ethox/src/layer/tcp/connection.rs panic.
use ethox.Base.{◌≢◌, ◌≤◌, Bool, Outcome, returns, panics, arith, u16_max, true, false, ◌==◌}
use ethox.Wire.Repr.{Repr}
use ethox.Tcp.Types.{
  Connection, State, closed, listen, syn_sent, syn_received, established, fin_wait, closing,
  ReceivedSegment,
}
use ethox.Tcp.Acks.{set_recv_ack, received_end}
use ethox.Tcp.Machine.{IsSound}

received_end-total :
    (s : State) (c : Connection) (meta : ReceivedSegment) (all : Bool)
    → IsSound c
    → received_end s c meta all ≢ panics
unfolding received_end
received_end-total fin_wait c meta all v = ground arith
received_end-total closing c meta all v = ground arith
received_end-total established c meta all v = ground arith
received_end-total syn_received c meta all v = ground arith
received_end-total _ c meta all v = ground arith

pub set_recv_ack-total :
    (c : Connection) (meta : ReceivedSegment)
    → IsSound c
    → meta.data_len ≤ u16_max
    → set_recv_ack c meta ≢ panics
unfolding set_recv_ack
set_recv_ack-total c meta v l =
    ground (arith, received_end-total c.current c meta (c.send.next == c.send.unacked) v)

-- Whether `arrives` has a handler for the state.
pub has_handler : State → Bool
has_handler closed = true
has_handler listen = true
has_handler syn_sent = true
has_handler established = true
has_handler fin_wait = true
has_handler _ = false

pub is_panic {ℓ} : {A : Type ℓ} → Outcome A → Bool
is_panic panics = true
is_panic (returns a) = false
