-- ===== src/Tcp/Machine/Diagram.antt =====
-- Which states of ethox/src/layer/tcp/connection.rs follow which: the diagram that the code implements.
pub mod In
pub mod Out
use ethox.Base.{
  ◌≡◌, refl, ◌≢◌, Bool, true, false, Option, some, none, Outcome, returns, arith, >>=-eq-returns,
  Option-cases, inl, inr,
}
use ethox.Time.{Instant}
use ethox.Wire.Seq
use ethox.Wire.Seq.{SeqNumber}
use ethox.Wire.Repr.{Repr}
use ethox.Tcp.Types.{
  State, closed, listen, syn_sent, syn_received, established, fin_wait, closing, time_wait,
  close_wait, last_ack, Connection, ReceivedSegment, Signals, InPacket, FourTuple, EntryKey,
  AckUpdate, duplicate, updated, unsent, AvailableBytes, OutSignals, Segment, Send,
}
use ethox.Tcp.Segments.{sequence_end}
use ethox.Tcp.Window.{incoming_ack}
use ethox.Tcp.Acks.{change_state, received_end, set_recv_ack, rearm_retransmission_timer}
use ethox.Tcp.Opening.{
  open_connection, arrives_listen, accept_syn, arrives_syn_sent, syn_sent_control, syn_answered,
}
use ethox.Tcp.Ingress.{
  apply_ack, received, receive_data, acknowledged, handle_ack, in_window_segment,
  arrives_established, arrives,
}
use ethox.Tcp.Egress.{
  retransmit_some, segment_retransmit, fast_retransmit, timeout_retransmit, send_new, send_or_ack,
  ack_if_due, restart_if_idle, select_send_segment, select_syn_retransmit, ensure_closed_ack,
  ensure_time_wait, send_closing, send_in, next_send_segment, signalled,
}
use ethox.Tcp.Machine.{Step, opens, takes, reads, sends}
use ethox.Tcp.Machine.Transmits.{signalled-inverse}

-- The arrows of the diagram; every state also follows itself.
unfoldable pub follows : State → State → Bool
follows closed closed = true
follows closed syn_sent = true
follows listen listen = true
follows listen syn_sent = true
follows syn_sent syn_sent = true
follows syn_sent syn_received = true
follows syn_sent established = true
follows syn_sent closed = true
follows syn_received syn_received = true
follows syn_received close_wait = true
follows established established = true
follows established close_wait = true
follows established fin_wait = true
follows established closed = true
follows fin_wait fin_wait = true
follows fin_wait closing = true
follows fin_wait time_wait = true
follows fin_wait closed = true
follows closing closing = true
follows closing time_wait = true
follows time_wait time_wait = true
follows close_wait close_wait = true
follows close_wait last_ack = true
follows last_ack last_ack = true
follows _ _ = false

pub follows_self : (s t : State) → t ≡ s → follows s t ≡ true
unfolding follows
follows_self closed t e = ground arith
follows_self listen t e = ground arith
follows_self syn_sent t e = ground arith
follows_self syn_received t e = ground arith
follows_self established t e = ground arith
follows_self fin_wait t e = ground arith
follows_self closing t e = ground arith
follows_self time_wait t e = ground arith
follows_self close_wait t e = ground arith
follows_self last_ack t e = ground arith
