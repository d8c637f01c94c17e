-- ===== src/Tcp/Machine/Final.antt =====
-- When the entry of a connection of ethox/src/layer/tcp/connection.rs is given up for deletion.
use ethox.Base.{
  ◌==◌, ◌&&◌, Option-cases, inl, inr, ◌≡◌, refl, Bool, false, returns, arith, >>=-eq-returns,
}
use ethox.Time.{Instant, instant_le}
use ethox.Wire.Seq
use ethox.Tcp.Types.{
  State, closed, established, syn_sent, syn_received, listen, close_wait, time_wait, Connection,
  AvailableBytes, OutSignals, FourTuple,
}
use ethox.Tcp.Egress.{
  Selected, select_send_segment, select_syn_retransmit, ensure_closed_ack, ensure_time_wait,
  send_closing, send_in, next_send_segment, signalled,
}
use ethox.Tcp.Machine.Transmits.{signalled-inverse}

-- Whether the lingering time of a connection is over, and nothing is left to acknowledge.
unfoldable pub is_expired : Connection → Instant → Bool
is_expired c time = elim c.current [
  | time_wait ↦ c.recv.acked == c.recv.next && instant_le c.retransmission_timer time
  | _ ↦ false
]

signalled-keeps :
    (m : Selected) (out : OutSignals) (d : Connection)
    → signalled m ≡ returns (out, d)
    → out.delete ≡ false
signalled-keeps m out d h =
    let (segment, e, o) = signalled-inverse m h in
    elim (Option-cases segment) [ inl absent ↦ ground arith | inr (x, there) ↦ ground arith ]

send_closing-keeps :
    (c d : Connection) (available : AvailableBytes) (time : Instant) (tuple : FourTuple)
    (out : OutSignals)
    → send_closing c available time tuple ≡ returns (out, d)
    → out.delete ≡ false
unfolding send_closing
send_closing-keeps c d available time tuple out h =
    let (k, e, rest) = >>=-eq-returns (Seq.sub c.send.next c.send.unacked) _ h in
    signalled-keeps (select_send_segment c _ time tuple) out d rest

send_in-deletes :
    (s : State) (c d : Connection) (available : AvailableBytes) (time : Instant) (tuple : FourTuple)
    (out : OutSignals)
    → c.current ≡ s
    → send_in s c available time tuple ≡ returns (out, d)
    → out.delete ≡ is_expired c time
unfolding send_in is_expired
send_in-deletes established c d available time tuple out e h =
    ground (arith, signalled-keeps (select_send_segment c available time tuple) out d h)
send_in-deletes close_wait c d available time tuple out e h =
    ground (arith, signalled-keeps (select_send_segment c available time tuple) out d h)
send_in-deletes syn_sent c d available time tuple out e h =
    ground (arith, signalled-keeps (select_syn_retransmit c time tuple) out d h)
send_in-deletes syn_received c d available time tuple out e h =
    ground (arith, signalled-keeps (select_syn_retransmit c time tuple) out d h)
send_in-deletes closed c d available time tuple out e h =
    ground (arith, signalled-keeps (returns (ensure_closed_ack c tuple)) out d h)
send_in-deletes time_wait c d available time tuple out e h =
    unfold ensure_time_wait ensure_closed_ack in ground arith
send_in-deletes listen c d available time tuple out e h = ground arith
send_in-deletes _ c d available time tuple out e h =
    ground (arith, send_closing-keeps c d available time tuple out h)

-- Whatever is sent or not, the entry is given up for deletion exactly if the connection is in
-- `TimeWait`, has acknowledged all it received, and its timer is due.
pub deleted_exactly :
    (c d : Connection) (available : AvailableBytes) (time : Instant) (tuple : FourTuple)
    (out : OutSignals)
    → next_send_segment c available time tuple ≡ returns (out, d)
    → out.delete ≡ is_expired c time
unfolding next_send_segment
deleted_exactly c d available time tuple out h =
    send_in-deletes c.current c d available time tuple out refl h
