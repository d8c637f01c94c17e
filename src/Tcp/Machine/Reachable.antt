-- ===== src/Tcp/Machine/Reachable.antt =====
-- What holds in every state that a connection of ethox/src/layer/tcp/connection.rs can reach.
use ethox.Base.{ℕ, true, refl, arith, ◌≡◌, ◌≤◌, ◌^◌, returns}
use ethox.Tcp.Types.{Connection, Receive, closed, listen}
use ethox.Tcp.Window.{in_flight, update_window}
use ethox.Tcp.Acks.{change_state}
use ethox.Tcp.Machine.{
  Step, opens, takes, reads, sends, announces, listens, removes, Reach, here, next, IsSound, flight,
}
use ethox.Tcp.Machine.Diagram.{follows, follows_self}
use ethox.Tcp.Machine.Diagram.In.{open_connection-follows, arrives-follows, set_recv_ack-follows}
use ethox.Tcp.Machine.Diagram.Out.{next_send_segment-follows}
use ethox.Tcp.Machine.Opens.{open_connection-IsSound}
use ethox.Tcp.Machine.Receives.{arrives-IsSound, set_recv_ack-IsSound}
use ethox.Tcp.Machine.Transmits.{next_send_segment-IsSound, in_flight_sound}

-- Where a step may take the state: along an arrow of the diagram, or where the endpoint puts it.
abbrev pub Moves : {c d : Connection} → Step c d → Type 0
Moves {c} {d} (listens e h) = (c.current ≡ closed) × (d.current ≡ listen)
Moves {c} {d} (removes h) = (d.current ≡ closed) × (d.previous ≡ c.current)
Moves {c} {d} _ = follows c.current d.current ≡ true

-- Every call of the connection's own that returns, and every announcement of a window, moves the state along an
-- arrow of the diagram, or leaves it as it is. The endpoint's two writes are no arrows: it makes a closed connection
-- listen, and closes a removed one in whatever state it is, which stays on record as the previous one.
pub Step-follows : {c d : Connection} → (s : Step c d) → Moves s
unfolding change_state
Step-follows {c} {d} (opens time entry g h) = open_connection-follows c d time entry h
Step-follows {c} {d} (takes incoming entry entry' signals w g h) =
    arrives-follows c d incoming entry entry' signals h
Step-follows {c} {d} (reads meta b h) = set_recv_ack-follows c d meta h
Step-follows {c} {d} (sends available time tuple out h) =
    next_send_segment-follows c d available time tuple out h
Step-follows {c} {d} (announces window recv e h) = follows_self c.current d.current (rw h refl)
Step-follows {c} {d} (listens e h) = (e, rw h refl)
Step-follows {c} {d} (removes h) = (rw h refl, rw h refl)

announced-IsSound :
    (c : Connection) (window : ℕ) (recv : Receive)
    → IsSound c
    → update_window c.recv window ≡ returns recv
    → IsSound (record c { recv = recv })
unfolding update_window
announced-IsSound c window recv v e = ground arith

-- Every step, on whatever segment the parser lets through, keeps the invariant.
pub Step-IsSound : {c d : Connection} → Step c d → IsSound c → IsSound d
unfolding change_state
Step-IsSound {c} {d} (opens time entry g h) v = open_connection-IsSound c d time entry v g h
Step-IsSound {c} {d} (takes incoming entry entry' signals w g h) v =
    arrives-IsSound c d incoming entry entry' signals v w g h
Step-IsSound {c} {d} (reads meta b h) v = set_recv_ack-IsSound c d meta v h
Step-IsSound {c} {d} (sends available time tuple out h) v =
    next_send_segment-IsSound c d available time tuple out v h
Step-IsSound {c} {d} (announces window recv e h) v = rw h (announced-IsSound c window recv v e)
Step-IsSound {c} {d} (listens e h) v = ground arith
Step-IsSound {c} {d} (removes h) v = ground arith

Reach-IsSound : {c d : Connection} → IsSound c → Reach c d → IsSound d
Reach-IsSound v here = v
Reach-IsSound v (next r s) = Step-IsSound s (Reach-IsSound v r)

-- In every state that any sequence of calls reaches from a sound connection, the assertion of
-- `in_flight` holds: the call returns the number of sequence numbers from `unacked` up to `next`,
-- which is at most 2^30, and the state is sound again.
pub Reach-in_flight :
    {c d : Connection}
    → IsSound c
    → Reach c d
    → (in_flight d.send ≡ returns (flight d.send)) × (flight d.send ≤ 2 ^ 30) × IsSound d
Reach-in_flight {c} {d} v r = let s = Reach-IsSound v r in (in_flight_sound d s, s.flight_fits, s)
