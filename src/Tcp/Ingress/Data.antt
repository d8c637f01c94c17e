-- ===== src/Tcp/Ingress/Data.antt =====
-- What the handler of an open connection in ethox/src/layer/tcp/connection.rs does with the data and
-- the end of a segment in the window.
use ethox.Base.{
  ℕ, ◌+◌, ◌-◌, ◌%◌, ◌^◌, ◌≡◌, ◌≢◌, ◌<◌, ◌≤◌, ◌⊎◌, ◌∙◌, refl, Bool, true, false, some, returns,
  arith, >>=-eq-returns, i32_max,
}
use ethox.Wire.Seq.{SeqNumber, wrapping_add}
use ethox.Wire.Flags
use ethox.Wire.Flags.{from_bool}
use ethox.Wire.Repr.{Repr}
use ethox.Tcp.Types.{
  Connection, State, established, syn_received, fin_wait, closing, ReceivedSegment, Send,
  no_signals, InPacket, FourTuple, AckUpdate, duplicate, updated, unsent,
}
use ethox.Tcp.Segments.{sequence_end}
use ethox.Tcp.Window.{incoming_ack}
use ethox.Tcp.Window.Flight.{classified, sent-not_unsent, incoming_ack-classified}
use ethox.Tcp.Acks.{set_recv_ack, received_end}
use ethox.Tcp.Ingress.{
  ingress_acceptable, apply_ack, received, receive_data, acknowledged, handle_ack,
  in_window_segment, arrives_established,
}
use ethox.Tcp.Machine.{IsSound, IsWire, flight}
use ethox.Tcp.Machine.Receives.{apply_ack-IsSound, incoming_ack-IsSound}
use ethox.Tcp.Machine.Handled.{set_recv_ack-total}
use ethox.Tcp.Machine.Total.{returns_of}

received_end-recv :
    (s : State) (c d : Connection) (meta : ReceivedSegment) (all : Bool)
    → received_end s c meta all ≡ returns d
    → d.recv ≡ c.recv
unfolding received_end
received_end-recv established c d meta all h = ground arith
received_end-recv syn_received c d meta all h = ground arith
received_end-recv fin_wait c d meta all h = ground arith
received_end-recv closing c d meta all h = ground arith
received_end-recv _ c d meta all h = ground arith

apply_ack-recv :
    (u : AckUpdate) (c : Connection) (segment : Repr) → (apply_ack u c segment).recv ≡ c.recv
unfolding apply_ack
apply_ack-recv duplicate c segment = refl
apply_ack-recv (updated n) c segment = ground arith
apply_ack-recv _ c segment = refl

set_recv_ack-recv :
    (c d : Connection) (meta : ReceivedSegment)
    → set_recv_ack c meta ≡ returns d
    → (d.recv.acked ≡ c.recv.acked) × (sequence_end meta ≡ returns d.recv.next)
unfolding set_recv_ack
set_recv_ack-recv c d meta h =
    let (end, he, h₁) = >>=-eq-returns (sequence_end meta) _ h in
    let (c', hc, h₂) = >>=-eq-returns (received_end c.current c meta _) _ h₁ in
    ground (arith, received_end-recv c.current c c' meta _ hc)

-- How far an acknowledged number is past `unacked`.
abbrev pub ack_offset : Send → SeqNumber → ℕ
ack_offset s ack = (ack + 2 ^ 32 - s.unacked) % 2 ^ 32

-- The number is at most `next`, or so far past it that the code takes it for an old one.
abbrev pub WasSent : Send → SeqNumber → Type 0
WasSent s ack = (ack_offset s ack ≤ flight s) ⊎ (i32_max < ack_offset s ack)

incoming_ack-sent :
    (c : Connection) (ack : SeqNumber)
    → IsSound c
    → ack < 2 ^ 32
    → WasSent c.send ack
    → (u : AckUpdate) × (s : Send) × (incoming_ack c.send ack ≡ returns (u, s)) × (u ≢ unsent)
unfolding wrapping_add
incoming_ack-sent c ack v fits sent =
    let k = flight c.send in
    let d = ack_offset c.send ack in
    let same : (c.send.unacked + d) % 2 ^ 32 ≡ ack = omega (arith, v.unacked_fits) in
    let e =
      incoming_ack-classified c.send k d v.unacked_fits (omega (arith, v.unacked_fits, v.next_fits))
        (omega (arith, v.flight_fits)) (omega arith) in
    (
      (classified c.send k d).0,
      (classified c.send k d).1,
      rw same at e,
      sent-not_unsent c.send k d sent,
    )

acknowledged-sent :
    (u : AckUpdate) (c : Connection) (incoming : InPacket) (four : FourTuple)
    → u ≢ unsent
    → acknowledged u c incoming four ≡ receive_data (apply_ack u c incoming.segment) incoming
unfolding acknowledged
acknowledged-sent unsent c incoming four n = absurd (n refl)
acknowledged-sent u c incoming four n = refl

-- Such a segment in the window, without SYN, is handed on with the connection that its acknowledgement leaves.
arrives-receives :
    (c : Connection) (incoming : InPacket) (four : FourTuple) (ack : SeqNumber)
    → IsSound c
    → IsWire incoming.segment
    → ingress_acceptable c incoming.segment ≡ returns true
    → Flags.syn incoming.segment.flags ≡ false
    → incoming.segment.ack_number ≡ some ack
    → WasSent c.send ack
    → (d : Connection) × (arrives_established c incoming four ≡ receive_data d incoming)
      × (d.recv ≡ c.recv)
      × IsSound d
unfolding arrives_established in_window_segment handle_ack
arrives-receives c incoming four ack v w inside plain there sent =
    let fits : ack < 2 ^ 32 = rw there at w.ack_fits in
    let (u, s, e, n) = incoming_ack-sent c ack v fits sent in
    let c' : Connection = record c { send = s } in
    let d = apply_ack u c' incoming.segment in
    let taken : arrives_established c incoming four ≡ receive_data d incoming =
      ground (arith, inside, plain, there, e, acknowledged-sent u c' incoming four n) in
    (
      d,
      taken,
      apply_ack-recv u c' incoming.segment,
      apply_ack-IsSound u c' incoming.segment (incoming_ack-IsSound c ack u s v fits e) w,
    )

-- Data in the window that comes with an acknowledgement of a number that was sent, a repeated or an old one
-- included, and without SYN, is not answered: all the handler does is to announce it to the layer above, with the
-- number it begins at and whether it is the last; until that layer answers, nothing is recorded as received.
pub data_announced :
    (c : Connection) (incoming : InPacket) (four : FourTuple) (ack : SeqNumber)
    → IsSound c
    → IsWire incoming.segment
    → ingress_acceptable c incoming.segment ≡ returns true
    → Flags.syn incoming.segment.flags ≡ false
    → incoming.segment.ack_number ≡ some ack
    → WasSent c.send ack
    → 0 < incoming.segment.payload_len
    → (d : Connection) × (arrives_established c incoming four
        ≡ returns (record no_signals { receive = some (received incoming) }, d))
      × (d.recv ≡ c.recv)
unfolding receive_data
data_announced c incoming four ack v w inside plain there sent long =
    let (d, e, same, _) = arrives-receives c incoming four ack v w inside plain there sent in
    (d, e ∙ ground (arith, long), same)

-- A segment without data in the window, without SYN and acknowledging a number that was sent, a repeated or an old
-- one included, is silent, and moves what is received to the segment's own number, plus one with a FIN: the data
-- between the number expected before and that of the segment counts as received, though it never arrived.
pub empty_segment_skips :
    (c : Connection) (incoming : InPacket) (four : FourTuple) (ack : SeqNumber)
    → IsSound c
    → IsWire incoming.segment
    → ingress_acceptable c incoming.segment ≡ returns true
    → Flags.syn incoming.segment.flags ≡ false
    → incoming.segment.ack_number ≡ some ack
    → WasSent c.send ack
    → incoming.segment.payload_len ≡ 0
    → (d : Connection) × (arrives_established c incoming four ≡ returns (no_signals, d))
      × (d.recv.next
          ≡ (incoming.segment.seq_number + from_bool (Flags.fin incoming.segment.flags)) % 2 ^ 32)
unfolding receive_data
empty_segment_skips c incoming four ack v w inside plain there sent empty =
    let (d, e, _, v') = arrives-receives c incoming four ack v w inside plain there sent in
    let (d', e') =
      returns_of (set_recv_ack d (received incoming))
        (set_recv_ack-total d (received incoming) v' w.payload_fits) in
    let (_, moved) = set_recv_ack-recv d d' (received incoming) e' in
    (d', e ∙ ground (arith, empty, e'), unfold sequence_end in ground arith)
