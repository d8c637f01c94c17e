-- ===== src/Tcp/Machine/Opens.antt =====
-- The opening handlers keep `IsSound`.
use ethox.Base.{
  ℕ, ◌≡◌, ◌<◌, ◌^◌, Option, some, none, returns, arith, false, ◌⊎◌, inl, inr, Bool-cases,
  Option-cases, max, ◌≤◌, u16_max,
}
use mathlib.Core.Option.{get_or}
use ethox.Time.{Instant}
use ethox.Wire.Seq.{SeqNumber}
use ethox.Tcp.Types.{Connection, Signals, InPacket, FourTuple, EntryKey, listen, syn_sent}
use ethox.Tcp.Opening.{
  open_connection, accept_syn, arrives_listen, syn_answered, syn_sent_control, arrives_syn_sent,
  bad_syn_ack,
}
use ethox.Tcp.Machine.{IsWire, IsSound, IsGenerator, IsScale, IsShort}

pub open_connection-IsSound :
    (c d : Connection) (time : Instant) (entry : EntryKey)
    → IsSound c
    → IsGenerator entry
    → open_connection c time entry ≡ returns (some d)
    → IsSound d
unfolding open_connection
open_connection-IsSound c d time entry v g h = ground (arith, g.isn_fits entry.key_in_slot time)

accept_syn-IsSound :
    (c d : Connection) (incoming : InPacket) (entry entry' : EntryKey) (signals : Signals)
    → IsSound c
    → c.current ≡ listen
    → IsGenerator entry
    → accept_syn c incoming entry ≡ returns (signals, d, entry')
    → IsSound d
unfolding accept_syn
accept_syn-IsSound c d incoming entry entry' signals v e g h =
    ground (arith, g.isn_fits (record (entry.key_in_slot) { remote = incoming.from }) incoming.time)

pub arrives_listen-IsSound :
    (c d : Connection) (incoming : InPacket) (entry entry' : EntryKey) (signals : Signals)
    → IsSound c
    → c.current ≡ listen
    → IsGenerator entry
    → arrives_listen c incoming entry ≡ returns (signals, d, entry')
    → IsSound d
unfolding arrives_listen
arrives_listen-IsSound c d incoming entry entry' signals v e g h =
    ground (arith, accept_syn-IsSound c d incoming entry entry' signals v e g)

-- The acknowledgement of our SYN, if there is one, is of the SYN.
ack_of_syn :
    (c : Connection) (ack : SeqNumber)
    → IsSound c
    → c.current ≡ syn_sent
    → ack < 2 ^ 32
    → bad_syn_ack c ack ≡ false
    → ack ≡ c.send.next
unfolding bad_syn_ack
ack_of_syn c ack v e a h = ground arith

-- What `syn_answered` stores for the peer's options.
options_fit :
    (mss scale : Option ℕ)
    → IsShort mss
    → IsScale scale
    → (max (get_or mss 536) 536 ≤ u16_max) × (0 < max (get_or mss 536) 536) × (get_or scale 0 ≤ 14)
options_fit (some m) (some k) hm hk = omega arith
options_fit (some m) none hm hk = omega arith
options_fit none (some k) hm hk = omega arith
options_fit none none hm hk = omega arith

-- Without an acknowledgement, or with that of our SYN.
syn_answered-IsSound :
    (c d : Connection) (incoming : InPacket) (four : FourTuple) (signals : Signals)
    → IsSound c
    → IsWire incoming.segment
    → get_or incoming.segment.ack_number c.send.unacked ≡ c.send.unacked
      ⊎ get_or incoming.segment.ack_number c.send.unacked ≡ c.send.next
    → syn_answered c incoming four ≡ returns (signals, d)
    → IsSound d
unfolding syn_answered
syn_answered-IsSound c d incoming four signals v w a h =
    ground (arith, options_fit segment.max_seg_size segment.window_scale w.mss_fits w.scale_fits)
  where
    open incoming use {segment}

syn_sent_control-IsSound :
    (c d : Connection) (incoming : InPacket) (four : FourTuple) (signals : Signals)
    → IsSound c
    → IsWire incoming.segment
    → get_or incoming.segment.ack_number c.send.unacked ≡ c.send.unacked
      ⊎ get_or incoming.segment.ack_number c.send.unacked ≡ c.send.next
    → syn_sent_control c incoming four ≡ returns (signals, d)
    → IsSound d
unfolding syn_sent_control
syn_sent_control-IsSound c d incoming four signals v w a h =
    ground (arith, syn_answered-IsSound c d incoming four signals v w a)

pub arrives_syn_sent-IsSound :
    (c d : Connection) (incoming : InPacket) (four : FourTuple) (signals : Signals)
    → IsSound c
    → c.current ≡ syn_sent
    → IsWire incoming.segment
    → arrives_syn_sent c incoming four ≡ returns (signals, d)
    → IsSound d
unfolding arrives_syn_sent
arrives_syn_sent-IsSound c d incoming four signals v e w h =
    elim (Option-cases incoming.segment.ack_number) [
      | inl none_there ↦
          ground
            (arith, syn_sent_control-IsSound c d incoming four signals v w (inl (rw none_there)))
      | inr (ack, there) ↦ elim (Bool-cases (bad_syn_ack c ack)) [
        | inl bad ↦ ground arith
        | inr good ↦
            let word : ack < 2 ^ 32 = rw there at w.ack_fits in
            let e' : get_or incoming.segment.ack_number c.send.unacked ≡ c.send.next =
              rw there (ack_of_syn c ack v e word good) in
            ground (arith, syn_sent_control-IsSound c d incoming four signals v w (inr e'))
      ]
    ]
