-- ===== src/Examples/Words.antt =====
-- Sequence numbers, flags, headers and instants of ethox/src/wire/tcp.rs and ethox/src/time.rs, and
-- windows of ethox/src/layer/tcp/connection.rs, at concrete values.
use ethox.Base.{ℕ, ◌+◌, ◌-◌, ◌*◌, ◌^◌, ◌≡◌, ◌≤◌, ◌<◌, refl, returns, arith, min, u16_max}
use ethox.Wire.Seq.{SeqNumber, wrapping_add, sub}
use ethox.Tcp.Types.{Send, Receive, zeroed, established}
use ethox.Tcp.Window.{update_window, incoming_ack, in_flight}
use ethox.Tcp.Window.Flight.{incoming_ack-classified, classified}
use ethox.Tcp.Window.Scale.{update_window_rounds_up}
use ethox.Examples.{connection}

-- A number just before the wrap.
abbrev last : SeqNumber
last = 2 ^ 32 - 1

abbrev sender : Send
sender = (connection established).send

abbrev receiver : Receive
receiver = record (zeroed.recv) { window_scale = 3 }

incoming_ack-classified_example :
    incoming_ack sender (wrapping_add sender.unacked 10) ≡ returns (classified sender 50 10)
incoming_ack-classified_example =
    incoming_ack-classified sender 50 10 (omega arith) (unfold wrapping_add in refl) (omega arith)
      (omega arith)

update_window_rounds_up_example :
    (w : ℕ) × (update_window receiver 1001 ≡ returns (record receiver { window = w }))
    × (w ≤ u16_max)
    × (min 1001 (u16_max * 2 ^ receiver.window_scale) ≤ w * 2 ^ receiver.window_scale)
    × (w * 2 ^ receiver.window_scale
        < min 1001 (u16_max * 2 ^ receiver.window_scale) + 2 ^ receiver.window_scale)
update_window_rounds_up_example = update_window_rounds_up receiver 1001 (omega arith)

-- A distance across the wrap, and the window of 1001 bytes in units of eight.
distance : sub 3 last ≡ returns 4
unfolding sub
distance = refl

rounded : update_window receiver 1001 ≡ returns (record receiver { window = 126 })
unfolding update_window ethox.Tcp.Window.scaled_down
rounded = refl
