-- ===== src/Examples/Datagrams.antt =====
-- A datagram of ethox/src/wire/udp.rs and a packet of ethox/src/wire/ipv4.rs that are sent to a neighbor.
use ethox.Base.{true, ℕ, returns, List, ◌∷◌, length, drop, ◌≡◌, refl, arith}
use ethox.Wire.Repr.{Address, ipv4}
use ethox.Wire.Checked.{accept, Answers}
use ethox.Wire.Checksum.{pseudo_header, combine, data_sum, propagate_carries}
use ethox.Wire.Segment.Scanned.{zeros}
use ethox.Wire.Segment.Sent.{zeros-IsOctets}
use ethox.Wire.Udp
use ethox.Wire.Udp.Parse
use ethox.Wire.Udp.Sent
use ethox.Wire.Udp.Sent.{emit-parse}
use ethox.Wire.Ipv4
use ethox.Wire.Ipv4.{from_number}
use ethox.Wire.Ipv4.Parse as PacketParse
use ethox.Wire.Ipv4.Total.{packet_total}
use ethox.Wire.Ipv4.Sent as PacketSent
use ethox.Wire.Udp.Carried.{between, carry-receive}

abbrev client : Address
client = ipv4 0x0a000001

abbrev server : Address
server = ipv4 0x0a000002

-- A question to the server of names, with four octets of data.
abbrev datagram : Udp.Repr
datagram = record { src_port = 4000; dst_port = 53; length = 12 }

datagram-IsRepr : Sent.IsRepr datagram
datagram-IsRepr = record {
  src_fits = omega arith;
  dst_fits = omega arith;
  dst_min = omega arith;
  length_fits = omega arith;
  length_min = omega arith;
}

pseudo : pseudo_header client server 17 12 ≡ returns 5152
unfolding pseudo_header combine data_sum propagate_carries
pseudo = refl

emit-parse_example :
    (b' : List ℕ) × (Udp.emit datagram (zeros 14) (Udp.manual client server) ≡ returns b')
    × Sent.IsSummed client server b'
    × (Parse.parse b' (Udp.manual client server) ≡ accept datagram)
    × (length b' ≡ 14)
    × (drop 8 b' ≡ drop 8 (zeros 14))
emit-parse_example =
    emit-parse datagram (zeros 14) client server 5152 datagram-IsRepr (zeros-IsOctets 14)
      (omega arith) pseudo

-- The packet around it.
abbrev packet : Ipv4.Repr
packet = record {
  src_addr = 0x0a000001;
  dst_addr = 0x0a000002;
  protocol = Ipv4.udp;
  payload_len = 12;
  hop_limit = 64;
}

packet-IsRepr : PacketSent.IsRepr packet
unfolding from_number
packet-IsRepr = record {
  src_fits = omega arith;
  dst_fits = omega arith;
  hops_fit = omega arith;
  protocol_fits = omega arith;
  protocol_named = refl;
  payload_fits = omega arith;
}

carry-receive_example :
    (b' : List ℕ) × (b'' : List ℕ) × (Ipv4.emit packet (zeros 34) Ipv4.manual ≡ returns b')
    × (Ipv4.with_payload (λ slice. Udp.emit datagram slice (between packet)) b' ≡ returns b'')
    × (Ipv4.verify_checksum b'' ≡ returns true)
    × (PacketParse.parse b'' Ipv4.manual ≡ accept packet)
    × (slice : List ℕ) × (Ipv4.payload_slice b'' ≡ returns slice)
    × Sent.IsSummed client server slice
    × (Parse.parse slice (between packet) ≡ accept datagram)
carry-receive_example =
    carry-receive packet datagram (zeros 34) packet-IsRepr datagram-IsRepr (zeros-IsOctets 34) refl
      (omega arith)

-- A packet whose header states four options that its length does not count.
packet_total_example : Answers (PacketParse.parse (0x49 ∷ zeros 39) Ipv4.manual)
packet_total_example = packet_total (0x49 ∷ zeros 39) Ipv4.manual
