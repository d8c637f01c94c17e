-- ===== src/Wire/Udp/Carried.antt =====
-- A datagram of ethox/src/wire/udp.rs in a packet of ethox/src/wire/ipv4.rs, from the buffer of the sender to the
-- headers that the receiver parses.
use ethox.Base.{
  true, ℕ, ◌+◌, ◌-◌, ◌≤◌, ◌≡◌, refl, ap, ◌∙◌, sym, returns, List, [], ◌∷◌, ◌++◌, length, take, drop,
  arith, length-take, length-drop, length-append, take-append, le→leb, Outcome,
}
use ethox.Wire.Repr.{ipv4}
use ethox.Wire.Bytes.{u16_bytes}
use ethox.Wire.Checked.{accept}
use ethox.Wire.Checksum.{pseudo_header, propagate_carries}
use ethox.Wire.Checksum.Sums.{IsOctets, words}
use ethox.Wire.Segment.Filled.{IsOctets-take, IsOctets-drop}
use ethox.Wire.Udp
use ethox.Wire.Udp.Parse
use ethox.Wire.Udp.Sent
use ethox.Wire.Ipv4
use ethox.Wire.Ipv4.Parse as PacketParse
use ethox.Wire.Ipv4.{with_payload, payload_slice, header_len, total_len}
use ethox.Wire.Ipv4.Written.{header_of, emit-IsWritten}
use ethox.Wire.Ipv4.Sent as PacketSent

-- The checksum is computed between the addresses of the packet.
abbrev pub between : Ipv4.Repr → Udp.Checksum
between r = Udp.manual (ipv4 r.src_addr) (ipv4 r.dst_addr)

-- A write to the payload leaves the header, and a payload of the length it had.
with_payload_lem :
    (r : Ipv4.Repr) (sum : ℕ) (rest slice : List ℕ) (f : List ℕ → Outcome (List ℕ))
    → PacketSent.IsRepr r
    → r.payload_len ≤ length rest
    → f (take r.payload_len rest) ≡ returns slice
    → (tail : List ℕ) × (with_payload f (header_of r (u16_bytes sum) rest)
        ≡ returns (header_of r (u16_bytes sum) (slice ++ tail)))
unfolding with_payload header_len total_len payload_slice
with_payload_lem r sum rest slice f v room written =
    let b = header_of r (u16_bytes sum) rest in
    let same : 20 + r.payload_len - 20 ≡ r.payload_len = omega arith in
    (
      drop (20 + r.payload_len) b,
      rw
          (
            PacketSent.short_lem (20 + r.payload_len) v.payload_fits,
            le→leb 20 (20 + r.payload_len) (omega arith),
            le→leb (20 + r.payload_len) (length b) (omega arith),
            same,
            written,
          )
          refl,
    )

-- A packet's header is emitted into octets, and then a datagram of the packet's payload length into its payload, each
-- with its checksum. The packet's checksum is right, and so is the datagram's between the addresses of the packet,
-- which is not zero. The receiver, which checks both, parses the header that was sent, and in the packet's payload the
-- datagram that was sent.
pub carry-receive :
    (r : Ipv4.Repr) (d : Udp.Repr) (b : List ℕ)
    → PacketSent.IsRepr r
    → Sent.IsRepr d
    → IsOctets b
    → d.length ≡ r.payload_len
    → 20 + r.payload_len ≤ length b
    → (b' : List ℕ) × (b'' : List ℕ) × (Ipv4.emit r b Ipv4.manual ≡ returns b')
      × (with_payload (λ slice. Udp.emit d slice (between r)) b' ≡ returns b'')
      × (Ipv4.verify_checksum b'' ≡ returns true)
      × (PacketParse.parse b'' Ipv4.manual ≡ accept r)
      × (slice : List ℕ) × (payload_slice b'' ≡ returns slice)
      × Sent.IsSummed (ipv4 r.src_addr) (ipv4 r.dst_addr) slice
      × (Parse.parse slice (between r) ≡ accept d)
unfolding pseudo_header
carry-receive r d b v u octets sizes room =
    let rest = drop 20 b in
    let slice = take r.payload_len rest in
    let size : r.payload_len ≤ length rest = omega (arith, length-drop 20 b) in
    let cut : length slice ≡ r.payload_len = omega (arith, length-take r.payload_len rest) in
    let (s0, s1, written) = emit-IsWritten r Ipv4.manual b v.payload_fits (omega arith) in
    let value = 65535 - propagate_carries (words (header_of r (0 ∷ 0 ∷ []) [])) in
    let (filled, _) = PacketSent.filled_lem r s0 s1 rest v in
    let (slice', emitted, summed, parsed, long, _) =
      Sent.emit-parse d slice (ipv4 r.src_addr) (ipv4 r.dst_addr) _ u
        (IsOctets-take r.payload_len rest (IsOctets-drop 20 b octets)) (omega arith) refl in
    let (tail, put) =
      with_payload_lem r value rest slice' (λ slice. Udp.emit d slice (between r)) v size emitted in
    let after = slice' ++ tail in
    let size' : r.payload_len ≤ length after = omega (arith, length-append slice' tail) in
    let (_, checked) = PacketSent.filled_lem r s0 s1 after v in
    let found : take r.payload_len after ≡ slice' =
      ap (λ n. take n after) (sym (long ∙ cut)) ∙ take-append slice' tail in
    (
      header_of r (u16_bytes value) rest,
      header_of r (u16_bytes value) after,
      written ∙ filled,
      put,
      checked,
      PacketSent.parse_lem r value after v size' checked,
      slice',
      PacketSent.payload_lem r value after v size' ∙ ap returns found,
      summed,
      parsed,
    )
