-- ===== src/Wire/Udp/Sent.antt =====
-- A datagram of ethox/src/wire/udp.rs that is emitted with its checksum, as its receiver parses it.
use ethox.Base.{
  ℕ, ◌+◌, ◌*◌, ◌/◌, ◌%◌, ◌^◌, ◌<◌, ◌≤◌, ◌≡◌, refl, ap, ◌∙◌, true, false, returns, List, ◌++◌,
  length, drop, ltb, Bool, arith, length-drop, put_slice, length-put_slice, put_slice_twice, ◌&&◌,
  ◌==◌,
}
use ethox.Wire.Repr.{Address}
use ethox.Wire.Bytes.{u16_bytes}
use ethox.Wire.Bytes.Writes.{write_u16_lem}
use ethox.Wire.Checked.{accept}
use ethox.Wire.Checksum.{pseudo_header}
use ethox.Wire.Checksum.Sums.{IsOctets}
use ethox.Wire.Segment.Filled.{IsOctets-drop}
use ethox.Wire.Udp
use ethox.Wire.Udp.{
  Repr, manual, both_ipv4, set_src_port, set_dst_port, set_len, set_checksum, fill_checksum, emit,
  src_port, dst_port, checksum,
}
use ethox.Wire.Udp.Parse.{check_len, verify, parse}
use ethox.Wire.Udp.Filled.{datagram, fill-verify}

-- The ranges of the fields. The port of the destination is not zero, and the header counts to the length.
pub record IsRepr (r : Repr) : Type 0 where
  pub src_fits : r.src_port < 2 ^ 16
  pub dst_fits : r.dst_port < 2 ^ 16
  pub dst_min : 0 < r.dst_port
  pub length_fits : r.length < 2 ^ 16
  pub length_min : 8 ≤ r.length

-- Before its checksum is filled in.
emit_lem :
    (r : Repr) (b : List ℕ) (src dst : Address)
    → 8 ≤ length b
    → emit r b (manual src dst)
      ≡ fill_checksum src dst (datagram r.src_port r.dst_port r.length 0 (drop 8 b))
unfolding emit set_src_port set_dst_port set_len set_checksum fill_checksum
emit_lem r b src dst h =
    let A = u16_bytes r.src_port in
    let B = u16_bytes r.dst_port in
    let C = u16_bytes r.length in
    let l_1 = length-put_slice b A 0 (omega arith) in
    let l_2 = length-put_slice b (A ++ B) 0 (omega arith) in
    let l_3 = length-put_slice b (A ++ (B ++ C)) 0 (omega arith) in
    let t_1 : put_slice (put_slice b 0 A) 2 B ≡ put_slice b 0 (A ++ B) =
      put_slice_twice b A B 0 (omega arith) in
    let t_2 : put_slice (put_slice b 0 (A ++ B)) 4 C ≡ put_slice b 0 (A ++ (B ++ C)) =
      put_slice_twice b (A ++ B) C 0 (omega arith) in
    let t_3 : put_slice (put_slice b 0 (A ++ (B ++ C))) 6 (u16_bytes 0)
        ≡ put_slice b 0 (A ++ (B ++ (C ++ u16_bytes 0))) =
      put_slice_twice b (A ++ (B ++ C)) (u16_bytes 0) 0 (omega arith) in
    rw
      (
        write_u16_lem b 0 r.src_port (omega arith),
        write_u16_lem (put_slice b 0 A) 2 r.dst_port (omega arith) ∙ ap returns t_1,
        write_u16_lem (put_slice b 0 (A ++ B)) 4 r.length (omega arith) ∙ ap returns t_2,
        write_u16_lem (put_slice b 0 (A ++ (B ++ C))) 6 0 (omega arith) ∙ ap returns t_3,
        write_u16_lem (datagram r.src_port r.dst_port r.length 0 (drop 8 b)) 6 0 (omega arith),
      )
      refl

both_false : (b : Bool) → (b && false) ≡ false
both_false true = refl
both_false false = refl

-- A field is read as it was written.
field_lem : (x : ℕ) → x < 2 ^ 16 → x / 256 % 256 * 256 + x % 256 ≡ x
field_lem x h = omega arith

check_len_lem :
    (from to size sum : ℕ) (rest : List ℕ)
    → size < 2 ^ 16
    → 8 ≤ size
    → size ≤ 8 + length rest
    → check_len (datagram from to size sum rest) ≡ accept tt
unfolding check_len Udp.datagram_len
check_len_lem from to size sum rest fits low room =
    let long : ltb (length (datagram from to size sum rest)) 8 ≡ false = ground arith in
    let inside : ltb (length (datagram from to size sum rest)) size ≡ false = ground arith in
    let whole : ltb size 8 ≡ false = ground arith in
    rw (long, field_lem size fits, inside, whole) refl

verify_lem :
    (from to size value : ℕ) (rest : List ℕ) (src dst : Address)
    → 0 < value
    → value < 2 ^ 16
    → Udp.verify_checksum src dst (datagram from to size value rest) ≡ returns true
    → verify (manual src dst) (datagram from to size value rest) ≡ accept tt
unfolding verify checksum
verify_lem from to size value rest src dst low fits checked =
    let there : (value == 0) ≡ false = ground arith in
    rw (field_lem value fits, there, both_false (both_ipv4 src dst), checked) refl

parse_lem :
    (r : Repr) (value : ℕ) (rest : List ℕ) (src dst : Address)
    → IsRepr r
    → r.length ≤ 8 + length rest
    → 0 < value
    → value < 2 ^ 16
    → Udp.verify_checksum src dst (datagram r.src_port r.dst_port r.length value rest)
      ≡ returns true
    → parse (datagram r.src_port r.dst_port r.length value rest) (manual src dst) ≡ accept r
unfolding parse check_len verify src_port dst_port checksum Udp.datagram_len
parse_lem r value rest src dst v room low fits checked =
    let there : (r.dst_port == 0) ≡ false = ground (arith, v.dst_min) in
    rw
      (
        check_len_lem r.src_port r.dst_port r.length value rest v.length_fits v.length_min room,
        verify_lem r.src_port r.dst_port r.length value rest src dst low fits checked,
        field_lem r.dst_port v.dst_fits,
        field_lem r.src_port v.src_fits,
        field_lem r.length v.length_fits,
        there,
      )
      refl

-- A datagram whose checksum stands there, not zero, which would stand for none, and is right.
abbrev pub IsSummed : Address → Address → List ℕ → Type 0
IsSummed src dst b =
    (value : ℕ) × (checksum b ≡ returns value)
    × (0 < value)
    × (Udp.verify_checksum src dst b ≡ returns true)

checksum_lem :
    (from to size value : ℕ) (rest : List ℕ)
    → value < 2 ^ 16
    → checksum (datagram from to size value rest) ≡ returns value
unfolding checksum
checksum_lem from to size value rest fits = ap returns (field_lem value fits)

-- A header whose fields are in their ranges is emitted, with the checksum, into octets that hold the length it
-- states. The checksum that is written is not zero and passes the receiver's check; the receiver parses the header that
-- was sent, and what follows the header is unchanged.
pub emit-parse :
    (r : Repr) (b : List ℕ) (src dst : Address) (header : ℕ)
    → IsRepr r
    → IsOctets b
    → r.length ≤ length b
    → pseudo_header src dst 17 r.length ≡ returns header
    → (b' : List ℕ) × (emit r b (manual src dst) ≡ returns b')
      × IsSummed src dst b'
      × (parse b' (manual src dst) ≡ accept r)
      × (length b' ≡ length b)
      × (drop 8 b' ≡ drop 8 b)
emit-parse r b src dst header v octets room e =
    let rest = drop 8 b in
    let size : r.length ≤ 8 + length rest = omega (arith, length-drop 8 b) in
    let (value, low, fits, filled, checked) =
      fill-verify src dst r.src_port r.dst_port r.length 0 rest header (IsOctets-drop 8 b octets)
        v.src_fits v.dst_fits v.length_fits v.length_min size e in
    (
      datagram r.src_port r.dst_port r.length value rest,
      emit_lem r b src dst (omega (arith, v.length_min, room)) ∙ filled,
      (value, checksum_lem r.src_port r.dst_port r.length value rest fits, low, checked),
      parse_lem r value rest src dst v size low fits checked,
      omega (arith, length-drop 8 b, v.length_min, room),
      refl,
    )
