-- ===== src/Wire/Ipv4/Written.antt =====
-- The buffer that `Repr::emit` of ethox/src/wire/ipv4.rs leaves before its checksum.
use ethox.Base.{
  ℕ, ◌+◌, ◌*◌, ◌/◌, ◌%◌, ◌^◌, ◌<◌, ◌≤◌, ◌≡◌, refl, false, true, List, [], ◌∷◌, ◌++◌, length, drop,
  arith, put_slice, if◌then◌else◌,
}
use ethox.Wire.Bytes.{u16_bytes, u32_bytes}
use ethox.Wire.Bytes.Writes.{write_u8_lem, write_u16_lem, write_u32_lem}
use ethox.Wire.Segment.Written.{five}
use ethox.Wire.Ipv4.{
  Repr, Checksum, is_manual, number_of, with_bit, emit, set_version, set_header_len, set_dscp,
  set_ecn, header_len, set_total_len, set_ident, clear_flags, set_more_frags, set_dont_frag,
  set_frag_offset, set_hop_limit, set_protocol, set_src_addr, set_dst_addr, fill_checksum,
  set_checksum,
}

-- A header without options that may not be fragmented, and what follows it.
abbrev pub packet : ℕ → ℕ → ℕ → List ℕ → ℕ → ℕ → List ℕ → List ℕ
packet total hops kind sum src dst rest =
    69
    ∷ 0
    ∷ (u16_bytes total
        ++ (u16_bytes 0
            ++ (u16_bytes 16384
                ++ (hops ∷ kind ∷ (sum ++ (u32_bytes src ++ (u32_bytes dst ++ rest)))))))

-- The header of a representation, with the octets of a checksum.
abbrev pub header_of : Repr → List ℕ → List ℕ → List ℕ
header_of r sum rest =
    packet (20 + r.payload_len) r.hop_limit (number_of r.protocol) sum r.src_addr r.dst_addr rest

module _ (raw : ℕ) where
  -- The field of the flags with all of them cleared, and then with the one that forbids fragments.
  cleared : raw % 2 ^ 13 / 256 % 256 * 256 + raw % 2 ^ 13 % 256 ≡ raw % 2 ^ 13
  cleared = omega arith

  no_more : with_bit (raw % 2 ^ 13) 13 false ≡ raw % 2 ^ 13
  no_more = omega arith

  no_frag : with_bit (raw % 2 ^ 13) 14 true ≡ 16384 + raw % 2 ^ 13
  no_frag = omega arith

  kept :
      (16384 + raw % 2 ^ 13) / 256 % 256 * 256 + (16384 + raw % 2 ^ 13) % 256 ≡ 16384 + raw % 2 ^ 13
  kept = omega arith

  no_offset : (16384 + raw % 2 ^ 13) / 2 ^ 13 * 2 ^ 13 + 0 ≡ 16384
  no_offset = omega arith

fixed_written :
    (r : Repr) (sums : Checksum)
    (x0 x1 x2 x3 x4 x5 x6 x7 x8 x9 x10 x11 x12 x13 x14 x15 x16 x17 x18 x19 : ℕ) (rest : List ℕ)
    → 20 + r.payload_len < 2 ^ 16
    → emit r
        (x0 ∷ x1 ∷ x2 ∷ x3 ∷ x4 ∷ x5 ∷ x6 ∷ x7 ∷ x8 ∷ x9 ∷ x10 ∷ x11 ∷ x12 ∷ x13 ∷ x14 ∷ x15 ∷ x16
          ∷ x17 ∷ x18 ∷ x19 ∷ rest)
        sums
      ≡ (if is_manual sums
          then fill_checksum (header_of r (x10 ∷ x11 ∷ []) rest)
          else set_checksum 0 (header_of r (x10 ∷ x11 ∷ []) rest))
unfolding emit set_version set_header_len set_dscp set_ecn header_len set_total_len set_ident
    clear_flags set_more_frags set_dont_frag set_frag_offset set_hop_limit set_protocol set_src_addr
    set_dst_addr
fixed_written r sums x0 x1 x2 x3 x4 x5 x6 x7 x8 x9 x10 x11 x12 x13 x14 x15 x16 x17 x18 x19 rest
      fits =
    let b : List ℕ =
      x0 ∷ x1 ∷ x2 ∷ x3 ∷ x4 ∷ x5 ∷ x6 ∷ x7 ∷ x8 ∷ x9 ∷ x10 ∷ x11 ∷ x12 ∷ x13 ∷ x14 ∷ x15 ∷ x16
      ∷ x17 ∷ x18 ∷ x19 ∷ rest in
    let b_1 = put_slice b 0 ((x0 % 16 + 64) ∷ []) in
    let first : (x0 % 16 + 64) / 16 * 16 + 5 ≡ 69 = omega arith in
    let b_2 = put_slice b_1 0 (69 ∷ []) in
    let b_3 = put_slice b_2 1 ((x1 % 4 + 0) ∷ []) in
    let second : (x1 % 4 + 0) / 4 * 4 + 0 ≡ 0 = omega arith in
    let b_4 = put_slice b_3 1 (0 ∷ []) in
    let total : (20 + r.payload_len % 2 ^ 16) % 2 ^ 16 ≡ 20 + r.payload_len = omega arith in
    let b_5 = put_slice b_4 2 (u16_bytes (20 + r.payload_len)) in
    let b_6 = put_slice b_5 4 (u16_bytes 0) in
    let raw = x6 * 256 + x7 in
    let b_7 = put_slice b_6 6 (u16_bytes (raw % 2 ^ 13)) in
    let b_9 = put_slice b_7 6 (u16_bytes (16384 + raw % 2 ^ 13)) in
    let b_10 = put_slice b_9 6 (u16_bytes 16384) in
    let b_11 = put_slice b_10 8 (r.hop_limit ∷ []) in
    let b_12 = put_slice b_11 9 (number_of r.protocol ∷ []) in
    let b_13 = put_slice b_12 12 (u32_bytes r.src_addr) in
    rw
      (
        write_u8_lem b 0 (x0 % 16 + 64) (omega arith),
        first,
        write_u8_lem b_1 0 69 (omega arith),
        write_u8_lem b_2 1 (x1 % 4 + 0) (omega arith),
        second,
        write_u8_lem b_3 1 0 (omega arith),
        total,
        write_u16_lem b_4 2 (20 + r.payload_len) (omega arith),
        write_u16_lem b_5 4 0 (omega arith),
        write_u16_lem b_6 6 (raw % 2 ^ 13) (omega arith),
        cleared raw,
        no_more raw,
        write_u16_lem b_7 6 (raw % 2 ^ 13) (omega arith),
        cleared raw,
        no_frag raw,
        write_u16_lem b_7 6 (16384 + raw % 2 ^ 13) (omega arith),
        kept raw,
        no_offset raw,
        write_u16_lem b_9 6 16384 (omega arith),
        write_u8_lem b_10 8 r.hop_limit (omega arith),
        write_u8_lem b_11 9 (number_of r.protocol) (omega arith),
        write_u32_lem b_12 12 r.src_addr (omega arith),
        write_u32_lem b_13 16 r.dst_addr (omega arith),
      )
      refl

-- What `emit` leaves: the checksum is filled in, or zero.
abbrev pub IsWritten : Repr → Checksum → List ℕ → Type 0
IsWritten r sums b =
    (s0 : ℕ) × (s1 : ℕ) × (emit r b sums ≡ (
      if is_manual sums
      then fill_checksum (header_of r (s0 ∷ s1 ∷ []) (drop 20 b))
      else set_checksum 0 (header_of r (s0 ∷ s1 ∷ []) (drop 20 b))))

pub emit-IsWritten :
    (r : Repr) (sums : Checksum) (b : List ℕ)
    → 20 + r.payload_len < 2 ^ 16
    → 20 ≤ length b
    → IsWritten r sums b
emit-IsWritten r sums b fits room =
    five (IsWritten r sums) b (omega arith) (λ x0 x1 x2 x3 x4 b_1 l_1.
      five (λ c. IsWritten r sums (x0 ∷ x1 ∷ x2 ∷ x3 ∷ x4 ∷ c)) b_1 (omega arith)
        (λ x5 x6 x7 x8 x9 b_2 l_2.
          five (λ c. IsWritten r sums (x0 ∷ x1 ∷ x2 ∷ x3 ∷ x4 ∷ x5 ∷ x6 ∷ x7 ∷ x8 ∷ x9 ∷ c)) b_2
            (omega arith)
            (λ x10 x11 x12 x13 x14 b_3 l_3.
              five
                (λ c. IsWritten r sums (
                  x0 ∷ x1 ∷ x2 ∷ x3 ∷ x4 ∷ x5 ∷ x6 ∷ x7 ∷ x8 ∷ x9 ∷ x10 ∷ x11 ∷ x12 ∷ x13 ∷ x14
                  ∷ c))
                b_3 (omega arith)
                (λ x15 x16 x17 x18 x19 rest l_4. (
                  x10,
                  x11,
                  fixed_written r sums x0 x1 x2 x3 x4 x5 x6 x7 x8 x9 x10 x11 x12 x13 x14 x15 x16 x17
                      x18 x19 rest fits,
                )))))
