-- ===== src/Wire/Segment/Sent.antt =====
-- A segment of ethox/src/wire/tcp.rs that is emitted, and whose checksum is filled in, as its receiver parses it.
use ethox.Base.{
  ℕ, zero, suc, ◌+◌, ◌-◌, ◌/◌, ◌%◌, ◌^◌, ◌<◌, ◌≡◌, refl, ap, ◌∙◌, sym, Option, none, some, returns,
  List, [], ◌∷◌, ◌++◌, length, take, drop, get_elem?, arith, length-append, length-drop,
  take-append,
}
use ethox.Wire.Repr.{Repr, Address}
use ethox.Wire.Bytes.{u16_bytes, u32_bytes}
use ethox.Wire.Checked.{accept}
use ethox.Wire.Checksum.{pseudo_header}
use ethox.Wire.Checksum.Sums.{IsOctets}
use ethox.Wire.Options.{
  TcpOption, end_of_list, no_operation, max_segment_size, window_scale, sack_permitted, sack_range,
  unknown, ranges, buffer_len as option_len,
}
use ethox.Wire.Options.RoundTrip.{encode, range_bytes, IsWireOption}
use ethox.Wire.Options.Emitted.{few_ranges}
use ethox.Wire.Segment.{fill_checksum}
use ethox.Wire.Segment.Parse.{manual, parse, verify}
use ethox.Wire.Segment.Emit.{
  emit, header_len, buffer_len, ack_or_zero, scale_option, size_option, sack_option,
}
use ethox.Wire.Segment.Header.{IsHeader, header_len_lem, scale-IsPlain, size-IsPlain, sack_facts}
use ethox.Wire.Segment.Scanned.{IsPlain, encode_maybe, zeros}
use ethox.Wire.Segment.Written.{layout, field_of, option_bytes, length-option_bytes, emit-IsWritten}
use ethox.Wire.Segment.RoundTrip.{sent, parse-layout}
use ethox.Wire.Segment.Filled.{
  IsOctets-append, IsOctets-drop, u16_bytes-IsOctets, with_checksum, fill-verify,
}

octet_at : (b : List ℕ) (i x : ℕ) → IsOctets b → get_elem? b i ≡ some x → x < 256
octet_at [] i x h e = cc
octet_at (y ∷ b) zero x (hy, h) e = let same : y ≡ x = cc in omega arith
octet_at (y ∷ b) (suc i) x (hy, h) e = octet_at b i x h e

u32_bytes-IsOctets : (v : ℕ) → IsOctets (u32_bytes v)
u32_bytes-IsOctets v =
    IsOctets-append (u16_bytes _) (u16_bytes _) (u16_bytes-IsOctets _) (u16_bytes-IsOctets _)

range_bytes-IsOctets : (rs : List (ℕ × ℕ)) → IsOctets (range_bytes rs)
range_bytes-IsOctets [] = tt
range_bytes-IsOctets ((a, b) ∷ rs) =
    IsOctets-append (u32_bytes a) (u32_bytes b ++ range_bytes rs) (u32_bytes-IsOctets a) (
      IsOctets-append (u32_bytes b) (range_bytes rs) (u32_bytes-IsOctets b)
        (range_bytes-IsOctets rs))

option-IsOctets : (o : Option TcpOption) → IsPlain o → IsOctets (encode_maybe o)
unfolding encode IsWireOption option_len
option-IsOctets none h = tt
option-IsOctets (some end_of_list) h = absurd h
option-IsOctets (some no_operation) h = (omega arith, tt)
option-IsOctets (some (max_segment_size value)) h =
    (omega arith, (omega arith, u16_bytes-IsOctets value))
option-IsOctets (some (window_scale value)) h = (omega arith, (omega arith, (h, tt)))
option-IsOctets (some sack_permitted) h = (omega arith, (omega arith, tt))
option-IsOctets (some (sack_range s)) h =
    (omega arith, (omega (arith, few_ranges s), range_bytes-IsOctets (ranges s)))
option-IsOctets (some (unknown kind items)) h = absurd h

pub zeros-IsOctets : (n : ℕ) → IsOctets (zeros n)
zeros-IsOctets zero = tt
zeros-IsOctets (suc n) = (omega arith, zeros-IsOctets n)

option_bytes-IsOctets : (r : Repr) → IsHeader r → IsOctets (option_bytes r)
option_bytes-IsOctets r v =
    IsOctets-append (encode_maybe (scale_option r)) _
      (option-IsOctets (scale_option r) (scale-IsPlain r v))
      (IsOctets-append (encode_maybe (size_option r)) _
        (option-IsOctets (size_option r) (size-IsPlain r v))
        (IsOctets-append (encode_maybe (sack_option r)) _
          (option-IsOctets (sack_option r) (sack_facts r v).0) (zeros-IsOctets _)))

layout-IsOctets :
    (src dst seq ack field window s0 s1 : ℕ) (rest : List ℕ)
    → s0 < 256
    → s1 < 256
    → IsOctets rest
    → IsOctets (layout src dst seq ack field window (s0 ∷ s1 ∷ 0 ∷ 0 ∷ []) rest)
layout-IsOctets src dst seq ack field window s0 s1 rest h0 h1 h = (
  omega arith,
  (
    omega arith,
    (
      omega arith,
      (
        omega arith,
        (
          omega arith,
          (
            omega arith,
            (
              omega arith,
              (
                omega arith,
                (
                  omega arith,
                  (
                    omega arith,
                    (
                      omega arith,
                      (
                        omega arith,
                        (
                          omega arith,
                          (
                            omega arith,
                            (
                              omega arith,
                              (omega arith, (h0, (h1, (omega arith, (omega arith, h))))),
                            ),
                          ),
                        ),
                      ),
                    ),
                  ),
                ),
              ),
            ),
          ),
        ),
      ),
    ),
  ),
)

-- A header that the format can carry is emitted into a buffer of octets of its length, the checksum is filled in, and
-- the other end of the connection, which checks it, parses the header that was sent.
pub send-receive :
    (r : Repr) (b : List ℕ) (src dst : Address) (header : ℕ)
    → IsHeader r
    → IsOctets b
    → length b ≡ buffer_len r
    → length b < 2 ^ 16
    → pseudo_header src dst 6 (length b) ≡ returns header
    → (b' : List ℕ) × (b'' : List ℕ) × (emit r b ≡ returns b')
      × (fill_checksum src dst b' ≡ returns b'')
      × (parse b'' (manual src dst) ≡ accept (sent r))
unfolding buffer_len verify
send-receive r b src dst header v octets size fits e =
    let (s0, s1, at_0, at_1, written) = emit-IsWritten r b v (omega arith) in
    let rest = option_bytes r ++ drop (header_len r) b in
    let b' =
      layout r.src_port r.dst_port r.seq_number (ack_or_zero r.ack_number) (field_of r) r.window_len
        (s0 ∷ s1 ∷ 0 ∷ 0 ∷ []) rest in
    let (low, _, _) = header_len_lem r in
    let l = length-option_bytes r in
    let room : length rest ≡ header_len r - 20 + r.payload_len = omega (
      arith,
      length-append (option_bytes r) (drop (header_len r) b),
      length-drop (header_len r) b,
    ) in
    let l' : length b' ≡ length b = omega arith in
    let rest_octets =
      IsOctets-append (option_bytes r) (drop (header_len r) b) (option_bytes-IsOctets r v)
        (IsOctets-drop (header_len r) b octets) in
    let octets' : IsOctets b' =
      layout-IsOctets r.src_port r.dst_port r.seq_number (ack_or_zero r.ack_number) (field_of r)
        r.window_len s0 s1 rest (octet_at b 16 s0 octets at_0) (octet_at b 17 s1 octets at_1)
        rest_octets in
    let (value, filled, checked) =
      fill-verify src dst b' header octets' (omega arith) (omega arith)
        (ap (pseudo_header src dst 6) l' ∙ e) in
    let options : take (header_len r - 20) rest ≡ option_bytes r =
      ap (λ n. take n rest) (sym l) ∙ take-append (option_bytes r) (drop (header_len r) b) in
    (
      b',
      with_checksum b' value,
      written,
      filled,
      parse-layout r (manual src dst) (value / 256 % 256) (value % 256) 0 0 rest v (rw checked refl)
          room options,
    )
