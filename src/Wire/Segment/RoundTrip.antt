-- ===== src/Wire/Segment/RoundTrip.antt =====
-- A header that `Repr::emit` of ethox/src/wire/tcp.rs writes is what `Repr::parse` reads.
use ethox.Base.{
  ℕ, ◌+◌, ◌-◌, ◌*◌, ◌/◌, ◌%◌, ◌^◌, ◌<◌, ◌≡◌, refl, ap, ◌∙◌, sym, false, Option, none, some, is_some,
  returns, List, [], ◌∷◌, ◌++◌, length, take, drop, ltb, ◌==◌, arith, length-append, length-drop,
  le→leb, take-append, drop-append,
}
use ethox.Wire.Flags
use ethox.Wire.Flags.{Flags}
use ethox.Wire.Repr.{Repr}
use ethox.Wire.Checked.{accept}
use ethox.Wire.Options.RoundTrip.{word_lem, double_lem}
use ethox.Wire.Segment
use ethox.Wire.Segment.{src_port, dst_port, seq_number, ack_number, window_len, payload_slice}
use ethox.Wire.Segment.Parse.{
  Checksum, ignored, parse, check_len, verify, acked, scan, nothing_found,
}
use ethox.Wire.Segment.Emit.{
  emit, header_len, buffer_len, ack_or_zero, scale_option, size_option, sack_option,
}
use ethox.Wire.Segment.Header.{
  IsHeader, header_len_lem, found_lem, sent_ranges, scale-IsPlain, size-IsPlain, sack_facts,
}
use ethox.Wire.Segment.Scanned.{scan-encoded}
use ethox.Wire.Segment.Written.{
  layout, sent_flags, sent_flags_lem, field_of, option_bytes, length-option_bytes,
  header_len-layout, options-layout, emit-IsWritten,
}

-- The header as it is sent: the flag for the acknowledgement goes with the number, and ranges only with it.
abbrev pub sent : Repr → Repr
sent r = record r { flags = sent_flags r; sack_ranges = sent_ranges r }

acked-layout :
    (number : Option ℕ) (f : Flags) (src dst seq field window : ℕ) (sums rest : List ℕ)
    → ack_or_zero number < 2 ^ 32
    → Flags.ack f ≡ is_some number
    → acked f (layout src dst seq (ack_or_zero number) field window sums rest) ≡ accept number
unfolding ack_number
acked-layout none f src dst seq field window sums rest fits e = rw e refl
acked-layout (some n) f src dst seq field window sums rest fits e = rw (e, double_lem n fits) refl

pub parse-layout :
    (r : Repr) (c : Checksum) (s0 s1 s2 s3 : ℕ) (rest : List ℕ)
    → IsHeader r
    → verify c (
        layout r.src_port r.dst_port r.seq_number
          (ack_or_zero r.ack_number)
          (field_of r)
          r.window_len
          (s0 ∷ s1 ∷ s2 ∷ s3 ∷ [])
          rest)
      ≡ accept tt
    → length rest ≡ header_len r - 20 + r.payload_len
    → take (header_len r - 20) rest ≡ option_bytes r
    → parse
        (layout r.src_port r.dst_port r.seq_number
          (ack_or_zero r.ack_number)
          (field_of r)
          r.window_len
          (s0 ∷ s1 ∷ s2 ∷ s3 ∷ [])
          rest)
        c
      ≡ accept (sent r)
unfolding parse check_len src_port dst_port seq_number window_len payload_slice Segment.flags
parse-layout r c s0 s1 s2 s3 rest v checked room options =
    let sums = s0 ∷ s1 ∷ s2 ∷ s3 ∷ [] in
    let b =
      layout r.src_port r.dst_port r.seq_number (ack_or_zero r.ack_number) (field_of r) r.window_len
        sums rest in
    let (low, whole, fits) = header_len_lem r in
    let (bits_fit, ack_flag) = sent_flags_lem r v in
    let (slice, tail) =
      options-layout r r.src_port r.dst_port r.seq_number (ack_or_zero r.ack_number) r.window_len s0
        s1 s2 s3 rest v (omega arith) in
    let long : ltb (length b) 20 ≡ false = ground arith in
    let whole_header : ltb (length b) (header_len r) ≡ false = ground arith in
    let long_header : ltb (header_len r) 20 ≡ false = ground arith in
    let src : (r.src_port == 0) ≡ false = ground (arith, v.src_given) in
    let dst : (r.dst_port == 0) ≡ false = ground (arith, v.dst_given) in
    let bits : (field_of r / 256 % 256 * 256 + field_of r % 256) % 2 ^ 9 ≡ (sent_flags r).bits =
      omega arith in
    let scanned : scan (length (option_bytes r)) (option_bytes r) nothing_found ≡ accept _ =
      scan-encoded (length (option_bytes r)) (header_len r - 20) (scale_option r) (size_option r)
        (sack_option r) nothing_found (scale-IsPlain r v) (size-IsPlain r v) (sack_facts r v).0
        (omega arith) in
    let payload : length (drop (header_len r - 20) rest) % 2 ^ 16 ≡ r.payload_len =
      omega (arith, length-drop (header_len r - 20) rest, v.payload_fits) in
    rw
      (
        long,
        header_len-layout r r.src_port r.dst_port r.seq_number (ack_or_zero r.ack_number)
            r.window_len sums rest v,
        whole_header,
        long_header,
        word_lem r.src_port v.src_fits,
        src,
        word_lem r.dst_port v.dst_fits,
        dst,
        checked,
        bits,
        acked-layout r.ack_number (sent_flags r) r.src_port r.dst_port r.seq_number (field_of r)
            r.window_len sums rest v.ack_fits ack_flag,
        slice,
        options,
        scanned,
        found_lem r v,
        double_lem r.seq_number v.seq_fits,
        word_lem r.window_len v.window_fits,
        le→leb (header_len r) (length b) (omega arith),
        tail,
        payload,
      )
      refl

-- A header that the format can carry, emitted into a buffer of its length, is parsed as the header that was sent,
-- and what stood behind it in the buffer is still there.
pub parse-emit :
    (r : Repr) (b : List ℕ)
    → IsHeader r
    → length b ≡ buffer_len r
    → (b' : List ℕ) × (emit r b ≡ returns b')
      × (length b' ≡ length b)
      × (drop (header_len r) b' ≡ drop (header_len r) b)
      × (parse b' ignored ≡ accept (sent r))
unfolding buffer_len
parse-emit r b v size =
    let (s0, s1, _, _, written) = emit-IsWritten r b v (omega arith) in
    let rest = option_bytes r ++ drop (header_len r) b in
    let b' =
      layout r.src_port r.dst_port r.seq_number (ack_or_zero r.ack_number) (field_of r) r.window_len
        (s0 ∷ s1 ∷ 0 ∷ 0 ∷ []) rest in
    let (low, whole, fits) = header_len_lem r in
    let l = length-option_bytes r in
    let room : length rest ≡ header_len r - 20 + r.payload_len = omega (
      arith,
      length-append (option_bytes r) (drop (header_len r) b),
      length-drop (header_len r) b,
    ) in
    let (slice, tail) =
      options-layout r r.src_port r.dst_port r.seq_number (ack_or_zero r.ack_number) r.window_len s0
        s1 0 0 rest v (omega arith) in
    let behind : drop (header_len r) b' ≡ drop (header_len r) b =
      tail ∙ ap (λ n. drop n rest) (sym l) ∙ drop-append (option_bytes r) (drop (header_len r) b) in
    let options : take (header_len r - 20) rest ≡ option_bytes r =
      ap (λ n. take n rest) (sym l) ∙ take-append (option_bytes r) (drop (header_len r) b) in
    let l' : length b' ≡ length b = omega arith in
    (
      b',
      written,
      l',
      behind,
      parse-layout r ignored s0 s1 0 0 rest v (unfold verify in refl) room options,
    )
