-- ===== src/Wire/Segment/Written.antt =====
-- The buffer that `Repr::emit` of ethox/src/wire/tcp.rs leaves.
use ethox.Base.{
  get_elem?, some, ℕ, ◌>>=◌, ◌+◌, ◌-◌, ◌*◌, ◌/◌, ◌%◌, ◌^◌, ◌<◌, ◌≤◌, ◌≡◌, refl, ap, ◌∙◌, sym, Bool,
  true, false, ◌&&◌, is_some, returns, List, [], ◌∷◌, ◌++◌, length, take, drop, ltb, if◌then◌else◌,
  arith, length-take, le→leb, drop_twice, put_slice,
}
use ethox.Wire.Flags
use ethox.Wire.Flags.{Flags}
use ethox.Wire.Flags.Bits.{exhausts, exhausts_lem}
use ethox.Wire.Repr.{Repr}
use ethox.Wire.Bytes.{u16_bytes, u32_bytes}
use ethox.Wire.Bytes.Writes.{write_u16_lem, write_u32_lem}
use ethox.Wire.Segment
use ethox.Wire.Segment.{
  set_src_port, set_dst_port, set_seq_number, set_ack_number, set_window_len, set_header_len,
  set_flags, set_urgent_at,
}
use ethox.Wire.Segment.Emit.{
  emit, emit_in_place, header_len, scale_option, size_option, sack_option, ack_or_zero,
}
use ethox.Wire.Segment.Header.{IsHeader, header_len_lem, scale-IsPlain, size-IsPlain, sack_facts}
use ethox.Wire.Segment.Scanned.{encoded, length-encoded, emit_options-encoded}

-- The fixed part of a header, and what follows it.
abbrev pub layout : ℕ → ℕ → ℕ → ℕ → ℕ → ℕ → List ℕ → List ℕ → List ℕ
layout src dst seq ack field window sums rest =
    u16_bytes src
    ++ (u16_bytes dst
        ++ (u32_bytes seq
            ++ (u32_bytes ack ++ (u16_bytes field ++ (u16_bytes window ++ (sums ++ rest))))))

-- The flags with the one for the acknowledgement put right.
abbrev pub sent_flags : Repr → Flags
sent_flags r = Flags.set_ack (is_some r.ack_number) r.flags

same : Bool → Bool → Bool
same true b = b
same false b = if b then false else true

flag_test : Bool → ℕ → Bool
flag_test value bits =
    let f = Flags.set_ack value record { bits = bits } in ltb f.bits 512 && same value (Flags.ack f)

flag_test_lem : (value : Bool) (bits : ℕ) → bits < 512 → flag_test value bits ≡ true
unfolding flag_test same exhausts Flags.set_ack Flags.ack
flag_test_lem true bits h = exhausts_lem (flag_test true) 512 bits h refl
flag_test_lem false bits h = exhausts_lem (flag_test false) 512 bits h refl

same_lem : (a b : Bool) → same a b ≡ true → b ≡ a
unfolding same
same_lem true b h = h
same_lem false true h = cc
same_lem false false h = refl

pub sent_flags_lem :
    (r : Repr)
    → IsHeader r
    → ((sent_flags r).bits < 2 ^ 9) × (Flags.ack (sent_flags r) ≡ is_some r.ack_number)
unfolding flag_test
sent_flags_lem r v =
    let passed = flag_test_lem (is_some r.ack_number) r.flags.bits v.flags_fit in
    let agrees : same (is_some r.ack_number) (Flags.ack (sent_flags r)) ≡ true = ground arith in
    (ground arith, same_lem (is_some r.ack_number) (Flags.ack (sent_flags r)) agrees)

-- The field of the header's length and the flags.
abbrev pub field_of : Repr → ℕ
field_of r = header_len r / 4 * 2 ^ 12 + (sent_flags r).bits

fixed_written :
    (r : Repr) (x0 x1 x2 x3 x4 x5 x6 x7 x8 x9 x10 x11 x12 x13 x14 x15 x16 x17 x18 x19 : ℕ)
    (rest : List ℕ)
    → IsHeader r
    → emit r (
        x0 ∷ x1 ∷ x2 ∷ x3 ∷ x4 ∷ x5 ∷ x6 ∷ x7 ∷ x8 ∷ x9 ∷ x10 ∷ x11 ∷ x12 ∷ x13 ∷ x14 ∷ x15 ∷ x16
        ∷ x17 ∷ x18 ∷ x19 ∷ rest)
      ≡ (emit_in_place r (
            layout r.src_port r.dst_port r.seq_number
              (ack_or_zero r.ack_number)
              (field_of r)
              r.window_len
              (x16 ∷ x17 ∷ x18 ∷ x19 ∷ [])
              rest)
          >>= set_urgent_at 0)
unfolding emit set_src_port set_dst_port set_seq_number set_ack_number set_window_len set_header_len
    set_flags
fixed_written r x0 x1 x2 x3 x4 x5 x6 x7 x8 x9 x10 x11 x12 x13 x14 x15 x16 x17 x18 x19 rest v =
    let b : List ℕ =
      x0 ∷ x1 ∷ x2 ∷ x3 ∷ x4 ∷ x5 ∷ x6 ∷ x7 ∷ x8 ∷ x9 ∷ x10 ∷ x11 ∷ x12 ∷ x13 ∷ x14 ∷ x15 ∷ x16
      ∷ x17 ∷ x18 ∷ x19 ∷ rest in
    let b_1 = put_slice b 0 (u16_bytes r.src_port) in
    let b_2 = put_slice b_1 2 (u16_bytes r.dst_port) in
    let b_3 = put_slice b_2 4 (u32_bytes r.seq_number) in
    let b_4 = put_slice b_3 8 (u32_bytes (ack_or_zero r.ack_number)) in
    let b_5 = put_slice b_4 14 (u16_bytes r.window_len) in
    let raw = (x12 * 256 + x13) % 2 ^ 12 + header_len r % 2 ^ 8 / 4 * 2 ^ 12 % 2 ^ 16 in
    let b_6 = put_slice b_5 12 (u16_bytes raw) in
    let (_, whole, fits) = header_len_lem r in
    let (bits_fit, _) = sent_flags_lem r v in
    let field : (raw / 256 % 256 * 256 + raw % 256) / 2 ^ 12 * 2 ^ 12 + (sent_flags r).bits % 2 ^ 9
        ≡ field_of r =
      omega arith in
    rw
      (
        write_u16_lem b 0 r.src_port (omega arith),
        write_u16_lem b_1 2 r.dst_port (omega arith),
        write_u32_lem b_2 4 r.seq_number (omega arith),
        write_u32_lem b_3 8 (ack_or_zero r.ack_number) (omega arith),
        write_u16_lem b_4 14 r.window_len (omega arith),
        write_u16_lem b_5 12 raw (omega arith),
        field,
        write_u16_lem b_6 12 (field_of r) (omega arith),
      )
      refl

-- The octets of the options, with their padding.
abbrev pub option_bytes : Repr → List ℕ
option_bytes r = encoded (scale_option r) (size_option r) (sack_option r) (header_len r - 20)

pub length-option_bytes : (r : Repr) → length (option_bytes r) ≡ header_len r - 20
length-option_bytes r =
    length-encoded (scale_option r) (size_option r) (sack_option r) (header_len r - 20)
      (omega (arith, header_len_lem r))

-- Reading the length of a header that is written.
pub header_len-layout :
    (r : Repr) (src dst seq ack window : ℕ) (sums rest : List ℕ)
    → IsHeader r
    → Segment.header_len (layout src dst seq ack (field_of r) window sums rest)
      ≡ returns (header_len r)
unfolding Segment.header_len
header_len-layout r src dst seq ack window sums rest v =
    let (_, whole, fits) = header_len_lem r in
    let (bits_fit, _) = sent_flags_lem r v in
    let e : (field_of r / 256 % 256 * 256 + field_of r % 256) / 2 ^ 12 * 4 % 2 ^ 8 ≡ header_len r =
      omega arith in
    ap returns e

-- The slice of the options, and what follows the header.
pub options-layout :
    (r : Repr) (src dst seq ack window s0 s1 s2 s3 : ℕ) (rest : List ℕ)
    → IsHeader r
    → header_len r ≤ 20 + length rest
    → let b = layout src dst seq ack (field_of r) window (s0 ∷ s1 ∷ s2 ∷ s3 ∷ []) rest in
      (Segment.options b ≡ returns (take (header_len r - 20) rest))
      × (drop (header_len r) b ≡ drop (header_len r - 20) rest)
unfolding Segment.options
options-layout r src dst seq ack window s0 s1 s2 s3 rest v room =
    let b = layout src dst seq ack (field_of r) window (s0 ∷ s1 ∷ s2 ∷ s3 ∷ []) rest in
    let (low, whole, fits) = header_len_lem r in
    let e : 20 + (header_len r - 20) ≡ header_len r = omega arith in
    (
      rw
          (
            header_len-layout r src dst seq ack window (s0 ∷ s1 ∷ s2 ∷ s3 ∷ []) rest v,
            le→leb 20 (header_len r) (omega arith),
            le→leb (header_len r) (length b) (omega arith),
          )
          refl,
      ap (λ n. drop n b) (sym e) ∙ sym (drop_twice 20 (header_len r - 20) b),
    )

options_written :
    (r : Repr) (src dst seq ack window s0 s1 s2 s3 : ℕ) (rest : List ℕ)
    → IsHeader r
    → header_len r ≤ 20 + length rest
    → let sums = s0 ∷ s1 ∷ s2 ∷ s3 ∷ [] in
      emit_in_place r (layout src dst seq ack (field_of r) window sums rest)
      ≡ returns (
          layout src dst seq ack
            (field_of r)
            window
            sums
            (option_bytes r ++ drop (header_len r - 20) rest))
unfolding emit_in_place
options_written r src dst seq ack window s0 s1 s2 s3 rest v room =
    let (slice, tail) = options-layout r src dst seq ack window s0 s1 s2 s3 rest v room in
    let l : length (take (header_len r - 20) rest) ≡ header_len r - 20 =
      omega (arith, length-take (header_len r - 20) rest) in
    rw
      (
        header_len-layout r src dst seq ack window (s0 ∷ s1 ∷ s2 ∷ s3 ∷ []) rest v,
        slice,
        emit_options-encoded r (take (header_len r - 20) rest) (scale-IsPlain r v)
            (size-IsPlain r v) (sack_facts r v).0 (omega (arith, header_len_lem r)),
        l,
        tail,
      )
      refl

pub five :
    (P : List ℕ → Type 0) (b : List ℕ)
    → 5 ≤ length b
    → ((v w x y z : ℕ) (rest : List ℕ) → length b ≡ 5 + length rest → P (v ∷ w ∷ x ∷ y ∷ z ∷ rest))
    → P b
five P [] h k = absurd (omega arith)
five P (_ ∷ []) h k = absurd (omega arith)
five P (_ ∷ _ ∷ []) h k = absurd (omega arith)
five P (_ ∷ _ ∷ _ ∷ []) h k = absurd (omega arith)
five P (_ ∷ _ ∷ _ ∷ _ ∷ []) h k = absurd (omega arith)
five P (v ∷ w ∷ x ∷ y ∷ z ∷ rest) h k = k v w x y z rest (omega arith)

-- What a buffer that is long enough holds after `emit`: the header, then what stood behind its end. The two
-- octets of the checksum stay as they were.
abbrev pub IsWritten : Repr → List ℕ → Type 0
IsWritten r b =
    (s0 : ℕ) × (s1 : ℕ) × (get_elem? b 16 ≡ some s0)
    × (get_elem? b 17 ≡ some s1)
    × (emit r b
        ≡ returns (
            layout r.src_port r.dst_port r.seq_number (ack_or_zero r.ack_number) (field_of r)
              r.window_len (s0 ∷ s1 ∷ 0 ∷ 0 ∷ []) (option_bytes r ++ drop (header_len r) b)))

written_lem :
    (r : Repr) (x0 x1 x2 x3 x4 x5 x6 x7 x8 x9 x10 x11 x12 x13 x14 x15 x16 x17 x18 x19 : ℕ)
    (rest : List ℕ)
    → IsHeader r
    → header_len r ≤ 20 + length rest
    → IsWritten r (
        x0 ∷ x1 ∷ x2 ∷ x3 ∷ x4 ∷ x5 ∷ x6 ∷ x7 ∷ x8 ∷ x9 ∷ x10 ∷ x11 ∷ x12 ∷ x13 ∷ x14 ∷ x15 ∷ x16
        ∷ x17 ∷ x18 ∷ x19 ∷ rest)
unfolding set_urgent_at
written_lem r x0 x1 x2 x3 x4 x5 x6 x7 x8 x9 x10 x11 x12 x13 x14 x15 x16 x17 x18 x19 rest v room =
    let b : List ℕ =
      x0 ∷ x1 ∷ x2 ∷ x3 ∷ x4 ∷ x5 ∷ x6 ∷ x7 ∷ x8 ∷ x9 ∷ x10 ∷ x11 ∷ x12 ∷ x13 ∷ x14 ∷ x15 ∷ x16
      ∷ x17 ∷ x18 ∷ x19 ∷ rest in
    let e : 20 + (header_len r - 20) ≡ header_len r = omega (arith, header_len_lem r) in
    let tail : drop (header_len r - 20) rest ≡ drop (header_len r) b =
      drop_twice 20 (header_len r - 20) b ∙ ap (λ n. drop n b) e in
    let after =
      layout r.src_port r.dst_port r.seq_number (ack_or_zero r.ack_number) (field_of r) r.window_len
        (x16 ∷ x17 ∷ x18 ∷ x19 ∷ []) (option_bytes r ++ drop (header_len r - 20) rest) in
    (
      x16,
      x17,
      refl,
      refl,
      fixed_written r x0 x1 x2 x3 x4 x5 x6 x7 x8 x9 x10 x11 x12 x13 x14 x15 x16 x17 x18 x19 rest v
          ∙ (rw
              (
                options_written r r.src_port r.dst_port r.seq_number (ack_or_zero r.ack_number)
                    r.window_len x16 x17 x18 x19 rest v room,
                write_u16_lem after 18 0 (omega arith),
                tail,
              )
              refl),
    )

pub emit-IsWritten : (r : Repr) (b : List ℕ) → IsHeader r → header_len r ≤ length b → IsWritten r b
emit-IsWritten r b v room =
    let (low, _, _) = header_len_lem r in
    five (IsWritten r) b (omega arith) (λ x0 x1 x2 x3 x4 b_1 l_1.
      five (λ c. IsWritten r (x0 ∷ x1 ∷ x2 ∷ x3 ∷ x4 ∷ c)) b_1 (omega arith)
        (λ x5 x6 x7 x8 x9 b_2 l_2.
          five (λ c. IsWritten r (x0 ∷ x1 ∷ x2 ∷ x3 ∷ x4 ∷ x5 ∷ x6 ∷ x7 ∷ x8 ∷ x9 ∷ c)) b_2
            (omega arith)
            (λ x10 x11 x12 x13 x14 b_3 l_3.
              five
                (λ c. IsWritten r (
                  x0 ∷ x1 ∷ x2 ∷ x3 ∷ x4 ∷ x5 ∷ x6 ∷ x7 ∷ x8 ∷ x9 ∷ x10 ∷ x11 ∷ x12 ∷ x13 ∷ x14
                  ∷ c))
                b_3 (omega arith)
                (λ x15 x16 x17 x18 x19 rest l_4.
                  written_lem r x0 x1 x2 x3 x4 x5 x6 x7 x8 x9 x10 x11 x12 x13 x14 x15 x16 x17 x18
                    x19 rest v (omega arith)))))
