-- ===== src/Wire/Ipv4/Sent.antt =====
-- The header that `Repr::emit` of ethox/src/wire/ipv4.rs leaves: its checksum, and what a receiver reads.
use ethox.Base.{
  ℕ, ◌+◌, ◌-◌, ◌*◌, ◌/◌, ◌%◌, ◌^◌, ◌<◌, ◌≤◌, ◌≡◌, refl, ap, false, true, returns, List, [], ◌∷◌,
  length, take, arith, length-take, ltb, le→leb,
}
use ethox.Wire.Bytes.{u16_bytes}
use ethox.Wire.Bytes.Writes.{write_u16_lem}
use ethox.Wire.Checked.{accept}
use ethox.Wire.Checksum.{propagate_carries}
use ethox.Wire.Checksum.Carries.{carries_lem}
use ethox.Wire.Checksum.Sums.{IsOctets, words, words_bound, data_sum-words}
use ethox.Wire.Ipv4.{
  Repr, manual, number_of, from_number, header_sum, set_checksum, fill_checksum, verify_checksum,
  version, header_len, total_len, more_frags, frag_offset, hop_limit, protocol, src_addr, dst_addr,
  payload_slice,
}
use ethox.Wire.Ipv4.Parse.{check_len, wrong, fragmented, parse}
use ethox.Wire.Ipv4.Written.{header_of}

-- The ranges of the fields. A protocol that has a name of its own is not named by its number.
pub record IsRepr (r : Repr) : Type 0 where
  pub src_fits : r.src_addr < 2 ^ 32
  pub dst_fits : r.dst_addr < 2 ^ 32
  pub hops_fit : r.hop_limit < 2 ^ 8
  pub protocol_fits : number_of r.protocol < 2 ^ 8
  pub protocol_named : from_number (number_of r.protocol) ≡ r.protocol
  pub payload_fits : 20 + r.payload_len < 2 ^ 16

header-IsOctets :
    (r : Repr) (s0 s1 : ℕ)
    → IsRepr r
    → s0 < 256
    → s1 < 256
    → IsOctets (header_of r (s0 ∷ s1 ∷ []) [])
header-IsOctets r s0 s1 v h0 h1 = (
  omega arith,
  (
    omega arith,
    (
      omega arith,
      (
        omega arith,
        (
          omega arith,
          (
            omega arith,
            (
              omega arith,
              (
                omega arith,
                (
                  v.hops_fit,
                  (
                    v.protocol_fits,
                    (
                      h0,
                      (
                        h1,
                        (
                          omega arith,
                          (
                            omega arith,
                            (
                              omega arith,
                              (
                                omega arith,
                                (omega arith, (omega arith, (omega arith, (omega arith, tt)))),
                              ),
                            ),
                          ),
                        ),
                      ),
                    ),
                  ),
                ),
              ),
            ),
          ),
        ),
      ),
    ),
  ),
)

header_sum_lem :
    (r : Repr) (s0 s1 : ℕ) (rest : List ℕ)
    → IsRepr r
    → s0 < 256
    → s1 < 256
    → header_sum (header_of r (s0 ∷ s1 ∷ []) rest)
      ≡ returns (propagate_carries (words (header_of r (s0 ∷ s1 ∷ []) [])))
unfolding header_sum header_len
header_sum_lem r s0 s1 rest v h0 h1 =
    rw (le→leb 20 (length (header_of r (s0 ∷ s1 ∷ []) rest)) (omega arith)) (
      ap returns (
        data_sum-words (header_of r (s0 ∷ s1 ∷ []) []) (header-IsOctets r s0 s1 v h0 h1)
          (omega arith)))

complement_alone :
    (w : ℕ) → w < 2 ^ 31 → propagate_carries (w + (65535 - propagate_carries w)) ≡ 65535
complement_alone w h =
    let (q0, e0, b0, z0) = carries_lem w (omega arith) in
    let (q1, e1, b1, z1) = carries_lem (w + (65535 - propagate_carries w)) (omega arith) in
    ground arith

-- The checksum that is filled in, and that the check passes.
pub filled_lem :
    (r : Repr) (s0 s1 : ℕ) (rest : List ℕ)
    → IsRepr r
    → let w = words (header_of r (0 ∷ 0 ∷ []) []) in
      let value = 65535 - propagate_carries w in
      (fill_checksum (header_of r (s0 ∷ s1 ∷ []) rest)
        ≡ returns (header_of r (u16_bytes value) rest))
      × (verify_checksum (header_of r (u16_bytes value) rest) ≡ returns true)
unfolding fill_checksum set_checksum verify_checksum
filled_lem r s0 s1 rest v =
    let w = words (header_of r (0 ∷ 0 ∷ []) []) in
    let value = 65535 - propagate_carries w in
    let octets = header-IsOctets r 0 0 v (omega arith) (omega arith) in
    let change : words (header_of r (u16_bytes value) []) ≡ w + value = omega arith in
    let small : w < 2 ^ 31 = omega (arith, words_bound (header_of r (0 ∷ 0 ∷ []) []) octets) in
    (
      rw
          (
            write_u16_lem (header_of r (s0 ∷ s1 ∷ []) rest) 10 0 (omega arith),
            header_sum_lem r 0 0 rest v (omega arith) (omega arith),
            write_u16_lem (header_of r (0 ∷ 0 ∷ []) rest) 10 value (omega arith),
          )
          refl,
      rw
          (
            header_sum_lem r (value / 256 % 256) (value % 256) rest v (omega arith) (omega arith),
            change,
            complement_alone w small,
          )
          refl,
    )

-- A field is read as it was written.
pub short_lem : (x : ℕ) → x < 2 ^ 16 → x / 256 % 256 * 256 + x % 256 ≡ x
short_lem x h = omega arith

long_lem :
    (x : ℕ)
    → x < 2 ^ 32
    → (x / 65536 / 256 % 256 * 256 + x / 65536 % 256) * 65536
        + (x % 65536 / 256 % 256 * 256 + x % 65536 % 256)
      ≡ x
long_lem x h = omega arith

pub payload_lem :
    (r : Repr) (sum : ℕ) (rest : List ℕ)
    → IsRepr r
    → r.payload_len ≤ length rest
    → payload_slice (header_of r (u16_bytes sum) rest) ≡ returns (take r.payload_len rest)
unfolding payload_slice header_len total_len
payload_lem r sum rest v room =
    let same : 20 + r.payload_len - 20 ≡ r.payload_len = omega arith in
    rw
      (
        short_lem (20 + r.payload_len) v.payload_fits,
        le→leb 20 (20 + r.payload_len) (omega arith),
        le→leb (20 + r.payload_len) (length (header_of r (u16_bytes sum) rest)) (omega arith),
        same,
      )
      refl

check_len_lem :
    (r : Repr) (sum : ℕ) (rest : List ℕ)
    → IsRepr r
    → r.payload_len ≤ length rest
    → check_len (header_of r (u16_bytes sum) rest) ≡ accept tt
unfolding check_len header_len total_len
check_len_lem r sum rest v room =
    let b = header_of r (u16_bytes sum) rest in
    let long : ltb (length b) 20 ≡ false = ground arith in
    let inside : ltb (20 + r.payload_len) 20 ≡ false = ground arith in
    let whole : ltb (length b) (20 + r.payload_len) ≡ false = ground arith in
    rw (long, short_lem (20 + r.payload_len) v.payload_fits, inside, whole) refl

pub parse_lem :
    (r : Repr) (sum : ℕ) (rest : List ℕ)
    → IsRepr r
    → r.payload_len ≤ length rest
    → verify_checksum (header_of r (u16_bytes sum) rest) ≡ returns true
    → parse (header_of r (u16_bytes sum) rest) manual ≡ accept r
unfolding parse wrong fragmented version header_len total_len src_addr dst_addr protocol hop_limit
    more_frags frag_offset
parse_lem r sum rest v room checked =
    let same : 20 + r.payload_len - 20 ≡ r.payload_len = omega arith in
    let whole : ltb (length (take r.payload_len rest)) r.payload_len ≡ false =
      ground (arith, length-take r.payload_len rest) in
    rw
      (
        check_len_lem r sum rest v room,
        checked,
        short_lem (20 + r.payload_len) v.payload_fits,
        le→leb 20 (20 + r.payload_len) (omega arith),
        le→leb (20 + r.payload_len) (length (header_of r (u16_bytes sum) rest)) (omega arith),
        same,
        whole,
        long_lem r.src_addr v.src_fits,
        long_lem r.dst_addr v.dst_fits,
        v.protocol_named,
      )
      refl
