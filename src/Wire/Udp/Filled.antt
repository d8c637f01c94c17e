-- ===== src/Wire/Udp/Filled.antt =====
-- `fill_checksum` and `verify_checksum` of ethox/src/wire/udp.rs.
use ethox.Base.{
  ℕ, ◌+◌, ◌-◌, ◌*◌, ◌/◌, ◌%◌, ◌^◌, ◌<◌, ◌≤◌, ◌≡◌, inl, inr, refl, ap, ◌∙◌, sym, true, returns, List,
  ◌++◌, length, take, arith, length-take, take_twice, u16_max, ◌==◌, Bool-cases, le→leb,
}
use ethox.Wire.Repr.{Address}
use ethox.Wire.Bytes.{u16_bytes}
use ethox.Wire.Bytes.Writes.{write_u16_lem}
use ethox.Wire.Checksum.{propagate_carries, data_sum, pseudo_header}
use ethox.Wire.Checksum.Carries.{carries_lem, combine_two, complement_lem}
use ethox.Wire.Checksum.Sums.{IsOctets, words, words_bound, data_sum-words}
use ethox.Wire.Segment.Filled.{IsOctets-take, header_fits, data_fits}
use ethox.Wire.Udp.{
  datagram_len, up_to, full_sum, not_zero, set_checksum, fill_checksum, verify_checksum,
}

-- The header and what follows it.
abbrev pub datagram : ℕ → ℕ → ℕ → ℕ → List ℕ → List ℕ
datagram src dst size sum rest =
    u16_bytes src ++ (u16_bytes dst ++ (u16_bytes size ++ (u16_bytes sum ++ rest)))

datagram-IsOctets :
    (src dst size sum : ℕ) (rest : List ℕ)
    → IsOctets rest
    → IsOctets (datagram src dst size sum rest)
datagram-IsOctets src dst size sum rest h = (
  omega arith,
  (
    omega arith,
    (omega arith, (omega arith, (omega arith, (omega arith, (omega arith, (omega arith, h)))))),
  ),
)

take-datagram :
    (src dst size sum n : ℕ) (rest : List ℕ)
    → 8 ≤ n
    → take n (datagram src dst size sum rest) ≡ datagram src dst size sum (take (n - 8) rest)
take-datagram src dst size sum n rest h =
    let e : 8 + (n - 8) ≡ n = omega arith in
    sym (
      take_twice 8 (n - 8) (datagram src dst size sum rest) (omega arith)
      ∙ ap (λ k. take k (datagram src dst size sum rest)) e)

words-datagram :
    (src dst size sum : ℕ) (rest : List ℕ)
    → src < 2 ^ 16
    → dst < 2 ^ 16
    → size < 2 ^ 16
    → sum < 2 ^ 16
    → words (datagram src dst size sum rest) ≡ src + dst + size + words rest + sum
words-datagram src dst size sum rest h1 h2 h3 h4 = omega arith

-- The sum of a datagram with its pseudo header, by its words.
full_sum_lem :
    (src dst : Address) (from to size sum : ℕ) (rest : List ℕ) (header : ℕ)
    → IsOctets rest
    → size < 2 ^ 16
    → 8 ≤ size
    → size ≤ 8 + length rest
    → pseudo_header src dst 17 size ≡ returns header
    → full_sum src dst (datagram from to size sum rest)
      ≡ returns (
          propagate_carries
            (header + propagate_carries (words (datagram from to size sum (take (size - 8) rest)))))
unfolding full_sum datagram_len
full_sum_lem src dst from to size sum rest header octets fits low room e =
    let b = datagram from to size sum rest in
    let cut = datagram from to size sum (take (size - 8) rest) in
    let field : size / 256 % 256 * 256 + size % 256 ≡ size = omega arith in
    let parted : up_to b size ≡ returns cut =
      rw (le→leb size (length b) (omega arith))
        (ap returns (take-datagram from to size sum size rest low)) in
    let size_cut : length cut ≤ 2 ^ 16 = omega (arith, length-take (size - 8) rest) in
    rw
      (
        field,
        e,
        parted,
        combine_two header (data_sum cut) (header_fits src dst 17 size header e) (data_fits cut),
        data_sum-words cut
            (datagram-IsOctets from to size sum (take (size - 8) rest)
              (IsOctets-take (size - 8) rest octets))
            size_cut,
      )
      (ap
        (λ w. returns (
          propagate_carries (
            header
            + propagate_carries (
                from / 256 % 256 * 256
                + from % 256
                + (to / 256 % 256 * 256
                    + to % 256
                    + (w + (sum / 256 % 256 * 256 + sum % 256 + words (take (size - 8) rest))))))))
        field)

-- The complement of a sum, or all ones instead of zero, makes the sum all ones.
complement_not_zero :
    (header rest : ℕ)
    → header < 2 ^ 16
    → rest < 2 ^ 31
    → let total = propagate_carries (header + propagate_carries rest) in
      propagate_carries (header + propagate_carries (rest + not_zero (65535 - total))) ≡ 65535
complement_not_zero header rest hh hr =
    let total = propagate_carries (header + propagate_carries rest) in
    let (q0, e0, b0, z0) = carries_lem rest (omega arith) in
    let (q1, e1, b1, z1) = carries_lem (header + propagate_carries rest) (omega arith) in
    let (q2, e2, b2, z2) = carries_lem (rest + 65535) (omega arith) in
    let (q3, e3, b3, z3) = carries_lem (header + propagate_carries (rest + 65535)) (omega arith) in
    elim (Bool-cases (65535 - total == 0)) [
      | inl z ↦
          let full : total ≡ 65535 = ground (arith, z) in
          let all : propagate_carries (header + propagate_carries (rest + 65535)) ≡ 65535 =
            ground arith in
          rw (z, not_zero) all
      | inr z ↦ rw (z, not_zero) (complement_lem header rest hh hr)
    ]

-- Filling in the checksum of a datagram, between addresses of one family, changes nothing but the checksum, which is
-- not zero then, and the datagram passes the check.
pub fill-verify :
    (src dst : Address) (from to size sum : ℕ) (rest : List ℕ) (header : ℕ)
    → IsOctets rest
    → from < 2 ^ 16
    → to < 2 ^ 16
    → size < 2 ^ 16
    → 8 ≤ size
    → size ≤ 8 + length rest
    → pseudo_header src dst 17 size ≡ returns header
    → (value : ℕ) × (0 < value)
      × (value < 2 ^ 16)
      × (fill_checksum src dst (datagram from to size sum rest)
          ≡ returns (datagram from to size value rest))
      × (verify_checksum src dst (datagram from to size value rest) ≡ returns true)
unfolding fill_checksum set_checksum verify_checksum
fill-verify src dst from to size sum rest header octets h1 h2 h3 low room e =
    let xs = take (size - 8) rest in
    let plain = words (datagram from to size 0 xs) in
    let total = propagate_carries (header + propagate_carries plain) in
    let value = not_zero (u16_max - total) in
    let fits : (0 < value) × (value < 2 ^ 16) = ground arith in
    let plain_words = words-datagram from to size 0 xs h1 h2 h3 (omega arith) in
    let change : words (datagram from to size value xs) ≡ plain + value =
      words-datagram from to size value xs h1 h2 h3 fits.1 ∙ omega arith in
    let small : plain < 2 ^ 31 = omega (
      arith,
      words_bound (datagram from to size 0 xs)
          (datagram-IsOctets from to size 0 xs (IsOctets-take (size - 8) rest octets)),
      length-take (size - 8) rest,
    ) in
    let header_small = header_fits src dst 17 size header e in
    (
      value,
      fits.0,
      fits.1,
      rw
          (
            write_u16_lem (datagram from to size sum rest) 6 0 (omega arith),
            full_sum_lem src dst from to size 0 rest header octets h3 low room e,
            write_u16_lem (datagram from to size 0 rest) 6 value (omega arith),
          )
          refl,
      rw
          (
            full_sum_lem src dst from to size value rest header octets h3 low room e,
            change,
            complement_not_zero header plain header_small small,
          )
          refl,
    )
