-- ===== src/Wire/Segment/Filled.antt =====
-- `fill_checksum` and `verify_checksum` of ethox/src/wire/tcp.rs.
use ethox.Base.{
  ℕ, zero, suc, ◌+◌, ◌-◌, ◌%◌, ◌^◌, ◌<◌, ◌≤◌, ◌≡◌, refl, ap, ◌∙◌, true, returns, panics, List, [],
  ◌∷◌, ◌++◌, length, take, drop, arith, length-take, put_slice, length-put_slice, put_slice_over,
  u16_max,
}
use ethox.Wire.Repr.{Address, unspecified, ipv4, ipv6}
use ethox.Wire.Bytes.{u16_bytes}
use ethox.Wire.Bytes.Writes.{write_u16_lem}
use ethox.Wire.Checksum.{propagate_carries, combine, data_sum, pseudo_header}
use ethox.Wire.Checksum.Carries.{combine_two, complement_lem}
use ethox.Wire.Checksum.Sums.{IsOctets, words, words_bound, words-append, data_sum-words}
use ethox.Wire.Segment.{full_sum, set_checksum, fill_checksum, verify_checksum}

pub IsOctets-append : (xs ys : List ℕ) → IsOctets xs → IsOctets ys → IsOctets (xs ++ ys)
IsOctets-append [] ys h k = k
IsOctets-append (x ∷ xs) ys (hx, h) k = (hx, IsOctets-append xs ys h k)

pub IsOctets-take : (n : ℕ) (xs : List ℕ) → IsOctets xs → IsOctets (take n xs)
IsOctets-take zero xs h = tt
IsOctets-take (suc n) [] h = tt
IsOctets-take (suc n) (x ∷ xs) (hx, h) = (hx, IsOctets-take n xs h)

pub IsOctets-drop : (n : ℕ) (xs : List ℕ) → IsOctets xs → IsOctets (drop n xs)
IsOctets-drop zero xs h = h
IsOctets-drop (suc n) [] h = tt
IsOctets-drop (suc n) (x ∷ xs) (_, h) = IsOctets-drop n xs h

pub u16_bytes-IsOctets : (v : ℕ) → IsOctets (u16_bytes v)
u16_bytes-IsOctets v = (omega arith, (omega arith, tt))

-- A segment with a value in the place of the checksum, and its words.
abbrev pub with_checksum : List ℕ → ℕ → List ℕ
with_checksum b value = put_slice b 16 (u16_bytes value)

with_checksum-IsOctets : (b : List ℕ) (value : ℕ) → IsOctets b → IsOctets (with_checksum b value)
with_checksum-IsOctets b value h =
    IsOctets-append (take 16 b) (u16_bytes value ++ drop 18 b) (IsOctets-take 16 b h) (
      IsOctets-append (u16_bytes value) (drop 18 b) (u16_bytes-IsOctets value)
        (IsOctets-drop 18 b h))

words-with_checksum :
    (b : List ℕ) (value : ℕ)
    → 18 ≤ length b
    → value < 2 ^ 16
    → words (with_checksum b value) ≡ words (with_checksum b 0) + value
words-with_checksum b value h fits =
    let l : length (take 16 b) ≡ 8 + 8 = omega (arith, length-take 16 b) in
    let w = words-append (take 16 b) (u16_bytes value ++ drop 18 b) 8 l in
    let w' = words-append (take 16 b) (u16_bytes 0 ++ drop 18 b) 8 l in omega (arith, w, w')

pub data_fits : (b : List ℕ) → data_sum b < 2 ^ 16
unfolding data_sum propagate_carries
data_fits b = omega arith

combine_fits : (xs : List ℕ) (n : ℕ) → returns (combine xs) ≡ returns n → n < 2 ^ 16
unfolding combine propagate_carries
combine_fits xs n e =
    let same : combine xs ≡ n = ap (λ m. elim m [ returns k ↦ k | panics ↦ 0 ]) e in omega arith

pub header_fits :
    (src dst : Address) (protocol len header : ℕ)
    → pseudo_header src dst protocol len ≡ returns header
    → header < 2 ^ 16
unfolding pseudo_header
header_fits (ipv4 src) (ipv4 dst) protocol len header e = combine_fits _ header e
header_fits (ipv6 src) (ipv6 dst) protocol len header e = combine_fits _ header e
header_fits (ipv4 src) (ipv6 dst) protocol len header e = cc
header_fits (ipv4 src) unspecified protocol len header e = cc
header_fits (ipv6 src) (ipv4 dst) protocol len header e = cc
header_fits (ipv6 src) unspecified protocol len header e = cc
header_fits unspecified dst protocol len header e = cc

-- The sum of a segment with its pseudo header, by its words.
full_sum_lem :
    (src dst : Address) (b : List ℕ) (header : ℕ)
    → IsOctets b
    → length b ≤ 2 ^ 16
    → pseudo_header src dst 6 (length b) ≡ returns header
    → full_sum src dst b ≡ returns (propagate_carries (header + propagate_carries (words b)))
full_sum_lem src dst b header octets fits e =
    let word : length b % 2 ^ 32 ≡ length b = omega arith in
    let carried : data_sum b < 2 ^ 16 = data_fits b in
    rw
      (
        word,
        e,
        combine_two header (data_sum b) (header_fits src dst 6 (length b) header e) carried,
        data_sum-words b octets fits,
      )
      refl

-- Filling in the checksum of a segment, between addresses of one family, changes nothing but the checksum, and the
-- segment then passes the check.
pub fill-verify :
    (src dst : Address) (b : List ℕ) (header : ℕ)
    → IsOctets b
    → 18 ≤ length b
    → length b < 2 ^ 16
    → pseudo_header src dst 6 (length b) ≡ returns header
    → (value : ℕ) × (fill_checksum src dst b ≡ returns (with_checksum b value))
      × (verify_checksum src dst (with_checksum b value) ≡ returns true)
unfolding fill_checksum set_checksum verify_checksum
fill-verify src dst b header octets long fits e =
    let zeroed = with_checksum b 0 in
    let l = length-put_slice b (u16_bytes 0) 16 (omega arith) in
    let octets' = with_checksum-IsOctets b 0 octets in
    let e' : pseudo_header src dst 6 (length zeroed) ≡ returns header =
      ap (pseudo_header src dst 6) l ∙ e in
    let sum = propagate_carries (header + propagate_carries (words zeroed)) in
    let value = u16_max - sum in
    let filled = with_checksum b value in
    let l' = length-put_slice b (u16_bytes value) 16 (omega arith) in
    let e'' : pseudo_header src dst 6 (length filled) ≡ returns header =
      ap (pseudo_header src dst 6) l' ∙ e in
    let change : words filled ≡ words zeroed + value =
      words-with_checksum b value long (omega arith) in
    let small : words zeroed < 2 ^ 31 = omega (arith, words_bound zeroed octets', l) in
    let all_ones =
      complement_lem header (words zeroed) (header_fits src dst 6 (length b) header e) small in
    (
      value,
      rw
          (
            write_u16_lem b 16 0 (omega arith),
            full_sum_lem src dst zeroed header octets' (omega arith) e',
            write_u16_lem zeroed 16 value (omega arith),
            put_slice_over b (u16_bytes 0) (u16_bytes value) 16 refl (omega arith),
          )
          refl,
      rw
          (
            full_sum_lem src dst filled header (with_checksum-IsOctets b value octets) (omega arith)
                e'',
            change,
            all_ones,
          )
          refl,
    )
