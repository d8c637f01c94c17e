-- ===== src/Wire/Checksum.antt =====
-- The module `checksum` of ethox/src/wire/ip.rs: sums in ones' complement, without the last complement.
pub mod Sums
pub mod Carries
use ethox.Base.{
  ℕ, zero, suc, ◌+◌, ◌*◌, ◌/◌, ◌%◌, ◌^◌, Outcome, returns, panics, List, [], ◌∷◌, ◌++◌, length,
  take, drop, leb, if◌then◌else◌,
}
use ethox.Wire.Repr.{Address, unspecified, ipv4, ipv6}
use ethox.Wire.Bytes.{u16_bytes, u32_bytes}

-- The sum of two `u16` is one.
unfoldable pub propagate_carries : ℕ → ℕ
propagate_carries word =
    let sum = (word / 2 ^ 16 + word % 2 ^ 16) % 2 ^ 32 in
    (sum / 2 ^ 16 % 2 ^ 16 + sum % 2 ^ 16) % 2 ^ 16

-- The loop by two octets: the new sum, and what is left of the slice.
abbrev pub add_words : List ℕ → ℕ → ℕ × List ℕ
add_words [] accum = (accum, [])
add_words (odd ∷ []) accum = (accum, odd ∷ [])
add_words (high ∷ low ∷ rest) accum = add_words rest ((accum + (high * 256 + low)) % 2 ^ 32)

-- The loop by 32 octets. Each round takes some of the slice, so that its length is fuel enough.
abbrev pub add_chunks : ℕ → List ℕ → ℕ → ℕ × List ℕ
add_chunks zero octets accum = (accum, octets)
add_chunks (suc fuel) octets accum =
    let more = add_chunks fuel (drop 32 octets) (add_words (take 32 octets) accum).0 in
    if leb 32 (length octets) then more else (accum, octets)

-- The last octet, if there is an odd one.
abbrev pub add_odd : ℕ → List ℕ → ℕ
add_odd accum [] = accum
add_odd accum (value ∷ _) = (accum + value * 256) % 2 ^ 32

unfoldable pub data_sum : List ℕ → ℕ
data_sum octets =
    let (accum, rest) = add_chunks (length octets) octets 0 in
    let (accum', odd) = add_words rest accum in propagate_carries (add_odd accum' odd)

abbrev pub sum_of : List ℕ → ℕ → ℕ
sum_of [] accum = accum
sum_of (word ∷ words) accum = sum_of words ((accum + word) % 2 ^ 32)

unfoldable pub combine : List ℕ → ℕ
combine checksums = propagate_carries (sum_of checksums 0)

-- The octets of an address.
abbrev pub ipv6_bytes : ℕ → List ℕ
ipv6_bytes a =
    u32_bytes (a / 2 ^ 96)
    ++ (u32_bytes (a / 2 ^ 64 % 2 ^ 32)
        ++ (u32_bytes (a / 2 ^ 32 % 2 ^ 32) ++ u32_bytes (a % 2 ^ 32)))

-- The protocol is its number, and the length a `u32`.
unfoldable pub pseudo_header : Address → Address → ℕ → ℕ → Outcome ℕ
pseudo_header (ipv4 src) (ipv4 dst) protocol len = returns (
    combine (
      data_sum (u32_bytes src)
      ∷ data_sum (u32_bytes dst)
      ∷ data_sum (0 ∷ protocol ∷ u16_bytes (len % 2 ^ 16))
      ∷ []))
pseudo_header (ipv6 src) (ipv6 dst) protocol len = returns (
    combine (
      data_sum (ipv6_bytes src)
      ∷ data_sum (ipv6_bytes dst)
      ∷ data_sum (u32_bytes len ++ (0 ∷ 0 ∷ 0 ∷ protocol ∷ []))
      ∷ []))
pseudo_header src dst protocol len = panics
