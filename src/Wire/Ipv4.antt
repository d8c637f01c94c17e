-- ===== src/Wire/Ipv4.antt =====
-- Packets of ethox/src/wire/ipv4.rs: the fields of the header, and `Repr::emit`. An address is the number that its
-- octets spell. A mask of low bits is a remainder, and one of high bits what is left without it.
pub mod Parse
pub mod Written
pub mod Sent
pub mod Total
use ethox.Base.{
  ℕ, ◌+◌, ◌-◌, ◌*◌, ◌/◌, ◌%◌, ◌^◌, Bool, true, false, not, ◌&&◌, Outcome, returns, panics, ◌>>=◌,
  List, [], ◌∷◌, ◌++◌, length, take, drop, ltb, leb, ◌==◌, if◌then◌else◌, u16_max,
}
use ethox.Wire.Bytes.{index, read_u16, read_u32, write_u8, write_u16, write_u32}
use ethox.Wire.Checksum.{data_sum}

-- `Protocol` of ethox/src/wire/ip.rs.
pub data Protocol : Type 0 where
  hop_by_hop icmp igmp tcp udp ipv6_route ipv6_frag icmpv6 ipv6_no_nxt ipv6_opts : Protocol
  unknown_protocol : ℕ → Protocol

abbrev pub number_of : Protocol → ℕ
number_of hop_by_hop = 0
number_of icmp = 1
number_of igmp = 2
number_of tcp = 6
number_of udp = 17
number_of ipv6_route = 43
number_of ipv6_frag = 44
number_of icmpv6 = 58
number_of ipv6_no_nxt = 59
number_of ipv6_opts = 60
number_of (unknown_protocol id) = id

unfoldable pub from_number : ℕ → Protocol
from_number n =
    if n == 0
    then hop_by_hop
    else if n == 1
    then icmp
    else if n == 2
    then igmp
    else if n == 6
    then tcp
    else if n == 17
    then udp
    else if n == 43
    then ipv6_route
    else if n == 44
    then ipv6_frag
    else if n == 58
    then icmpv6
    else if n == 59
    then ipv6_no_nxt
    else if n == 60
    then ipv6_opts
    else unknown_protocol n

unfoldable pub version : List ℕ → Outcome ℕ
version b = do raw ← index b 0; returns (raw / 2 ^ 4)

unfoldable pub header_len : List ℕ → Outcome ℕ
header_len b = do raw ← index b 0; returns (raw % 2 ^ 4 * 4)

unfoldable pub dscp : List ℕ → Outcome ℕ
dscp b = do raw ← index b 1; returns (raw / 2 ^ 2)

unfoldable pub ecn : List ℕ → Outcome ℕ
ecn b = do raw ← index b 1; returns (raw % 2 ^ 2)

unfoldable pub total_len : List ℕ → Outcome ℕ
total_len b = read_u16 b 2

unfoldable pub ident : List ℕ → Outcome ℕ
ident b = read_u16 b 4

-- Whether a bit of a number is set.
abbrev pub bit : ℕ → ℕ → Bool
bit raw n = not (raw / 2 ^ n % 2 == 0)

unfoldable pub dont_frag : List ℕ → Outcome Bool
dont_frag b = do raw ← read_u16 b 6; returns (bit raw 14)

unfoldable pub more_frags : List ℕ → Outcome Bool
more_frags b = do raw ← read_u16 b 6; returns (bit raw 13)

unfoldable pub frag_offset : List ℕ → Outcome ℕ
frag_offset b = do raw ← read_u16 b 6; returns (raw * 2 ^ 3 % 2 ^ 16)

unfoldable pub hop_limit : List ℕ → Outcome ℕ
hop_limit b = index b 8

unfoldable pub protocol : List ℕ → Outcome Protocol
unfolding from_number
protocol b = do raw ← index b 9; returns (from_number raw)

unfoldable pub checksum : List ℕ → Outcome ℕ
checksum b = read_u16 b 10

unfoldable pub src_addr : List ℕ → Outcome ℕ
src_addr b = read_u32 b 12

unfoldable pub dst_addr : List ℕ → Outcome ℕ
dst_addr b = read_u32 b 16

-- `data(&self.0[..header_len])`
unfoldable pub header_sum : List ℕ → Outcome ℕ
unfolding header_len
header_sum b = do
  len ← header_len b
  (if leb len (length b) then returns (data_sum (take len b)) else panics)

unfoldable pub verify_checksum : List ℕ → Outcome Bool
unfolding header_sum
verify_checksum b = do sum ← header_sum b; returns (sum == u16_max)

unfoldable pub set_version : ℕ → List ℕ → Outcome (List ℕ)
set_version value b = do raw ← index b 0; write_u8 b 0 (raw % 2 ^ 4 + value * 2 ^ 4 % 2 ^ 8)

unfoldable pub set_header_len : ℕ → List ℕ → Outcome (List ℕ)
set_header_len value b = do raw ← index b 0; write_u8 b 0 (raw / 2 ^ 4 * 2 ^ 4 + value / 4 % 2 ^ 4)

unfoldable pub set_dscp : ℕ → List ℕ → Outcome (List ℕ)
set_dscp value b = do raw ← index b 1; write_u8 b 1 (raw % 2 ^ 2 + value * 2 ^ 2 % 2 ^ 8)

unfoldable pub set_ecn : ℕ → List ℕ → Outcome (List ℕ)
set_ecn value b = do raw ← index b 1; write_u8 b 1 (raw / 2 ^ 2 * 2 ^ 2 + value % 2 ^ 2)

unfoldable pub set_total_len : ℕ → List ℕ → Outcome (List ℕ)
set_total_len value b = write_u16 b 2 value

unfoldable pub set_ident : ℕ → List ℕ → Outcome (List ℕ)
set_ident value b = write_u16 b 4 value

unfoldable pub clear_flags : List ℕ → Outcome (List ℕ)
clear_flags b = do raw ← read_u16 b 6; write_u16 b 6 (raw % 2 ^ 13)

-- A number with one bit set or cleared.
abbrev pub with_bit : ℕ → ℕ → Bool → ℕ
with_bit raw n value = raw - raw / 2 ^ n % 2 * 2 ^ n + (if value then 2 ^ n else 0)

unfoldable pub set_dont_frag : Bool → List ℕ → Outcome (List ℕ)
set_dont_frag value b = do raw ← read_u16 b 6; write_u16 b 6 (with_bit raw 14 value)

unfoldable pub set_more_frags : Bool → List ℕ → Outcome (List ℕ)
set_more_frags value b = do raw ← read_u16 b 6; write_u16 b 6 (with_bit raw 13 value)

-- The value is below 2^16, and so the two parts share no bit.
unfoldable pub set_frag_offset : ℕ → List ℕ → Outcome (List ℕ)
set_frag_offset value b = do
  raw ← read_u16 b 6
  write_u16 b 6 (raw / 2 ^ 13 * 2 ^ 13 + value / 2 ^ 3)

unfoldable pub set_hop_limit : ℕ → List ℕ → Outcome (List ℕ)
set_hop_limit value b = write_u8 b 8 value

unfoldable pub set_protocol : Protocol → List ℕ → Outcome (List ℕ)
set_protocol value b = write_u8 b 9 (number_of value)

unfoldable pub set_checksum : ℕ → List ℕ → Outcome (List ℕ)
set_checksum value b = write_u16 b 10 value

unfoldable pub set_src_addr : ℕ → List ℕ → Outcome (List ℕ)
set_src_addr value b = write_u32 b 12 value

unfoldable pub set_dst_addr : ℕ → List ℕ → Outcome (List ℕ)
set_dst_addr value b = write_u32 b 16 value

unfoldable pub fill_checksum : List ℕ → Outcome (List ℕ)
unfolding set_checksum header_sum
fill_checksum b = do b' ← set_checksum 0 b; sum ← header_sum b'; set_checksum (u16_max - sum) b'

-- `payload_range`, and the slice.
unfoldable pub payload_slice : List ℕ → Outcome (List ℕ)
unfolding header_len total_len
payload_slice b = do
  from ← header_len b
  to ← total_len b
  (if leb from to && leb to (length b) then returns (take (to - from) (drop from b)) else panics)

-- `payload_mut_slice`, for a caller that writes to it: the slice is put back where it was.
unfoldable pub with_payload : (List ℕ → Outcome (List ℕ)) → List ℕ → Outcome (List ℕ)
unfolding header_len total_len payload_slice
with_payload f b = do
  from ← header_len b
  to ← total_len b
  slice ← payload_slice b
  slice' ← f slice
  returns (take from b ++ (slice' ++ drop to b))

-- `Checksum` of ethox/src/wire/mod.rs.
pub data Checksum : Type 0 where
  manual : Checksum
  ignored : Checksum

abbrev pub is_manual : Checksum → Bool
is_manual manual = true
is_manual ignored = false

-- `Packet::fill_checksum`
unfoldable pub refill : Checksum → List ℕ → Outcome (List ℕ)
unfolding fill_checksum
refill sums b = if is_manual sums then fill_checksum b else returns b

pub record Repr : Type 0 where
  pub src_addr : ℕ
  pub dst_addr : ℕ
  pub protocol : Protocol
  pub payload_len : ℕ
  pub hop_limit : ℕ

abbrev pub buffer_len : Repr → ℕ
buffer_len r = 20

-- The length of the payload is cut to a `u16`.
unfoldable pub emit : Repr → List ℕ → Checksum → Outcome (List ℕ)
unfolding set_version set_header_len set_dscp set_ecn header_len set_total_len set_ident clear_flags
    set_more_frags set_dont_frag set_frag_offset set_hop_limit set_protocol set_src_addr
    set_dst_addr fill_checksum set_checksum
emit r b sums = do
  b_1 ← set_version 4 b
  b_2 ← set_header_len 20 b_1
  b_3 ← set_dscp 0 b_2
  b_4 ← set_ecn 0 b_3
  header ← header_len b_4
  b_5 ← set_total_len ((header + r.payload_len % 2 ^ 16) % 2 ^ 16) b_4
  b_6 ← set_ident 0 b_5
  b_7 ← clear_flags b_6
  b_8 ← set_more_frags false b_7
  b_9 ← set_dont_frag true b_8
  b_10 ← set_frag_offset 0 b_9
  b_11 ← set_hop_limit r.hop_limit b_10
  b_12 ← set_protocol r.protocol b_11
  b_13 ← set_src_addr r.src_addr b_12
  b_14 ← set_dst_addr r.dst_addr b_13
  (if is_manual sums then fill_checksum b_14 else set_checksum 0 b_14)
