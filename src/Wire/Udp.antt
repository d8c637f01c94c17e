-- ===== src/Wire/Udp.antt =====
-- Datagrams of ethox/src/wire/udp.rs: the accessors of `udp`, and `Repr` with parse and emit. A datagram is the
-- list of its octets; a setter returns what it leaves.
pub mod Parse
pub mod Filled
pub mod Sent
pub mod Carried
use ethox.Base.{
  ℕ, ◌+◌, ◌-◌, ◌%◌, ◌^◌, Bool, true, false, not, ◌&&◌, Outcome, returns, panics, ◌>>=◌, List, [],
  ◌∷◌, length, take, drop, ltb, leb, ◌==◌, if◌then◌else◌, u16_max,
}
use ethox.Wire.Repr.{Address, unspecified, ipv4, ipv6}
use ethox.Wire.Bytes.{read_u16, write_u16, get_range}
use ethox.Wire.Checksum.{data_sum, combine, pseudo_header}

unfoldable pub src_port : List ℕ → Outcome ℕ
src_port b = read_u16 b 0

unfoldable pub dst_port : List ℕ → Outcome ℕ
dst_port b = read_u16 b 2

unfoldable pub datagram_len : List ℕ → Outcome ℕ
datagram_len b = read_u16 b 4

unfoldable pub checksum : List ℕ → Outcome ℕ
checksum b = read_u16 b 6

unfoldable pub set_src_port : ℕ → List ℕ → Outcome (List ℕ)
set_src_port value b = write_u16 b 0 value

unfoldable pub set_dst_port : ℕ → List ℕ → Outcome (List ℕ)
set_dst_port value b = write_u16 b 2 value

unfoldable pub set_len : ℕ → List ℕ → Outcome (List ℕ)
set_len value b = write_u16 b 4 value

unfoldable pub set_checksum : ℕ → List ℕ → Outcome (List ℕ)
set_checksum value b = write_u16 b 6 value

-- `&self.0[..to]`
abbrev pub up_to : List ℕ → ℕ → Outcome (List ℕ)
up_to b to = if leb to (length b) then returns (take to b) else panics

unfoldable pub payload_slice : List ℕ → Outcome (List ℕ)
unfolding datagram_len
payload_slice b = do
  n ← datagram_len b
  octets ← up_to b n
  (if ltb n 8 then panics else returns (drop 8 octets))

-- The sum that is checked, over the octets that the length field counts.
unfoldable pub full_sum : Address → Address → List ℕ → Outcome ℕ
unfolding datagram_len
full_sum src dst b = do
  n ← datagram_len b
  header ← pseudo_header src dst 17 n
  octets ← up_to b n
  returns (combine (header ∷ data_sum octets ∷ []))

-- A checksum of zero stands for none.
abbrev pub not_zero : ℕ → ℕ
not_zero sum = if sum == 0 then u16_max else sum

unfoldable pub fill_checksum : Address → Address → List ℕ → Outcome (List ℕ)
unfolding set_checksum full_sum
fill_checksum src dst b = do
  b' ← set_checksum 0 b
  sum ← full_sum src dst b'
  set_checksum (not_zero (u16_max - sum)) b'

unfoldable pub verify_checksum : Address → Address → List ℕ → Outcome Bool
unfolding full_sum
verify_checksum src dst b = do sum ← full_sum src dst b; returns (sum == u16_max)

pub data Checksum : Type 0 where
  manual : Address → Address → Checksum
  lazy : Address → Address → Checksum
  ignored : Checksum

pub record Repr : Type 0 where
  pub src_port : ℕ
  pub dst_port : ℕ
  pub length : ℕ

abbrev pub both_ipv4 : Address → Address → Bool
both_ipv4 (ipv4 a) (ipv4 b) = true
both_ipv4 (ipv4 a) (ipv6 b) = false
both_ipv4 (ipv4 a) unspecified = false
both_ipv4 (ipv6 a) b = false
both_ipv4 unspecified b = false

-- `Packet::fill_checksum`
unfoldable pub refill : Checksum → List ℕ → Outcome (List ℕ)
unfolding fill_checksum
refill (manual src dst) b = fill_checksum src dst b
refill (lazy src dst) b = if both_ipv4 src dst then returns b else fill_checksum src dst b
refill ignored b = returns b

unfoldable pub emit : Repr → List ℕ → Checksum → Outcome (List ℕ)
unfolding set_src_port set_dst_port set_len set_checksum fill_checksum
emit r b sums = do
  b' ← set_src_port r.src_port b
  b'' ← set_dst_port r.dst_port b'
  b_3 ← set_len r.length b''
  elim sums [ manual src dst ↦ fill_checksum src dst b_3 | _ ↦ set_checksum 0 b_3 ]
