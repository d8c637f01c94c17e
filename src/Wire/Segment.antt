-- ===== src/Wire/Segment.antt =====
-- `Packet` of ethox/src/wire/tcp.rs: the fields of a segment in a buffer. A mask of low bits is written as a
-- remainder, and one of high bits as what is left without it.
pub mod Parse
pub mod Emit
pub mod Total
pub mod RoundTrip
pub mod Filled
pub mod Scanned
pub mod Header
pub mod Written
pub mod Sent
use ethox.Base.{
  ℕ, ◌+◌, ◌-◌, ◌*◌, ◌/◌, ◌%◌, ◌^◌, Bool, not, Outcome, returns, panics, List, [], ◌∷◌, length, take,
  drop, ltb, leb, ◌==◌, ◌&&◌, if◌then◌else◌, u16_max, ◌>>=◌,
}
use ethox.Wire.Seq.{SeqNumber}
use ethox.Wire.Flags
use ethox.Wire.Flags.{Flags}
use ethox.Wire.Repr.{Address}
use ethox.Wire.Bytes.{read_u16, read_u32, write_u16, write_u32, slice_from}
use ethox.Wire.Checksum.{pseudo_header, combine, data_sum}

unfoldable pub src_port : List ℕ → Outcome ℕ
src_port b = read_u16 b 0

unfoldable pub dst_port : List ℕ → Outcome ℕ
dst_port b = read_u16 b 2

unfoldable pub seq_number : List ℕ → Outcome SeqNumber
seq_number b = read_u32 b 4

unfoldable pub ack_number : List ℕ → Outcome SeqNumber
ack_number b = read_u32 b 8

-- The octets 12 and 13: four bits of the header's length, three that are not used, nine flags.
abbrev pub raw_flags : List ℕ → Outcome ℕ
raw_flags b = read_u16 b 12

unfoldable pub flags : List ℕ → Outcome Flags
flags b = do raw ← raw_flags b; returns record { bits = raw % 2 ^ 9 }

unfoldable pub header_len : List ℕ → Outcome ℕ
header_len b = do raw ← raw_flags b; returns (raw / 2 ^ 12 * 4 % 2 ^ 8)

unfoldable pub window_len : List ℕ → Outcome ℕ
window_len b = read_u16 b 14

unfoldable pub checksum : List ℕ → Outcome ℕ
checksum b = read_u16 b 16

unfoldable pub urgent_at : List ℕ → Outcome ℕ
urgent_at b = read_u16 b 18

-- `&data[OPTIONS(header_len)]`
unfoldable pub options : List ℕ → Outcome (List ℕ)
options b = do
  len ← header_len b
  if leb 20 len && leb len (length b) then returns (take (len - 20) (drop 20 b)) else panics

unfoldable pub payload_slice : List ℕ → Outcome (List ℕ)
payload_slice b = do len ← header_len b; slice_from b len

-- The sum of a segment with its pseudo header; 6 is the protocol's number, and the length a `u32`.
abbrev pub full_sum : Address → Address → List ℕ → Outcome ℕ
full_sum src dst b = do
  header ← pseudo_header src dst 6 (length b % 2 ^ 32)
  returns (combine (header ∷ data_sum b ∷ []))

unfoldable pub verify_checksum : Address → Address → List ℕ → Outcome Bool
verify_checksum src dst b = do sum ← full_sum src dst b; returns (sum == u16_max)

unfoldable pub set_src_port : ℕ → List ℕ → Outcome (List ℕ)
set_src_port value b = write_u16 b 0 value

unfoldable pub set_dst_port : ℕ → List ℕ → Outcome (List ℕ)
set_dst_port value b = write_u16 b 2 value

unfoldable pub set_seq_number : SeqNumber → List ℕ → Outcome (List ℕ)
set_seq_number value b = write_u32 b 4 value

unfoldable pub set_ack_number : SeqNumber → List ℕ → Outcome (List ℕ)
set_ack_number value b = write_u32 b 8 value

unfoldable pub clear_flags : List ℕ → Outcome (List ℕ)
clear_flags b = do raw ← raw_flags b; write_u16 b 12 (raw / 2 ^ 12 * 2 ^ 12)

-- The two parts of the field share no bit, so that `|` is a sum.
unfoldable pub set_flags : Flags → List ℕ → Outcome (List ℕ)
set_flags f b = do raw ← raw_flags b; write_u16 b 12 (raw / 2 ^ 12 * 2 ^ 12 + f.bits % 2 ^ 9)

unfoldable pub set_header_len : ℕ → List ℕ → Outcome (List ℕ)
set_header_len value b = do
  raw ← raw_flags b
  write_u16 b 12 (raw % 2 ^ 12 + value / 4 * 2 ^ 12 % 2 ^ 16)

unfoldable pub set_window_len : ℕ → List ℕ → Outcome (List ℕ)
set_window_len value b = write_u16 b 14 value

unfoldable pub set_checksum : ℕ → List ℕ → Outcome (List ℕ)
set_checksum value b = write_u16 b 16 value

unfoldable pub set_urgent_at : ℕ → List ℕ → Outcome (List ℕ)
set_urgent_at value b = write_u16 b 18 value

unfoldable pub fill_checksum : Address → Address → List ℕ → Outcome (List ℕ)
fill_checksum src dst b = do
  b' ← set_checksum 0 b
  sum ← full_sum src dst b'
  set_checksum (u16_max - sum) b'
