-- ===== src/Wire/Repr.antt =====
-- `Repr` of ethox/src/wire/tcp.rs, the parsed header of a segment, and `Address` of wire/ip.rs.
pub mod Empty
use ethox.Base.{ℕ, ◌+◌, ◌%◌, Bool, not, ◌||◌, ◌==◌, Option}
use ethox.Wire.Seq.{SeqNumber}
use ethox.Wire.Flags
use ethox.Wire.Flags.{Flags}

-- `wire::ip::Address`; an address of a family is the number that its octets spell. The hidden
-- `__Nonexhaustive` has no values in the program.
pub data Address : Type 0 where
  unspecified : Address
  ipv4 : ℕ → Address
  ipv6 : ℕ → Address

-- `[Option<(u32, u32)>; 3]`
pub record SackRanges : Type 0 where
  pub first : Option (ℕ × ℕ)
  pub second : Option (ℕ × ℕ)
  pub third : Option (ℕ × ℕ)

pub record Repr : Type 0 where
  pub src_port : ℕ
  pub dst_port : ℕ
  pub flags : Flags
  pub seq_number : SeqNumber
  pub ack_number : Option SeqNumber
  pub window_len : ℕ
  pub window_scale : Option ℕ
  pub max_seg_size : Option ℕ
  pub sack_permitted : Bool
  pub sack_ranges : SackRanges
  pub payload_len : ℕ

unfoldable pub sequence_len : Repr → ℕ
unfolding Flags.sequence_len
sequence_len r = r.payload_len + Flags.sequence_len r.flags

unfoldable pub is_empty : Repr → Bool
unfolding Flags.syn Flags.fin Flags.rst
is_empty r =
    not (r.payload_len == 0) || (Flags.syn r.flags || Flags.fin r.flags || Flags.rst r.flags)
