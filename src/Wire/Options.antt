-- ===== src/Wire/Options.antt =====
-- `TcpOption` of ethox/src/wire/tcp.rs.
use ethox.Base.{
  ℕ, ◌+◌, ◌-◌, ◌*◌, ◌%◌, Bool, not, ◌||◌, Option, none, some, Outcome, returns, panics, List, [],
  ◌∷◌, ◌++◌, length, get_elem?, ltb, ◌==◌, if◌then◌else◌, map,
}
use ethox.Wire.Repr.{SackRanges}
use ethox.Wire.Bytes.{
  index, read_u16, read_u32, write_u8, write_u16, write_u32, get_range, slice_from, split_at,
}
use ethox.Wire.Checked.{Error, Result, accept, refuse, run, ok_or}
pub mod Parse
pub mod Emit
pub mod RoundTrip
pub mod Emitted
pub mod Total

pub data TcpOption : Type 0 where
  end_of_list : TcpOption
  no_operation : TcpOption
  max_segment_size : ℕ → TcpOption
  window_scale : ℕ → TcpOption
  sack_permitted : TcpOption
  sack_range : SackRanges → TcpOption
  unknown : ℕ → List ℕ → TcpOption

-- The kinds, of the module `field`.
abbrev pub opt_end : ℕ
opt_end = 0

abbrev pub opt_nop : ℕ
opt_nop = 1

abbrev pub opt_mss : ℕ
opt_mss = 2

abbrev pub opt_ws : ℕ
opt_ws = 3

abbrev pub opt_sackperm : ℕ
opt_sackperm = 4

abbrev pub opt_sackrng : ℕ
opt_sackrng = 5

abbrev pub no_ranges : SackRanges
no_ranges = record { first = none; second = none; third = none }

-- The ranges that are there, in their order.
abbrev pub present : Option (ℕ × ℕ) → List (ℕ × ℕ)
present none = []
present (some range) = range ∷ []

abbrev pub ranges : SackRanges → List (ℕ × ℕ)
ranges s = present s.first ++ (present s.second ++ present s.third)

unfoldable pub buffer_len : TcpOption → ℕ
buffer_len end_of_list = 1
buffer_len no_operation = 1
buffer_len (max_segment_size _) = 4
buffer_len (window_scale _) = 3
buffer_len sack_permitted = 2
buffer_len (sack_range s) = length (ranges s) * 8 + 2
buffer_len (unknown _ items) = 2 + length items
