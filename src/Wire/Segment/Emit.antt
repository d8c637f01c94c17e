-- ===== src/Wire/Segment/Emit.antt =====
-- `Repr::header_len`, `buffer_len` and `emit` of ethox/src/wire/tcp.rs.
use ethox.Base.{
  ℕ, ◌+◌, ◌-◌, ◌%◌, ◌^◌, ◌&&◌, Option, none, some, is_some, Outcome, returns, ◌>>=◌, List, [], ◌++◌,
  length, take, drop, ltb, ◌==◌, if◌then◌else◌,
}
use ethox.Wire.Flags
use ethox.Wire.Repr.{Repr, SackRanges}
use ethox.Wire.Options.{
  TcpOption, end_of_list, max_segment_size, window_scale, sack_permitted, sack_range, ranges,
}
use ethox.Wire.Options.Emit
use ethox.Wire.Segment
use ethox.Wire.Segment.{
  set_src_port, set_dst_port, set_seq_number, set_ack_number, set_window_len, set_header_len,
  set_flags, set_urgent_at,
}

abbrev pub range_len : Option (ℕ × ℕ) → ℕ
range_len none = 0
range_len (some _) = 8

unfoldable pub sack_range_len : SackRanges → ℕ
sack_range_len s = range_len s.first + range_len s.second + range_len s.third

-- What the options need, before it is rounded up.
unfoldable pub options_len : Repr → ℕ
options_len r =
    (if is_some r.max_seg_size then 4 else 0)
    + (if is_some r.window_scale then 3 else 0)
    + (if r.sack_permitted then 2 else 0)
    + (if ltb 0 (sack_range_len r.sack_ranges) then sack_range_len r.sack_ranges + 2 else 0)

unfoldable pub header_len : Repr → ℕ
header_len r = let len = 20 + options_len r in if len % 4 == 0 then len else len + (4 - len % 4)

unfoldable pub buffer_len : Repr → ℕ
buffer_len r = header_len r + r.payload_len

-- The option that is written, if any, for each of the three steps of `emit`.
unfoldable pub scale_option : Repr → Option TcpOption
scale_option r = elim r.window_scale [ none ↦ none | some value ↦ some (window_scale value) ]

unfoldable pub size_option : Repr → Option TcpOption
size_option r = elim r.max_seg_size [ none ↦ none | some value ↦ some (max_segment_size value) ]

unfoldable pub sack_option : Repr → Option TcpOption
sack_option r =
    if r.sack_permitted
    then some sack_permitted
    else if is_some r.ack_number && ltb 0 (length (ranges r.sack_ranges))
    then some (sack_range r.sack_ranges)
    else none

unfoldable pub emit_maybe : Option TcpOption → List ℕ → Outcome (List ℕ × List ℕ)
emit_maybe none buffer = returns ([], buffer)
emit_maybe (some option) buffer = Emit.emit option buffer

-- `if options.len() > 0`: the end of the list, and padding.
unfoldable pub emit_end : List ℕ → Outcome (List ℕ)
emit_end buffer =
    if ltb 0 (length buffer)
    then (do (written, rest) ← Emit.emit end_of_list buffer; returns (written ++ rest))
    else returns buffer

unfoldable pub emit_options : Repr → List ℕ → Outcome (List ℕ)
emit_options r buffer = do
  (scale, buffer_1) ← emit_maybe (scale_option r) buffer
  (size, buffer_2) ← emit_maybe (size_option r) buffer_1
  (sack, buffer_3) ← emit_maybe (sack_option r) buffer_2
  padding ← emit_end buffer_3
  returns (scale ++ (size ++ (sack ++ padding)))

-- `options_mut` hands out a part of the buffer.
unfoldable pub emit_in_place : Repr → List ℕ → Outcome (List ℕ)
emit_in_place r b = do
  len ← Segment.header_len b
  options ← Segment.options b
  written ← emit_options r options
  returns (take 20 b ++ (written ++ drop len b))

-- `self.ack_number.unwrap_or(SeqNumber(0))`
abbrev pub ack_or_zero : Option ℕ → ℕ
ack_or_zero none = 0
ack_or_zero (some number) = number

unfoldable pub emit : Repr → List ℕ → Outcome (List ℕ)
emit r b = do
  b_1 ← set_src_port r.src_port b
  b_2 ← set_dst_port r.dst_port b_1
  b_3 ← set_seq_number r.seq_number b_2
  b_4 ← set_ack_number (ack_or_zero r.ack_number) b_3
  b_5 ← set_window_len r.window_len b_4
  b_6 ← set_header_len (header_len r % 2 ^ 8) b_5
  b_7 ← set_flags (Flags.set_ack (is_some r.ack_number) r.flags) b_6
  b_8 ← emit_in_place r b_7
  set_urgent_at 0 b_8
