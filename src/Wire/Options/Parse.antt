-- ===== src/Wire/Options/Parse.antt =====
-- `TcpOption::parse` of ethox/src/wire/tcp.rs.
use ethox.Base.{
  ℕ, ◌+◌, ◌-◌, ◌*◌, ◌%◌, not, ◌||◌, Option, none, some, Outcome, List, length, get_elem?, ltb, ◌==◌,
  if◌then◌else◌,
}
use ethox.Wire.Repr.{SackRanges}
use ethox.Wire.Bytes.{index, read_u16, read_u32, get_range, slice_from}
use ethox.Wire.Checked.{truncated, malformed, Result, accept, refuse, run, ok_or, ◌>>=◌}
use ethox.Wire.Options.{
  TcpOption, end_of_list, no_operation, max_segment_size, window_scale, sack_permitted, sack_range,
  unknown, opt_end, opt_nop, opt_mss, opt_ws, opt_sackperm, opt_sackrng,
}

-- The range at the `i`-th place of the array, if the slice is that long.
unfoldable pub parse_range : List ℕ → ℕ → Outcome (Result (Option (ℕ × ℕ)))
parse_range items i =
    let left = i * 8 in
    let mid = left + 4 in
    if ltb left (length items)
    then (do
      range_left ← run (read_u32 items left)
      range_right ← run (read_u32 items mid)
      accept (some (range_left, range_right)))
    else accept none

unfoldable pub parse_ranges : List ℕ → Outcome (Result SackRanges)
parse_ranges items = do
  first ← parse_range items 0
  second ← parse_range items 1
  third ← parse_range items 2
  accept record { first = first; second = second; third = third }

-- The match on the kind and the length, for a kind that is not one of the two without a length.
unfoldable pub parse_body : ℕ → ℕ → List ℕ → Outcome (Result TcpOption)
parse_body kind len items =
    if kind == opt_mss
    then (if len == 4
        then (do value ← run (read_u16 items 0); accept (max_segment_size value))
        else refuse malformed)
    else if kind == opt_ws
    then (if len == 3
        then (do value ← run (index items 0); accept (window_scale value))
        else refuse malformed)
    else if kind == opt_sackperm
    then (if len == 2 then accept sack_permitted else refuse malformed)
    else if kind == opt_sackrng
    then (if ltb len 10 || not ((len - 2) % 8 == 0)
        then refuse malformed
        else (do found ← parse_ranges items; accept (sack_range found)))
    else accept (unknown kind items)

-- The rest of the buffer, and its first option.
unfoldable pub parse : List ℕ → Outcome (Result (List ℕ × TcpOption))
parse buffer = do
  kind ← ok_or (get_elem? buffer 0) truncated
  if kind == opt_end
      then (do rest ← run (slice_from buffer 1); accept (rest, end_of_list))
      else if kind == opt_nop
      then (do rest ← run (slice_from buffer 1); accept (rest, no_operation))
      else (do
        len ← ok_or (get_elem? buffer 1) truncated
        items ← ok_or (get_range buffer 2 len) truncated
        option ← parse_body kind len items
        rest ← run (slice_from buffer len)
        accept (rest, option))
