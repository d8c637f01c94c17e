-- ===== src/Wire/Options/Emit.antt =====
-- `TcpOption::emit` of ethox/src/wire/tcp.rs, which returns what is written and the tail that is not.
use ethox.Base.{
  ℕ, ◌+◌, ◌%◌, Outcome, returns, panics, List, [], ◌∷◌, ◌++◌, length, take, drop, ◌==◌,
  if◌then◌else◌, map, ◌>>=◌,
}
use ethox.Wire.Bytes.{write_u8, write_u16, write_u32, split_at}
use ethox.Wire.Options.{
  TcpOption, end_of_list, no_operation, max_segment_size, window_scale, sack_permitted, sack_range,
  unknown, opt_end, opt_nop, opt_mss, opt_ws, opt_sackperm, opt_sackrng, buffer_len, ranges,
}

abbrev pub write_ranges : List ℕ → ℕ → List (ℕ × ℕ) → Outcome (List ℕ)
write_ranges buffer pos [] = returns buffer
write_ranges buffer pos ((first, second) ∷ more) = do
  buffer_1 ← write_u32 buffer pos first
  buffer_2 ← write_u32 buffer_1 (pos + 4) second
  write_ranges buffer_2 (pos + 8) more

-- The inner match, of the options that write their length; the others do not get there.
unfoldable pub emit_body : TcpOption → List ℕ → Outcome (List ℕ)
emit_body end_of_list buffer = panics
emit_body no_operation buffer = panics
emit_body (max_segment_size value) buffer = do
  buffer_1 ← write_u8 buffer 0 opt_mss
  write_u16 buffer_1 2 value
emit_body (window_scale value) buffer = do
  buffer_1 ← write_u8 buffer 0 opt_ws
  write_u8 buffer_1 2 value
emit_body sack_permitted buffer = write_u8 buffer 0 opt_sackperm
emit_body (sack_range s) buffer = do
  buffer_1 ← write_u8 buffer 0 opt_sackrng
  write_ranges buffer_1 2 (ranges s)
emit_body (unknown kind items) buffer = do
  buffer_1 ← write_u8 buffer 0 kind
  if length (drop 2 buffer_1) == length items then returns (take 2 buffer_1 ++ items) else panics

abbrev pub emit_long : TcpOption → List ℕ → Outcome (List ℕ × List ℕ)
emit_long option buffer = do
  buffer_1 ← write_u8 buffer 1 (buffer_len option % 256)
  buffer_2 ← emit_body option buffer_1
  split_at buffer_2 (buffer_len option)

unfoldable pub emit : TcpOption → List ℕ → Outcome (List ℕ × List ℕ)
unfolding buffer_len emit_body
emit end_of_list buffer = split_at (map (λ _. opt_end) buffer) 1
emit no_operation buffer = do buffer_1 ← write_u8 buffer 0 opt_nop; split_at buffer_1 1
emit option buffer = emit_long option buffer
