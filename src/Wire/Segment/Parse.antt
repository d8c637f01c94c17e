-- ===== src/Wire/Segment/Parse.antt =====
-- `Packet::check_len`, `selective_ack_permitted`, `selective_ack_ranges` and `Repr::parse` of
-- ethox/src/wire/tcp.rs.
use ethox.Base.{
  ℕ, zero, suc, ◌%◌, ◌^◌, Bool, true, false, not, Option, none, some, Outcome, panics, List, [],
  ◌∷◌, length, ltb, ◌==◌, if◌then◌else◌,
}
use ethox.Wire.Seq.{SeqNumber}
use ethox.Wire.Flags
use ethox.Wire.Flags.{Flags}
use ethox.Wire.Repr.{Address, Repr, SackRanges}
use ethox.Wire.Checked.{
  truncated, wrong_checksum, malformed, Result, accept, refuse, run, fail_if, ◌>>=◌, ◌>>◌,
}
use ethox.Wire.Options.{
  TcpOption, end_of_list, max_segment_size, window_scale, sack_permitted, sack_range, no_ranges,
}
use ethox.Wire.Options.Parse
use ethox.Wire.Segment
use ethox.Wire.Segment.{
  src_port, dst_port, seq_number, ack_number, flags, header_len, window_len, options, payload_slice,
  verify_checksum,
}

-- `Checksum`
pub data Checksum : Type 0 where
  manual : Address → Address → Checksum
  ignored : Checksum

unfoldable pub check_len : List ℕ → Outcome (Result (Unit {0}))
check_len b = if ltb (length b) 20 then refuse truncated else (do
  len ← run (header_len b)
  if ltb (length b) len
      then refuse truncated
      else if ltb len 20
      then refuse malformed
      else accept tt)

-- What the loop over the options has found.
pub record Found : Type 0 where
  pub max_seg_size : Option ℕ
  pub window_scale : Option ℕ
  pub sack_permitted : Bool
  pub sack_ranges : SackRanges

abbrev pub nothing_found : Found
nothing_found = record {
  max_seg_size = none;
  window_scale = none;
  sack_permitted = false;
  sack_ranges = no_ranges;
}

-- What the loop does with an option, but for the end of the list.
unfoldable pub note : TcpOption → Found → Found
note (max_segment_size value) found = record found { max_seg_size = some value }
note (window_scale value) found = record found {
  window_scale = if ltb 14 value then some 14 else some value;
}
note sack_permitted found = record found { sack_permitted = true }
note (sack_range ranges) found = record found { sack_ranges = ranges }
note _ found = found

-- The end of the list breaks the loop, and any other option goes on with it.
abbrev pub go_on : TcpOption → Found → (Found → Outcome (Result Found)) → Outcome (Result Found)
go_on end_of_list found next = accept found
go_on option found next = next (note option found)

-- `while options.len() > 0`. A round takes an octet at least; no fuel would be a panic, which
-- does not happen.
unfoldable pub scan : ℕ → List ℕ → Found → Outcome (Result Found)
scan fuel [] found = accept found
scan zero (x ∷ xs) found = panics
scan (suc fuel) (x ∷ xs) found = do
  (next_options, option) ← Parse.parse (x ∷ xs)
  go_on option found (scan fuel next_options)

unfoldable pub verify : Checksum → List ℕ → Outcome (Result (Unit {0}))
verify (manual src dst) b = do
  valid ← run (verify_checksum src dst b)
  fail_if (not valid) wrong_checksum
verify ignored b = accept tt

-- The number is read where the flag is set.
abbrev pub acked : Flags → List ℕ → Outcome (Result (Option SeqNumber))
acked flags b =
    if Flags.ack flags then (do number ← run (ack_number b); accept (some number)) else accept none

unfoldable pub parse : List ℕ → Checksum → Outcome (Result Repr)
parse b checksum = do
  check_len b
  source ← run (src_port b)
  fail_if (source == 0) malformed
  destination ← run (dst_port b)
  fail_if (destination == 0) malformed
  verify checksum b
  flags ← run (Segment.flags b)
  acknowledged ← acked flags b
  options ← run (Segment.options b)
  found ← scan (length options) options nothing_found
  sequence ← run (seq_number b)
  window ← run (window_len b)
  payload ← run (payload_slice b)
  accept record {
    src_port = source;
    dst_port = destination;
    flags = flags;
    seq_number = sequence;
    ack_number = acknowledged;
    window_len = window;
    window_scale = found.window_scale;
    max_seg_size = found.max_seg_size;
    sack_permitted = found.sack_permitted;
    sack_ranges = found.sack_ranges;
    payload_len = length payload % 2 ^ 16;
  }

-- The loops of the accessors for selective acknowledgement, which go on past the end of the list.
unfoldable pub scan_permitted : ℕ → List ℕ → Outcome (Result Bool)
scan_permitted fuel [] = accept false
scan_permitted zero (x ∷ xs) = panics
scan_permitted (suc fuel) (x ∷ xs) = do
  (next_options, option) ← Parse.parse (x ∷ xs)
  let more = scan_permitted fuel next_options
  elim option [ sack_permitted ↦ accept true | _ ↦ more ]

unfoldable pub selective_ack_permitted : List ℕ → Outcome (Result Bool)
selective_ack_permitted b = do
  options ← run (Segment.options b)
  scan_permitted (length options) options

unfoldable pub scan_ranges : ℕ → List ℕ → Outcome (Result SackRanges)
scan_ranges fuel [] = accept no_ranges
scan_ranges zero (x ∷ xs) = panics
scan_ranges (suc fuel) (x ∷ xs) = do
  (next_options, option) ← Parse.parse (x ∷ xs)
  let more = scan_ranges fuel next_options
  elim option [ sack_range slice ↦ accept slice | _ ↦ more ]

unfoldable pub selective_ack_ranges : List ℕ → Outcome (Result SackRanges)
selective_ack_ranges b = do options ← run (Segment.options b); scan_ranges (length options) options
