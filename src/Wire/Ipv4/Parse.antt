-- ===== src/Wire/Ipv4/Parse.antt =====
-- `ipv4::check_len` and `Repr::parse` of ethox/src/wire/ipv4.rs.
use ethox.Base.{ℕ, ◌-◌, not, Bool, true, false, Outcome, List, length, ltb, ◌==◌, if◌then◌else◌}
use ethox.Wire.Checked.{
  truncated, wrong_checksum, malformed, unsupported, Result, accept, refuse, run, fail_if, ◌>>=◌,
  ◌>>◌,
}
use ethox.Wire.Ipv4.{
  Repr, Checksum, is_manual, version, header_len, total_len, more_frags, frag_offset, hop_limit,
  protocol, src_addr, dst_addr, verify_checksum, payload_slice,
}

unfoldable pub check_len : List ℕ → Outcome (Result (Unit {0}))
unfolding header_len total_len
check_len b = if ltb (length b) 20 then refuse truncated else (do
  header ← run (header_len b)
  total ← run (total_len b)
  if ltb (length b) header
      then refuse truncated
      else if ltb total header
      then refuse malformed
      else if ltb (length b) total
      then refuse truncated
      else accept tt)

-- `checksum.manual() && !packet.verify_checksum()`
unfoldable pub wrong : Checksum → List ℕ → Outcome (Result Bool)
unfolding verify_checksum
wrong sums b =
    if is_manual sums
    then (do valid ← run (verify_checksum b); accept (not valid))
    else accept false

-- `packet.more_frags() || packet.frag_offset() != 0`
unfoldable pub fragmented : List ℕ → Outcome (Result Bool)
unfolding more_frags frag_offset
fragmented b = do
  more ← run (more_frags b)
  if more then accept true else (do offset ← run (frag_offset b); accept (not (offset == 0)))

unfoldable pub parse : List ℕ → Checksum → Outcome (Result Repr)
unfolding check_len wrong fragmented version header_len total_len payload_slice src_addr dst_addr
    protocol hop_limit
parse b sums = do
  check_len b
  number ← run (version b)
  fail_if (not (number == 4)) malformed
  bad ← wrong sums b
  fail_if bad wrong_checksum
  part ← fragmented b
  fail_if part unsupported
  total ← run (total_len b)
  header ← run (header_len b)
  payload ← run (payload_slice b)
  fail_if (ltb (length payload) (total - header)) truncated
  source ← run (src_addr b)
  destination ← run (dst_addr b)
  kind ← run (protocol b)
  hops ← run (hop_limit b)
  accept (record {
    src_addr = source;
    dst_addr = destination;
    protocol = kind;
    payload_len = total - header;
    hop_limit = hops;
  })
