-- ===== src/Wire/Udp/Parse.antt =====
-- `udp::check_len` and `Repr::parse` of ethox/src/wire/udp.rs.
use ethox.Base.{ℕ, not, ◌&&◌, Outcome, List, length, ltb, ◌==◌, if◌then◌else◌}
use ethox.Wire.Checked.{
  truncated, wrong_checksum, malformed, Result, accept, refuse, run, fail_if, ◌>>=◌, ◌>>◌,
}
use ethox.Wire.Udp
use ethox.Wire.Udp.{
  Repr, Checksum, manual, lazy, ignored, both_ipv4, src_port, dst_port, checksum, verify_checksum,
}

unfoldable pub check_len : List ℕ → Outcome (Result (Unit {0}))
unfolding Udp.datagram_len
check_len b = if ltb (length b) 8 then refuse truncated else (do
  field_len ← run (Udp.datagram_len b)
  if ltb (length b) field_len
      then refuse truncated
      else if ltb field_len 8
      then refuse malformed
      else accept tt)

-- A missing checksum is fine between addresses of version 4.
unfoldable pub verify : Checksum → List ℕ → Outcome (Result (Unit {0}))
unfolding checksum verify_checksum
verify (manual src dst) b = do
  sum ← run (checksum b)
  if both_ipv4 src dst && (sum == 0)
      then accept tt
      else (do valid ← run (verify_checksum src dst b); fail_if (not valid) wrong_checksum)
verify (lazy src dst) b = accept tt
verify ignored b = accept tt

unfoldable pub parse : List ℕ → Checksum → Outcome (Result Repr)
unfolding check_len dst_port verify src_port Udp.datagram_len
parse b sums = do
  check_len b
  destination ← run (dst_port b)
  fail_if (destination == 0) malformed
  verify sums b
  source ← run (src_port b)
  field_len ← run (Udp.datagram_len b)
  accept (record { src_port = source; dst_port = destination; length = field_len })
