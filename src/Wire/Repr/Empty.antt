-- ===== src/Wire/Repr/Empty.antt =====
-- `Repr::is_empty` and `Repr::sequence_len` of ethox/src/wire/tcp.rs.
use ethox.Base.{◌≡◌, not, arith, ◌==◌, ◌&&◌}
use ethox.Wire.Flags
use ethox.Wire.Repr.{Repr, sequence_len, is_empty}

-- `is_empty` returns false exactly for a segment that takes no sequence space and has no RST: it is
-- the negation of the test that its name and its documentation promise.
pub is_empty_negated :
    (r : Repr) → not (is_empty r) ≡ (sequence_len r == 0 && not (Flags.rst r.flags))
unfolding is_empty sequence_len
is_empty_negated r = ground arith
