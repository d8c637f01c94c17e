-- ===== src/Time/Laws.antt =====
-- Laws of ethox/src/time.rs: the order of expirations, and instants moved by a duration.
use ethox.Base.{◌+◌, ◌^◌, ◌<◌, ◌≡◌, true, arith, ◌⊎◌, ltb}
use ethox.Time.{
  Instant, Duration, after, before, as_millis, Expiration, at, never, expiration_ge, expiration_min,
  instant_le,
}

-- The minimum of two expirations is one of them, and both are at or after it; so `never` gives way
-- to every instant.
pub expiration_min_lem :
    (a b : Expiration)
    → (expiration_ge a (expiration_min a b) ≡ true)
      × (expiration_ge b (expiration_min a b) ≡ true)
      × ((expiration_min a b ≡ a) ⊎ (expiration_min a b ≡ b))
unfolding expiration_ge expiration_min
expiration_min_lem never never = ground arith
expiration_min_lem never (at t) = ground arith
expiration_min_lem (at t) never = ground arith
expiration_min_lem (at t) (at u) = ground arith

-- A duration of less than 2^64 milliseconds that is added to an instant and subtracted again leaves
-- the instant as it was, also where the sum wraps; and the sum is at or after the instant exactly
-- when it does not wrap.
pub before-after :
    (t : Instant) (d : Duration)
    → t.biased_millis < 2 ^ 64
    → as_millis d < 2 ^ 64
    → (before (after t d) d ≡ t)
      × (instant_le t (after t d) ≡ ltb (t.biased_millis + as_millis d) (2 ^ 64))
unfolding before after
before-after t d h k = (ground arith, ground arith)
