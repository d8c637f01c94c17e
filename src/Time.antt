-- ===== src/Time.antt =====
-- `Instant` and `Expiration` of ethox/src/time.rs. The `i64` of milliseconds is stored with 2^63
-- added, a number below 2^64, so that the order of instants is that of ℕ, and a wrapping addition
-- of an `i64` is addition modulo 2^64.
pub mod Laws
use ethox.Base.{
  ℕ, ◌+◌, ◌-◌, ◌*◌, ◌/◌, ◌%◌, ◌^◌, Option, none, some, Ordering, compare, Bool, true, false,
  Outcome, returns, panics, ltb, leb, if◌then◌else◌,
}

-- `core::time::Duration`, a number of nanoseconds, of which the program uses the whole milliseconds.
abbrev pub Duration : Type 0
Duration = ℕ

unfoldable pub duration_from_millis : ℕ → Duration
duration_from_millis m = m * 1000000

unfoldable pub as_millis : Duration → ℕ
as_millis d = d / 1000000

-- A `Duration` has 64 bits of seconds and less than a second of nanoseconds; past that
-- `Mul` panics.
abbrev pub max_duration : Duration
max_duration = 2 ^ 64 * 1000000000 - 1

unfoldable pub mul_duration : ℕ → Duration → Outcome Duration
mul_duration k d = if ltb max_duration (k * d) then panics else returns (k * d)

pub record Instant : Type 0 where
  pub biased_millis : ℕ

-- `Instant::from_millis` of a number that is not negative.
abbrev pub from_millis : ℕ → Instant
from_millis m = record { biased_millis = 2 ^ 63 + m }

-- `Add<Duration>`: `self.millis + rhs.as_millis() as i64`, the sum wrapped.
unfoldable pub after : Instant → Duration → Instant
unfolding as_millis
after t d = record { biased_millis = (t.biased_millis + as_millis d) % 2 ^ 64 }

-- `Sub<Duration>`
unfoldable pub before : Instant → Duration → Instant
unfolding as_millis
before t d = record { biased_millis = (t.biased_millis + 2 ^ 64 - as_millis d % 2 ^ 64) % 2 ^ 64 }

-- The derived `Ord` of `Instant`.
abbrev pub instant_lt : Instant → Instant → Bool
instant_lt a b = ltb a.biased_millis b.biased_millis

abbrev pub instant_le : Instant → Instant → Bool
instant_le a b = leb a.biased_millis b.biased_millis

-- `Ord::max`: the second argument where both are equal.
abbrev pub instant_max : Instant → Instant → Instant
instant_max a b = if instant_lt b a then a else b

pub data Expiration : Type 0 where
  at : Instant → Expiration
  never : Expiration

-- `From<Option<Instant>> for Expiration` and back.
unfoldable pub from_option : Option Instant → Expiration
from_option (some t) = at t
from_option none = never

unfoldable pub to_option : Expiration → Option Instant
to_option (at t) = some t
to_option never = none

-- `cmp` and `partial_cmp`
unfoldable pub cmp : Expiration → Expiration → Ordering
cmp never never = Ordering.eq
cmp never (at b) = Ordering.gt
cmp (at a) never = Ordering.lt
cmp (at a) (at b) = compare a.biased_millis b.biased_millis

-- `>=`, derived from it.
unfoldable pub expiration_ge : Expiration → Expiration → Bool
unfolding cmp
expiration_ge a b = elim (cmp a b) [ Ordering.lt ↦ false | _ ↦ true ]

-- `Ord::min`: the first argument where both are equal.
unfoldable pub expiration_min : Expiration → Expiration → Expiration
unfolding cmp
expiration_min a b = elim (cmp a b) [ Ordering.gt ↦ b | _ ↦ a ]
