-- ===== src/Wire/Seq.antt =====
-- `SeqNumber` of ethox/src/wire/tcp.rs. The wrapped `i32` is its bit pattern, a number below 2^32;
-- as an `i32` it is negative from 2^31 on. `usize` operands above `i32::MAX` panic.
pub mod Order
pub mod Window
use ethox.Base.{
  ℕ, ◌+◌, ◌-◌, ◌%◌, ◌^◌, Bool, false, Outcome, returns, panics, ◌>>=◌, Ordering, ltb, ◌==◌,
  if◌then◌else◌, i32_max,
}

abbrev pub SeqNumber : Type 0
SeqNumber = ℕ

-- `i32::wrapping_add` and `i32::wrapping_sub` on bit patterns.
unfoldable pub wrapping_add : SeqNumber → ℕ → SeqNumber
wrapping_add a b = (a + b) % 2 ^ 32

unfoldable pub wrapping_sub : SeqNumber → ℕ → SeqNumber
wrapping_sub a b = (a + 2 ^ 32 - b) % 2 ^ 32

-- `x < 0` for an `i32`.
unfoldable pub is_negative : ℕ → Bool
is_negative x = ltb i32_max x

-- `Add<usize>`
unfoldable pub add : SeqNumber → ℕ → Outcome SeqNumber
unfolding wrapping_add
add s rhs = if ltb i32_max rhs then panics else returns (wrapping_add s rhs)

-- `Sub<usize>`
unfoldable pub sub_size : SeqNumber → ℕ → Outcome SeqNumber
unfolding wrapping_sub
sub_size s rhs = if ltb i32_max rhs then panics else returns (wrapping_sub s rhs)

-- `Sub<SeqNumber>`: the distance from `rhs` on to `s`.
unfoldable pub sub : SeqNumber → SeqNumber → Outcome ℕ
unfolding wrapping_sub is_negative
sub s rhs = let result = wrapping_sub s rhs in if is_negative result then panics else returns result

-- `PartialOrd`: the sign of the wrapped difference.
unfoldable pub partial_cmp : SeqNumber → SeqNumber → Ordering
unfolding wrapping_sub is_negative
partial_cmp s other =
    let diff = wrapping_sub s other in
    if is_negative diff then Ordering.lt else if diff == 0 then Ordering.eq else Ordering.gt

-- The operators that Rust derives from it.
unfoldable pub lt : SeqNumber → SeqNumber → Bool
unfolding partial_cmp
lt s other = elim (partial_cmp s other) [ Ordering.lt ↦ Bool.true | _ ↦ false ]

unfoldable pub le : SeqNumber → SeqNumber → Bool
unfolding partial_cmp
le s other = elim (partial_cmp s other) [ Ordering.gt ↦ false | _ ↦ Bool.true ]

unfoldable pub gt : SeqNumber → SeqNumber → Bool
unfolding partial_cmp
gt s other = elim (partial_cmp s other) [ Ordering.gt ↦ Bool.true | _ ↦ false ]

unfoldable pub ge : SeqNumber → SeqNumber → Bool
unfolding partial_cmp
ge s other = elim (partial_cmp s other) [ Ordering.lt ↦ false | _ ↦ Bool.true ]

-- The sum is only computed, and can only panic, when the first test passes.
unfoldable pub contains_in_window : SeqNumber → SeqNumber → ℕ → Outcome Bool
unfolding le lt add
contains_in_window s other len =
    if le s other then (add s len >>= λ end. returns (lt other end)) else returns false
