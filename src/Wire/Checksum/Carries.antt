-- ===== src/Wire/Checksum/Carries.antt =====
-- What `propagate_carries` of ethox/src/wire/ip.rs computes: a remainder by 2^16 - 1 that is zero for zero only.
use ethox.Base.{ℕ, ◌+◌, ◌*◌, ◌/◌, ◌%◌, ◌^◌, ◌<◌, ◌≡◌, ◌⊎◌, arith, []}
use ethox.Base.{◌∷◌, ◌-◌, refl}
use ethox.Wire.Checksum.{propagate_carries, combine}
use native.Mathlib.Decide.{dec_lt}

pub carries_lem :
    (x : ℕ)
    → x < 2 ^ 32
    → (q : ℕ) × (x ≡ q * 65535 + propagate_carries x)
      × (propagate_carries x < 2 ^ 16)
      × ((x ≡ 0) ⊎ (0 < propagate_carries x))
unfolding propagate_carries
carries_lem x h = elim (dec_lt (x / 2 ^ 16 + x % 2 ^ 16) (2 ^ 16)) [
  | yes p ↦ (x / 2 ^ 16, omega arith, omega arith, omega arith)
  | no p ↦ (x / 2 ^ 16 + 1, omega arith, omega arith, omega arith)
]

pub combine_two :
    (a b : ℕ) → a < 2 ^ 16 → b < 2 ^ 16 → combine (a ∷ b ∷ []) ≡ propagate_carries (a + b)
unfolding combine
combine_two a b ha hb = let e : ((0 + a) % 2 ^ 32 + b) % 2 ^ 32 ≡ a + b = omega arith in rw e refl

-- Filling in the complement of a sum makes the sum all ones.
pub complement_lem :
    (header rest : ℕ)
    → header < 2 ^ 16
    → rest < 2 ^ 31
    → let total = propagate_carries (header + propagate_carries rest) in
      propagate_carries (header + propagate_carries (rest + (65535 - total))) ≡ 65535
complement_lem header rest hh hr =
    let (q0, e0, b0, z0) = carries_lem rest (omega arith) in
    let (q1, e1, b1, z1) = carries_lem (header + propagate_carries rest) (omega arith) in
    let c = 65535 - propagate_carries (header + propagate_carries rest) in
    let (q2, e2, b2, z2) = carries_lem (rest + c) (omega arith) in
    let (q3, e3, b3, z3) = carries_lem (header + propagate_carries (rest + c)) (omega arith) in
    ground arith
