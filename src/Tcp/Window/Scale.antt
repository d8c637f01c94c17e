-- ===== src/Tcp/Window/Scale.antt =====
-- `Receive::update_window` of ethox/src/layer/tcp/connection.rs.
use native.Mathlib.Nat.{div-add-mod', mod-lt, mul-le-mul_right, one-le-pow, pow-le-pow_right}
use ethox.Base.{
  ℕ, ◌+◌, ◌*◌, ◌/◌, ◌%◌, ◌^◌, ◌≤◌, ◌<◌, ◌≡◌, min, not, returns, arith, ◌==◌, u16_max, u32_max,
}
use ethox.Wire.Flags.{from_bool}
use ethox.Tcp.Types.{Receive}
use ethox.Tcp.Window.{update_window, scaled_down}

-- `c` divided by `p`, rounded up.
abbrev units : ℕ → ℕ → ℕ
units c p = c / p + from_bool (not (c % p == 0))

units_bounds : (c p : ℕ) → 0 < p → (c ≤ units c p * p) × (units c p * p < c + p)
units_bounds c p h = ground (arith, div-add-mod' c p, mod-lt c h)

units-le : (c p n : ℕ) → 0 < p → c ≤ n * p → units c p ≤ n
units-le c p n h le = grind (arith, units_bounds c p h, mul-le-mul_right)

pub unit_bounds : (k : ℕ) → k ≤ 14 → (0 < 2 ^ k) × (2 ^ k ≤ 2 ^ 14)
unit_bounds k h = (one-le-pow k 2 (omega arith), pow-le-pow_right {n = 2} (omega arith) h)

-- `capped` of the code, for the unit `p`.
abbrev capped_at : ℕ → ℕ → ℕ
capped_at window p = min (min window u32_max) (u16_max * p % 2 ^ 32)

-- With a unit of at most 2^14 no word overflows.
no_overflow :
    (window p : ℕ)
    → 0 < p
    → p ≤ 2 ^ 14
    → (capped_at window p / p + from_bool (not (capped_at window p % (1 * p % 2 ^ 32) == 0)))
        % 2 ^ 32
      ≡ units (min window (u16_max * p)) p
no_overflow window p pos le =
    let cap : capped_at window p ≡ min window (u16_max * p) = omega arith in
    let one : 1 * p % 2 ^ 32 ≡ p = omega arith in
    rw (cap, one) (omega (arith, units-le (min window (u16_max * p)) p u16_max pos (omega arith)))

scaled_down-eq-units :
    (r : Receive) (window : ℕ)
    → r.window_scale ≤ 14
    → scaled_down r window ≡ units (min window (u16_max * 2 ^ r.window_scale)) (2 ^ r.window_scale)
unfolding scaled_down
scaled_down-eq-units r window h =
    let e : r.window_scale % 32 ≡ r.window_scale = omega arith in
    let (pos, le) = unit_bounds r.window_scale h in
    rw e (no_overflow window (2 ^ r.window_scale) pos le)

-- For a scale of at most 14 the window field fits in 16 bits, and stands for at least the offered
-- bytes, or the most that the field can say, and for less than one unit more.
pub update_window_rounds_up :
    (r : Receive) (window : ℕ)
    → r.window_scale ≤ 14
    → (w : ℕ) × (update_window r window ≡ returns (record r { window = w }))
      × (w ≤ u16_max)
      × (min window (u16_max * 2 ^ r.window_scale) ≤ w * 2 ^ r.window_scale)
      × (w * 2 ^ r.window_scale < min window (u16_max * 2 ^ r.window_scale) + 2 ^ r.window_scale)
unfolding update_window
update_window_rounds_up r window h =
    (scaled_down r window, ground (arith, fits), fits, bounds.0, bounds.1)
  where
    unit : ℕ
    unit = 2 ^ r.window_scale

    offered : ℕ
    offered = min window (u16_max * unit)

    fits : scaled_down r window ≤ u16_max
    fits =
        rw (scaled_down-eq-units r window h)
          (units-le offered unit u16_max (unit_bounds r.window_scale h).0 (omega arith))

    bounds :
        (offered ≤ scaled_down r window * unit) × (scaled_down r window * unit < offered + unit)
    bounds =
        rw (scaled_down-eq-units r window h)
          (units_bounds offered unit (unit_bounds r.window_scale h).0)
