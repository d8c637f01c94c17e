-- ===== src/Wire/Ip/Bits.antt =====
-- Numbers without their low bits, for the masks of ethox/src/wire/ipv4.rs and ethox/src/wire/ipv6.rs.
use ethox.Base.{ℕ, zero, suc, ◌+◌, ◌-◌, ◌*◌, ◌/◌, ◌%◌, ◌^◌, ◌<◌, ◌≡◌, sym, ap, ◌∙◌, arith, subst}
use native.Mathlib.Nat.{
  dvd-mul_right, div-add-mod', mod-le, pow-suc, mul_assoc, mul_comm, mul-div_right, div-add-mod,
  one-le-pow, div-div-eq-div-mul, mod-mod_of_dvd, mod-eq_of_lt,
}

-- The bits from `n` on.
abbrev pub high_bits : ℕ → ℕ → ℕ
high_bits a n = a - a % 2 ^ n

pub high_bits_lem : (a n : ℕ) → high_bits a n ≡ 2 ^ n * (a / 2 ^ n)
high_bits_lem a n = omega (arith, div-add-mod a (2 ^ n))

pow_sum : (n k : ℕ) → 2 ^ (n + k) ≡ 2 ^ n * 2 ^ k
pow_sum n zero = let e : n + 0 ≡ n = omega arith in ap (λ m. 2 ^ m) e ∙ omega arith
pow_sum n (suc k) =
    let e : n + suc k ≡ suc (n + k) = omega arith in
    ap (λ m. 2 ^ m) e
    ∙ pow-suc 2 (n + k)
    ∙ ap (λ m. m * 2) (pow_sum n k)
    ∙ mul_assoc (2 ^ n) (2 ^ k) 2
    ∙ ap (λ m. 2 ^ n * m) (sym (pow-suc 2 k))

positive : (n : ℕ) → 0 < 2 ^ n
positive n = one-le-pow n 2 (omega arith)

-- What is left above more bits is the quotient of what is left above fewer.
high_bits-split : (a n k : ℕ) → high_bits a (n + k) ≡ 2 ^ n * (2 ^ k * (a / 2 ^ n / 2 ^ k))
high_bits-split a n k =
    high_bits_lem a (n + k)
    ∙ ap (λ m. m * (a / m)) (pow_sum n k)
    ∙ ap (λ q. 2 ^ n * 2 ^ k * q) (sym (div-div-eq-div-mul a (2 ^ n) (2 ^ k)))
    ∙ mul_assoc (2 ^ n) (2 ^ k) (a / 2 ^ n / 2 ^ k)

pub high_bits-high_bits : (a n k : ℕ) → high_bits (high_bits a n) (n + k) ≡ high_bits a (n + k)
high_bits-high_bits a n k =
    ap (λ b. high_bits b (n + k)) (high_bits_lem a n)
    ∙ high_bits-split (2 ^ n * (a / 2 ^ n)) n k
    ∙ ap (λ q. 2 ^ n * (2 ^ k * (q / 2 ^ k))) (mul-div_right (a / 2 ^ n) (positive n))
    ∙ sym (high_bits-split a n k)

-- The high bits of a number whose first part is `part`, above all of `low` or above some of it.
pub high_bits-first : (a n k : ℕ) → high_bits (a / 2 ^ n) k * 2 ^ n ≡ high_bits a (n + k)
high_bits-first a n k =
    ap (λ m. m * 2 ^ n) (high_bits_lem (a / 2 ^ n) k)
    ∙ mul_comm (2 ^ k * (a / 2 ^ n / 2 ^ k)) (2 ^ n)
    ∙ sym (high_bits-split a n k)

pub high_bits-rest :
    (a e k : ℕ) → a / 2 ^ (e + k) * 2 ^ (e + k) + high_bits (a % 2 ^ (e + k)) e ≡ high_bits a e
high_bits-rest a e k =
    let whole = 2 ^ (e + k) in
    let low : a % whole % 2 ^ e ≡ a % 2 ^ e =
      subst (λ m. a % m % 2 ^ e ≡ a % 2 ^ e) (sym (pow_sum e k))
        (mod-mod_of_dvd (2 ^ e) a (dvd-mul_right (2 ^ e) (2 ^ k))) in
    omega (arith, div-add-mod' a whole, mod-le (a % whole) (2 ^ e))

pub high_bits-none : (a n : ℕ) → a < 2 ^ n → high_bits a n ≡ 0
high_bits-none a n h = omega (arith, mod-eq_of_lt h)
