-- ===== src/Wire/Ip/Within.antt =====
-- The masks of ethox/src/wire/ipv4.rs and ethox/src/wire/ipv6.rs take the high bits, so that networks lie within
-- one another as `contains_subnet` of ethox/src/wire/ip.rs says.
use ethox.Base.{
  ℕ, zero, suc, ◌+◌, ◌-◌, ◌*◌, ◌/◌, ◌%◌, ◌^◌, ◌≤◌, ◌<◌, ◌≡◌, ◌⊎◌, inl, inr, refl, sym, ap, ◌∙◌,
  subst, arith, min, true, false, returns, panics, leb, if◌then◌else◌, Bool-cases, leb→le,
}
use native.Mathlib.Nat.{mod-lt, one-le-pow}
use ethox.Wire.Repr.{Address, unspecified, ipv4, ipv6}
use ethox.Wire.Ip.{Subnet, net4, net6, contains, contains_subnet}
use ethox.Wire.Ip.V4
use ethox.Wire.Ip.V6
use ethox.Wire.Ip.V6.{mask_octets}
use ethox.Wire.Ip.Bits.{
  high_bits, high_bits-high_bits, high_bits-first, high_bits-rest, high_bits-none,
}

reaches : (d : ℕ) → (d < 8) ⊎ (8 ≤ d)
reaches d = elim (Bool-cases (leb 8 d)) [
  | inl h ↦ inr (leb→le 8 d h)
  | inr h ↦ inl (ground (arith, h))
]

high_bits-all : (a : ℕ) → high_bits a 0 ≡ a
high_bits-all a = omega arith

plus_none : (a : ℕ) → a + 0 ≡ a
plus_none a = omega arith

-- Octet by octet, the bits are taken that the whole address has outside its last `128 - prefix` ones.
mask_octets-high_bits :
    (n i prefix a : ℕ)
    → a < 2 ^ (8 * n)
    → mask_octets n i prefix a ≡ high_bits a (8 * n - (prefix - i * 8))
mask_octets-high_bits zero i prefix a h = sym (
    high_bits-none a (0 - (prefix - i * 8))
      (omega (arith, h, one-le-pow (0 - (prefix - i * 8)) 2 (omega arith))))
mask_octets-high_bits (suc n) i prefix a h =
    let width = 8 * n in
    let low = a % 2 ^ width in
    let part = a / 2 ^ width in
    let d = prefix - i * 8 in
    let small : low < 2 ^ width = mod-lt a (one-le-pow width 2 (omega arith)) in
    let rest = mask_octets-high_bits n (i + 1) prefix low small in
    elim (reaches d) [
      | inl l ↦
          let kept : 8 - min d 8 ≡ 8 - d = omega arith in
          let all : width - (prefix - (i + 1) * 8) ≡ width = omega arith in
          let sum : width + (8 - d) ≡ 8 * suc n - d = omega arith in
          ap (λ b. high_bits part b * 2 ^ width + mask_octets n (i + 1) prefix low) kept
          ∙ ap (λ r. high_bits part (8 - d) * 2 ^ width + r)
              (rest ∙ ap (high_bits low) all ∙ high_bits-none low width small)
          ∙ plus_none (high_bits part (8 - d) * 2 ^ width)
          ∙ high_bits-first a width (8 - d)
          ∙ ap (high_bits a) sum
      | inr l ↦
          let e = 8 * suc n - d in
          let kept : 8 - min d 8 ≡ 0 = omega arith in
          let some_bits : width - (prefix - (i + 1) * 8) ≡ e = omega arith in
          let sum : e + (width - e) ≡ width = omega arith in
          ap (λ b. high_bits part b * 2 ^ width + mask_octets n (i + 1) prefix low) kept
          ∙ ap (λ p. p * 2 ^ width + mask_octets n (i + 1) prefix low) (high_bits-all part)
          ∙ ap (λ r. part * 2 ^ width + r) (rest ∙ ap (high_bits low) some_bits)
          ∙ subst (λ w. a / 2 ^ w * 2 ^ w + high_bits (a % 2 ^ w) e ≡ high_bits a e) sum
              (high_bits-rest a e (width - e))
    ]

-- The mask of an IPv6 address clears the last `128 - prefix` of its bits, although the code goes octet by octet;
-- for a prefix above 128 it panics.
pub mask-high_bits :
    (a prefix : ℕ)
    → a < 2 ^ 128
    → V6.mask a prefix ≡ (if leb prefix 128 then returns (high_bits a (128 - prefix)) else panics)
unfolding V6.mask
mask-high_bits a prefix h = elim (Bool-cases (leb prefix 128)) [
  | inl l ↦
      let bits : 8 * 16 - (prefix - 0 * 8) ≡ 128 - prefix = omega arith in
      rw l (ap returns (mask_octets-high_bits 16 0 prefix a h ∙ ap (high_bits a) bits))
  | inr l ↦ rw l refl
]

-- An address of a network, in so many bits.
abbrev LiesIn : ℕ → ℕ → ℕ → ℕ → Type 0
LiesIn width network prefix a = (prefix ≤ width) × (network ≡ high_bits a (width - prefix))

LiesIn-wider :
    (width s p o q a : ℕ) → p ≤ q → LiesIn width s p o → LiesIn width o q a → LiesIn width s p a
LiesIn-wider width s p o q a l (lp, inner) (lq, outer) =
    let sum : width - q + (q - p) ≡ width - p = omega arith in
    (
      lp,
      inner
          ∙ ap (λ b. high_bits b (width - p)) outer
          ∙ subst (λ m. high_bits (high_bits a (width - q)) m ≡ high_bits a m) sum
              (high_bits-high_bits a (width - q) (q - p)),
    )

contains4-LiesIn :
    (s : V4.Subnet) (a : ℕ) → V4.contains s a ≡ returns true → LiesIn 32 s.address s.prefix a
unfolding V4.contains V4.mask
contains4-LiesIn s a e = ground (arith, e)

LiesIn-contains4 :
    (s : V4.Subnet) (a : ℕ) → LiesIn 32 s.address s.prefix a → V4.contains s a ≡ returns true
unfolding V4.contains V4.mask
LiesIn-contains4 s a (l, e) = ground (arith, l, e)

contains6-LiesIn :
    (s : V6.Subnet) (a : ℕ)
    → a < 2 ^ 128
    → V6.contains s a ≡ returns true
    → LiesIn 128 s.address s.prefix a
unfolding V6.contains
contains6-LiesIn s a h e = ground (arith, e, mask-high_bits a s.prefix h)

LiesIn-contains6 :
    (s : V6.Subnet) (a : ℕ)
    → a < 2 ^ 128
    → LiesIn 128 s.address s.prefix a
    → V6.contains s a ≡ returns true
unfolding V6.contains
LiesIn-contains6 s a h (l, e) = ground (arith, l, e, mask-high_bits a s.prefix h)

-- The address is one that 32 or 128 bits spell.
abbrev pub IsAddress : Address → Type 0
IsAddress unspecified = Unit
IsAddress (ipv4 a) = a < 2 ^ 32
IsAddress (ipv6 a) = a < 2 ^ 128

within4 :
    (s other : V4.Subnet) (a : ℕ)
    → V4.contains_subnet s other ≡ returns true
    → V4.contains other a ≡ returns true
    → V4.contains s a ≡ returns true
unfolding V4.contains_subnet
within4 s other a outer inner = elim (Bool-cases (leb s.prefix other.prefix)) [
  | inr l ↦
      let e : V4.contains_subnet s other ≡ returns false = rw (l, V4.contains_subnet) refl in cc
  | inl l ↦
      let e : V4.contains s other.address ≡ returns true =
        sym (rw (l, V4.contains_subnet) refl) ∙ outer in
      LiesIn-contains4 s a (
        LiesIn-wider 32 s.address s.prefix other.address other.prefix a (leb→le _ _ l)
          (contains4-LiesIn s other.address e) (contains4-LiesIn other a inner))
]

within6 :
    (s other : V6.Subnet) (a : ℕ)
    → a < 2 ^ 128
    → V6.contains_subnet s other ≡ returns true
    → V6.contains other a ≡ returns true
    → V6.contains s a ≡ returns true
unfolding V6.contains_subnet
within6 s other a h outer inner = elim (Bool-cases (leb s.prefix other.prefix)) [
  | inr l ↦
      let e : V6.contains_subnet s other ≡ returns false = rw (l, V6.contains_subnet) refl in cc
  | inl l ↦
      let (lq, f) = contains6-LiesIn other a h inner in
      let small : other.address < 2 ^ 128 = omega (arith, f, h) in
      let e : V6.contains s other.address ≡ returns true =
        sym (rw (l, V6.contains_subnet) refl) ∙ outer in
      LiesIn-contains6 s a h (
        LiesIn-wider 128 s.address s.prefix other.address other.prefix a (leb→le _ _ l)
          (contains6-LiesIn s other.address small e) (lq, f))
]

-- If `contains_subnet` says that a network contains another one, every address of the other one is contained in it,
-- in both versions of the protocol.
pub contains_subnet-contains :
    (s other : Subnet) (a : Address)
    → IsAddress a
    → contains_subnet s other ≡ returns true
    → contains other a ≡ returns true
    → contains s a ≡ returns true
unfolding contains contains_subnet
contains_subnet-contains (net4 s) (net4 other) (ipv4 a) h outer inner =
    within4 s other a outer inner
contains_subnet-contains (net6 s) (net6 other) (ipv6 a) h outer inner =
    within6 s other a h outer inner
contains_subnet-contains (net4 s) (net6 other) a h outer inner = cc
contains_subnet-contains (net6 s) (net4 other) a h outer inner = cc
contains_subnet-contains (net4 s) (net4 other) unspecified h outer inner = cc
contains_subnet-contains (net4 s) (net4 other) (ipv6 a) h outer inner = cc
contains_subnet-contains (net6 s) (net6 other) unspecified h outer inner = cc
contains_subnet-contains (net6 s) (net6 other) (ipv4 a) h outer inner = cc
