-- ===== src/Base/Run.antt =====
-- How a call of a Rust function ends: it returns a value, or it panics (`panic!`, `assert!`,
-- `unwrap` of nothing, `unimplemented!`, an index out of range).
use mathlib.Core.Path.{◌≡◌, refl}
use mathlib.Core.Bool.{Bool, true, false}
use mathlib.Core.Option.{Option, none, some}

pub data Outcome {ℓ} (A : Type ℓ) : Type ℓ where
  returns : A → Outcome A
  panics : Outcome A

infixl 5 ◌>>=◌ ◌>>◌
abbrev pub ◌>>=◌ {ℓ κ} : {A : Type ℓ} {B : Type κ} → Outcome A → (A → Outcome B) → Outcome B
returns a >>= f = f a
panics >>= f = panics

abbrev pub ◌>>◌ {ℓ κ} : {A : Type ℓ} {B : Type κ} → Outcome A → Outcome B → Outcome B
m >> k = m >>= λ _. k

-- `assert!(b)`
abbrev pub ensure : Bool → Outcome (Unit {0})
ensure true = returns tt
ensure false = panics

-- `unwrap`, and what an index into a slice does with what `get` finds.
abbrev pub unwrap {ℓ} : {A : Type ℓ} → Option A → Outcome A
unwrap (some a) = returns a
unwrap none = panics

-- A successful sequence has two successful parts.
pub >>=-eq-returns {ℓ κ} :
    {A : Type ℓ} {B : Type κ} (m : Outcome A) (f : A → Outcome B) {b : B}
    → (m >>= f) ≡ returns b
    → (a : A) × (m ≡ returns a) × (f a ≡ returns b)
>>=-eq-returns (returns a) f h = (a, refl, h)
>>=-eq-returns panics f h = cc
