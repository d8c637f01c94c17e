-- ===== src/Wire/Checked.antt =====
-- How a parser of ethox/src/wire ends: the `Result` of wire/error.rs, or a panic.
use ethox.Base.{Bool, Option, none, some, Outcome, returns, panics, ◌≡◌, refl, if◌then◌else◌}

-- `wire::Error`
pub data Error : Type 0 where
  truncated wrong_checksum unrecognized malformed unsupported : Error

pub data Result {ℓ} (A : Type ℓ) : Type ℓ where
  ok : A → Result A
  err : Error → Result A

abbrev pub accept {ℓ} : {A : Type ℓ} → A → Outcome (Result A)
accept a = returns (ok a)

abbrev pub refuse {ℓ} : {A : Type ℓ} → Error → Outcome (Result A)
refuse e = returns (err e)

-- `?`
infixl 5 ◌>>=◌ ◌>>◌
abbrev pub ◌>>=◌ {ℓ κ} :
    {A : Type ℓ} {B : Type κ} → Outcome (Result A) → (A → Outcome (Result B)) → Outcome (Result B)
returns (ok a) >>= f = f a
returns (err e) >>= f = returns (err e)
panics >>= f = panics

abbrev pub ◌>>◌ {ℓ κ} :
    {A : Type ℓ} {B : Type κ} → Outcome (Result A) → Outcome (Result B) → Outcome (Result B)
m >> k = m >>= λ _. k

-- A step that can panic, but does not fail.
abbrev pub run {ℓ} : {A : Type ℓ} → Outcome A → Outcome (Result A)
run (returns a) = returns (ok a)
run panics = panics

-- `ok_or`
abbrev pub ok_or {ℓ} : {A : Type ℓ} → Option A → Error → Outcome (Result A)
ok_or (some a) e = returns (ok a)
ok_or none e = returns (err e)

-- `if b { return Err(e) }`
abbrev pub fail_if : Bool → Error → Outcome (Result (Unit {0}))
fail_if b e = if b then refuse e else accept tt

-- A call that does not panic.
abbrev pub Answers {ℓ} : {A : Type ℓ} → Outcome A → Type ℓ
Answers {A} m = (r : A) × (m ≡ returns r)

-- A sequence of steps answers when each step does.
pub >>=-Answers {ℓ κ} :
    {A : Type ℓ} {B : Type κ} (m : Outcome (Result A)) (f : A → Outcome (Result B))
    → Answers m
    → ((a : A) → m ≡ accept a → Answers (f a))
    → Answers (m >>= f)
>>=-Answers (returns (ok a)) f h k = k a refl
>>=-Answers (returns (err e)) f h k = (err e, refl)
>>=-Answers panics f (r, e) k = cc
