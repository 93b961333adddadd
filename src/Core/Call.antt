-- ===== src/Core/Call.antt =====
-- A Go call that returns a value and an `error`, and that may panic: `none` is a panic.
use v2b_x_turbo.Base.{
  Bool, true, false, inl, inr, ◌⊎◌, refl, ◌≡◌, String, Option, none, some, Result, ok, err,
  if◌then◌else◌,
}

abbrev pub Call {ℓ} : Type ℓ → Type ℓ
Call A = Option (Result A)

infixl 5 ◌>>=◌
abbrev pub ◌>>=◌ {ℓ κ} : {A : Type ℓ} {B : Type κ} → Call A → (A → Call B) → Call B
none >>= f = none
some (ok a) >>= f = f a
some (err m) >>= f = some (err m)

abbrev pub return {ℓ} : {A : Type ℓ} → A → Call A
return a = some (ok a)

abbrev pub fail {ℓ} : {A : Type ℓ} → String → Call A
fail m = some (err m)

-- A nil pointer panics.
abbrev pub deref {ℓ} : {A : Type ℓ} → Option A → Call A
deref none = none
deref (some a) = some (ok a)

-- The error of a call with a text in front.
abbrev pub wrap {ℓ} : {A : Type ℓ} → (String → String) → Result A → Call A
wrap f (ok a) = some (ok a)
wrap f (err m) = some (err (f m))

-- A chain that returns has passed through a value of its first call.
module _ {ℓ κ} {A : Type ℓ} {B : Type κ} (next : A → Call B) where
  pub >>=-eq-return :
      {last : B} (step : Call A)
      → (step >>= next) ≡ return last
      → (passed : A) × (step ≡ return passed) × (next passed ≡ return last)
  >>=-eq-return none done = cc
  >>=-eq-return (some (err e)) done = cc
  >>=-eq-return (some (ok passed)) done = (passed, refl, done)

-- A call returns a value, or it does not: it fails or panics.
abbrev pub returns {ℓ} : {A : Type ℓ} → Call A → Bool
returns none = false
returns (some (ok a)) = true
returns (some (err m)) = false

pub Call-cases {ℓ} : {A : Type ℓ} (m : Call A) → ((a : A) × (m ≡ return a)) ⊎ (returns m ≡ false)
Call-cases none = inr refl
Call-cases (some (ok a)) = inl (a, refl)
Call-cases (some (err e)) = inr refl

-- Whatever value a call returns has the property.
abbrev pub Returns {ℓ κ} : {A : Type ℓ} → (A → Type κ) → Call A → Type (ℓ ⊔ κ)
Returns {A} P m = (a : A) → m ≡ return a → P a

module _ {ℓ κ μ} {A : Type ℓ} {B : Type κ} (P : B → Type μ) where
  pub >>=-Returns :
      (m : Call A) (f : A → Call B)
      → ((a : A) → m ≡ return a → Returns P (f a))
      → Returns P (m >>= f)
  >>=-Returns m f k b h = let (a, made, rest) = >>=-eq-return f m h in k a made b rest

pub if-Returns {ℓ κ} :
    {A : Type ℓ} (P : A → Type κ) (b : Bool) (x y : Call A)
    → (b ≡ true → Returns P x)
    → (b ≡ false → Returns P y)
    → Returns P (if b then x else y)
if-Returns P true x y t f = t refl
if-Returns P false x y t f = f refl

pub fail-Returns {ℓ κ} : {A : Type ℓ} (P : A → Type κ) (message : String) → Returns P (fail message)
fail-Returns P message a h = cc
