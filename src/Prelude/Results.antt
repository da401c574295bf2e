-- ===== src/Prelude/Results.antt =====
-- `Result<T, E>`, with `?` as the bind of a `do` block.
use mathlib.Core.Bool.{Bool, true, false}
use mathlib.Core.Path.{◌≡◌, refl}
use mathlib.Core.Logic.{◌⊎◌, inl, inr}
use mathlib.Core.Option.{Option, none, some}

pub data Result {ℓ κ} (A : Type ℓ) (E : Type κ) : Type (ℓ ⊔ κ) where
  ok : A → Result A E
  err : E → Result A E

module _ {ℓ κ} {E : Type κ} where
  infixl 5 ◌>>=◌ ◌>>◌
  abbrev pub ◌>>=◌ {μ} : {A : Type ℓ} {B : Type μ} → Result A E → (A → Result B E) → Result B E
  ok a >>= f = f a
  err e >>= f = err e

  abbrev pub ◌>>◌ {μ} : {A : Type ℓ} {B : Type μ} → Result A E → Result B E → Result B E
  m >> k = m >>= λ _. k

-- An early `return Err(e)` unless the test holds.
abbrev pub guard {κ} : {E : Type κ} → Bool → E → Result (Unit {0}) E
guard true e = ok tt
guard false e = err e

-- `Option::ok_or`.
abbrev pub ok_or {ℓ κ} : {A : Type ℓ} {E : Type κ} → Option A → E → Result A E
ok_or (some a) e = ok a
ok_or none e = err e

pub Result-cases {ℓ κ} :
    {A : Type ℓ} {E : Type κ} (r : Result A E) → ((a : A) × (r ≡ ok a)) ⊎ ((e : E) × (r ≡ err e))
Result-cases (ok a) = inl (a, refl)
Result-cases (err e) = inr (e, refl)
