-- ===== src/Result.antt =====
-- `Result<A, AppError>` with a third outcome, a panic, and the actions that also change a state.
-- A state keeps what an action did before it failed, as in the source.
use trust.Prelude.{◌≡◌, ◌⊎◌, inl, inr, refl, Bool, true, false, Option, none, some}
use trust.AppError.{AppError}

pub data Result {ℓ} (A : Type ℓ) : Type ℓ where
  ok : A → Result A
  err : AppError → Result A
  panic : Result A

infixl 5 ◌>>=◌ ◌>>◌
-- `?`: what an outcome that is no success passes on.
abbrev pub ◌>>=◌ {ℓ κ} : {A : Type ℓ} {B : Type κ} → Result A → (A → Result B) → Result B
panic >>= next = panic
err error >>= next = err error
ok value >>= next = next value

abbrev pub ◌>>◌ {ℓ} : {B : Type ℓ} → Result (Unit {0}) → Result B → Result B
first >> second = first >>= λ done. second

module _ {ℓ} {A : Type ℓ} where
  -- `Option::ok_or`.
  abbrev pub ok_or : Option A → AppError → Result A
  ok_or none e = err e
  ok_or (some a) e = ok a

  -- `Option::unwrap`.
  abbrev pub unwrap : Option A → Result A
  unwrap none = panic
  unwrap (some a) = ok a

-- `if !b { return Err(e) }`.
abbrev pub ensure : Bool → AppError → Result (Unit {0})
ensure true e = ok tt
ensure false e = err e

module _ {ℓ} {A : Type ℓ} where
  pub Result-cases :
      (r : Result A) → ((a : A) × (r ≡ ok a)) ⊎ ((e : AppError) × (r ≡ err e)) ⊎ (r ≡ panic)
  Result-cases (ok a) = inl (a, refl)
  Result-cases (err e) = inr (inl (e, refl))
  Result-cases panic = inr (inr refl)

-- Both steps of a success are successes.
module _ {ℓ κ} {A : Type ℓ} {B : Type κ} {b : B} (next : A → Result B) where
  pub >>=-eq-ok : (r : Result A) → (r >>= next) ≡ ok b → (a : A) × (r ≡ ok a) × (next a ≡ ok b)
  >>=-eq-ok panic succeeds = cc
  >>=-eq-ok (err error) succeeds = cc
  >>=-eq-ok (ok value) succeeds = (value, refl, succeeds)
