-- ===== src/Errors.antt =====
-- The exceptions of app/domain/exceptions.py, with Python's own `ValueError` and `AttributeError`,
-- the decimal module's `InvalidOperation`, SQLAlchemy's `MultipleResultsFound` and those of
-- app/infrastructure/bcb/exceptions.py. The message of an exception is left out. A function that may raise returns a `Result`.
use blanco_financas_api.Prelude.{Bool, true, false, Option, none, some, ◌≡◌, refl, ◌⊎◌, inl, inr}

pub data Error : Type 0 where
  value_error : Error
  attribute_error : Error
  invalid_operation : Error
  invalid_money : Error
  insufficient_balance : Error
  invalid_withdrawal : Error
  transaction_not_found : Error
  invalid_transaction_status : Error
  yield_calculation : Error
  authorization : Error
  plan_not_found : Error
  contract_not_found : Error
  subscription_not_found : Error
  no_viable_plan : Error
  invalid_subscription : Error
  payment_not_found : Error
  invalid_payment : Error
  duplicate_payment : Error
  invalid_cpf invalid_email user_not_found authentication invalid_token : Error
  user_not_activated user_already_exists notification_not_found : Error
  bcb_unavailable bcb_invalid_series bcb_invalid_date_range : Error
  multiple_results : Error

-- What a call that may raise gives back.
pub data Result {ℓ} (A : Type ℓ) : Type ℓ where
  ok : A → Result A
  err : Error → Result A

module _ {ℓ κ} {A : Type ℓ} {B : Type κ} where
  infixl 5 ◌>>=◌ ◌>>◌
  -- The rest of the code runs unless the call raised.
  abbrev pub ◌>>=◌ : Result A → (A → Result B) → Result B
  err raised >>= rest = err raised
  ok value >>= rest = rest value

  abbrev pub ◌>>◌ : Result A → Result B → Result B
  first >> second = first >>= λ _. second

  -- Where a sequence succeeded, its first call did, and the rest did on its value.
  pub >>=-eq-ok :
      (call : Result A) (rest : A → Result B) {answer : B}
      → (call >>= rest) ≡ ok answer
      → (value : A) × (call ≡ ok value) × (rest value ≡ ok answer)
  >>=-eq-ok (err raised) rest h = cc
  >>=-eq-ok (ok value) rest h = (value, refl, h)

-- `if test: raise error`
abbrev pub raise_if : Bool → Error → Result (Unit {0})
raise_if true e = err e
raise_if false e = ok tt

abbrev pub or_raise {ℓ} : {A : Type ℓ} → Option A → Error → Result A
or_raise none e = err e
or_raise (some a) e = ok a

pub ok_injective {ℓ} : {A : Type ℓ} {a b : A} → ok a ≡ ok b → a ≡ b
ok_injective h = cc

-- To split on a call that may raise, and keep the equation.
pub Result-cases {ℓ} :
    {A : Type ℓ} (r : Result A) → ((a : A) × (r ≡ ok a)) ⊎ ((e : Error) × (r ≡ err e))
Result-cases (ok a) = inl (a, refl)
Result-cases (err e) = inr (e, refl)
