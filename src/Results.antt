-- ===== src/Results.antt =====
-- Exceptions as values: what a service function or a handler returns or raises.
use alma_lead_management_ser.Common.{◌≡◌, ◌⊎◌, inl, inr, refl, ℕ, Bool, true, false, Text}

pub data Error : Type 0 where
  -- `HTTPException(status_code, detail)`
  http : (status_code : ℕ) → (detail : Text) → Error
  -- `sqlalchemy.exc.IntegrityError`
  integrity_error : Error
  -- `sqlalchemy.exc.MultipleResultsFound`
  multiple_results_found : Error
  -- `ValueError`
  value_error : Error
  -- `RuntimeError`
  runtime_error : Error
  -- `KeyError`
  key_error : Error
  -- `OSError`
  os_error : Error
  -- `botocore.exceptions.ClientError`
  client_error : Error
  -- FastAPI's answer 422 to a request that its schema refuses
  request_validation_error : Error

pub data Result {ℓ} (A : Type ℓ) : Type ℓ where
  ok : A → Result A
  err : Error → Result A

pub Result-cases {ℓ} :
    {A : Type ℓ} (r : Result A) → ((a : A) × (r ≡ ok a)) ⊎ ((e : Error) × (r ≡ err e))
Result-cases (ok a) = inl (a, refl)
Result-cases (err e) = inr (e, refl)

-- A call that reads and writes a state. After an exception the state is the committed one.
abbrev pub Action {ℓ} : Type ℓ → Type ℓ → Type ℓ
Action S A = S → Result A × S

module _ {ℓ} {S A : Type ℓ} where
  abbrev pub pure : A → Action S A
  pure a s = (ok a, s)

  abbrev pub raise : Error → Action S A
  raise e s = (err e, s)

  abbrev pub lift : Result A → Action S A
  lift r s = (r, s)

  abbrev pub gets : (S → A) → Action S A
  gets f s = (ok (f s), s)

infixl 5 ◌>>=◌ ◌>>◌
abbrev pub ◌>>=◌ {ℓ} : {S A B : Type ℓ} → Action S A → (A → Action S B) → Action S B
◌>>=◌ m f s = let (r, s') = m s in elim r [ ok a ↦ f a s' | err e ↦ (err e, s') ]

abbrev pub ◌>>◌ {ℓ} : {S A B : Type ℓ} → Action S A → Action S B → Action S B
m >> k = m >>= λ _. k

-- `if c: raise e`
abbrev pub raise_if : {S : Type 0} → Bool → Error → Action S (Unit {0})
raise_if true e s = (err e, s)
raise_if false e s = (ok tt, s)
