-- ===== src/Errors.antt =====
-- application/exceptions.py, and the other exceptions that the modelled code can raise.
use leaf_flow_chat.Prelude.{String, ◌≡◌, refl, ◌⊎◌, inl, inr}

-- `AppError` and its subclasses, each with its `detail`
pub data AppError : Type 0 where
  not_found forbidden conflict validation : String → AppError

-- `integrity_error` is SQLAlchemy's, when the server refuses a row.
pub data Error : Type 0 where
  app : AppError → Error
  integrity_error assertion_error value_error key_error type_error attribute_error : Error

pub data Result (A : Type 0) : Type 0 where
  ok : A → Result A
  err : Error → Result A

pub Result-cases :
    {A : Type 0} (r : Result A) → ((a : A) × (r ≡ ok a)) ⊎ ((e : Error) × (r ≡ err e))
Result-cases (ok a) = inl (a, refl)
Result-cases (err e) = inr (e, refl)
