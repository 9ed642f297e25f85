-- ===== src/Errors.antt =====
-- The errors that the program tells apart, and the results that carry them.
use signbyte_bff.Base.{ℕ, String, Option, none, some}

-- A non-2xx answer of a composed service (clients/clients.go, `HTTPError`).
pub record HttpError : Type 0 where
  pub service : String
  pub status_code : ℕ
  pub body : String

pub data Error : Type 0 where
  -- session.ErrNotFound
  not_found : Error
  -- encoding/json refused a value or a text
  bad_json : Error
  -- the stored key is not one
  bad_key : Error
  -- Redis did not answer
  redis_failed : Error
  -- the on-behalf call had no subject token
  missing_token : String → Error
  -- no HTTP answer at all
  unreachable : String → Error
  upstream : HttpError → Error
  bad_answer : String → Error
  -- a call of the Auth Service, or of its client library, failed
  auth_failed : Error
  -- a request body, or one of its fields, was refused
  bad_request : Error
  param_invalid : String → Error
  param_required : String → Error
  file_unreadable : Error
  -- the offered flows could not be read again; the last answer is used
  offer_stale : Error → Error
  -- a part of the process could not be built
  not_started : String → Error

pub data Result (A : Type 0) : Type 0 where
  ok : A → Result A
  err : Error → Result A

infixl 5 ◌>>=◌
abbrev pub ◌>>=◌ : {A B : Type 0} → Result A → (A → Result B) → Result B
ok a >>= f = f a
err e >>= f = err e

-- A Go call whose only failure is an error of the given kind.
abbrev pub or_err : {A : Type 0} → Option A → Error → Result A
or_err none e = err e
or_err (some a) e = ok a
