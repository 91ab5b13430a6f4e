-- ===== src/Apperr.antt =====
-- server/internal/apperr/apperr.go: the structured error with an HTTP status.
use screenspace.Base.{ℕ, String, Option, none, some}

-- `Error`. The wrapped Go error is kept by the label that the code wraps it under.
pub record Error : Type 0 where
  pub status : ℕ
  pub code : String
  pub message : String
  pub cause : Option String

abbrev pub not_found : String → Error
not_found msg = record { status = 404; code = "not_found"; message = msg; cause = none }

abbrev pub forbidden : String → Error
forbidden msg = record { status = 403; code = "forbidden"; message = msg; cause = none }

abbrev pub conflict : String → Error
conflict msg = record { status = 409; code = "conflict"; message = msg; cause = none }

abbrev pub bad_request : String → Error
bad_request msg = record { status = 400; code = "validation_failed"; message = msg; cause = none }

abbrev pub internal : String → Error
internal cause = record {
  status = 500;
  code = "internal_error";
  message = "internal server error";
  cause = some cause;
}

-- The text of the error: `Error.Error`.
pub text : Error → String
text e = elim e.cause [ some cause ↦ cause | none ↦ e.message ]
