-- ===== src/Errors.antt =====
-- app/core/errors.py: the application's errors, the HTTP reply to each, and the other exceptions
-- that the code raises or catches.
use ai_generation_api.Prelude.{
  ℕ, String, Option, none, some, ◌==◌, if◌then◌else◌, nat_eq, string_eq,
}

-- `AppError` and its subclasses.
pub data ErrorClass : Type 0 where
  app not_found validation auth rate_limit payment_required provider : ErrorClass

-- The class attribute `status_code`.
abbrev pub class_status : ErrorClass → ℕ
class_status app = 400
class_status not_found = 404
class_status validation = 422
class_status auth = 401
class_status rate_limit = 429
class_status payment_required = 402
class_status provider = 502

-- The class attribute `code`.
abbrev pub class_code : ErrorClass → String
class_code app = "app_error"
class_code not_found = "not_found"
class_code validation = "validation_error"
class_code auth = "unauthorized"
class_code rate_limit = "rate_limited"
class_code payment_required = "insufficient_balance"
class_code provider = "provider_error"

pub record AppError : Type 0 where
  pub class : ErrorClass
  pub message : String
  pub code : String
  pub status_code : ℕ

-- `if code:` and `if status_code:`: an empty code and a status of 0 are falsy.
abbrev given_code : ErrorClass → Option String → String
given_code c none = class_code c
given_code c (some s) = if s == "" then class_code c else s

abbrev given_status : ErrorClass → Option ℕ → ℕ
given_status c none = class_status c
given_status c (some n) = if n == 0 then class_status c else n

-- `AppError.__init__`
unfoldable pub app_error : ErrorClass → String → Option String → Option ℕ → AppError
app_error c message code status = record {
  class = c;
  message = message;
  code = given_code c code;
  status_code = given_status c status;
}

-- What a Python call raises. `safety_blocked` is app/services/safety.py's own exception;
-- `integrity_error` is SQLAlchemy's, `soft_time_limit` Celery's and `http_error` httpx's.
pub data Error : Type 0 where
  app_raised : AppError → Error
  safety_blocked : String → Error
  integrity_error soft_time_limit : Error
  http_error : String → Error
  other : String → Error

-- `raise Class(message)`
abbrev pub raised : ErrorClass → String → Error
raised c message =
    app_raised
      (record { class = c; message = message; code = class_code c; status_code = class_status c })

-- The body of the JSON reply: `status`, `error.code`, `error.message`.
pub record ErrorReply : Type 0 where
  pub http_status : ℕ
  pub status : String
  pub code : String
  pub message : String

-- `_app_error_handler`
unfoldable pub app_error_handler : AppError → ErrorReply
app_error_handler exc = record {
  http_status = exc.status_code;
  status = "error";
  code = exc.code;
  message = exc.message;
}
