-- ===== src/Core/Errors.antt =====
-- app/core/exceptions.py: the exception classes, without their texts. `value_error` is Python's
-- ValueError, `integrity_error` SQLAlchemy's IntegrityError and `storage_error` an exception of the
-- storage client, which are no AppError;
-- `diverged` is no exception: a loop of the model ended because its fuel ran out.
use green_communuty_backend.Prelude.{ℕ, String, Option, none, some}

pub data Error : Type 0 where
  bad_request unauthorized forbidden not_found conflict : Error
  rate_limited : ℕ → Error
  service_unavailable storage_not_configured : Error
  value_error integrity_error storage_error diverged : Error

-- The status of the response to an AppError; `none` for what is no AppError.
unfoldable pub status_code : Error → Option ℕ
status_code Error.bad_request = some 400
status_code Error.unauthorized = some 401
status_code Error.forbidden = some 403
status_code Error.not_found = some 404
status_code Error.conflict = some 409
status_code (Error.rate_limited _) = some 429
status_code Error.service_unavailable = some 503
status_code Error.storage_not_configured = some 503
status_code Error.value_error = none
status_code Error.integrity_error = none
status_code Error.storage_error = none
status_code Error.diverged = none

-- The stable `code` of an AppError.
unfoldable pub error_code : Error → Option String
error_code Error.bad_request = some "BAD_REQUEST"
error_code Error.unauthorized = some "UNAUTHORIZED"
error_code Error.forbidden = some "FORBIDDEN"
error_code Error.not_found = some "NOT_FOUND"
error_code Error.conflict = some "CONFLICT"
error_code (Error.rate_limited _) = some "RATE_LIMITED"
error_code Error.service_unavailable = some "SERVICE_UNAVAILABLE"
error_code Error.storage_not_configured = some "STORAGE_NOT_CONFIGURED"
error_code Error.value_error = none
error_code Error.integrity_error = none
error_code Error.storage_error = none
error_code Error.diverged = none
