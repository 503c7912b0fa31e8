-- ===== src/Api/Failures.antt =====
-- app/core/exception_handlers.py and `ErrorResponse` of app/common/schemas.py, without the log lines.
use green_communuty_backend.Prelude.{
  ℕ, ◌≡◌, refl, String, Option, none, some, List, [], ◌∷◌, map, str_eq, if◌then◌else◌, arith,
}
use Prim.Native.String.{◌++◌}
use green_communuty_backend.Core.Errors.{Error, status_code, error_code}
use green_communuty_backend.Config.Settings.{Environment, is_production_at}

-- One entry of `RequestValidationError.errors()`.
pub record InvalidField : Type 0 where
  pub loc : List String
  pub msg : String
  pub type : String

pub record FieldError : Type 0 where
  pub field : String
  pub message : String
  pub type : String

pub data Detail : Type 0 where
  given : String → Detail
  fields : List FieldError → Detail
  cause : String → Detail

pub record ErrorResponse : Type 0 where
  pub code : String
  pub message : String
  pub detail : Option Detail
  pub request_id : Option String

pub record JsonResponse : Type 0 where
  pub status_code : ℕ
  pub content : ErrorResponse
  pub headers : List (String × String)

-- What an exception object carries beside its class: its message, its detail and its `repr`.
pub record Carried : Type 0 where
  pub message : String
  pub detail : Option Detail
  pub representation : String

pub data Failure : Type 0 where
  raised : Error → Carried → Failure
  invalid : List InvalidField → Failure
  framework : ℕ → String → List (String × String) → Failure

-- `_build_response`
unfoldable pub build_response :
    Option String → ℕ → String → String → Option Detail → List (String × String) → JsonResponse
build_response request_id status code message detail headers = record {
  status_code = status;
  content = record { code = code; message = message; detail = detail; request_id = request_id };
  headers = headers;
}

-- `".".join(parts)`
unfoldable pub join_dots : List String → String
join_dots [] = ""
join_dots (s ∷ []) = s
join_dots (s ∷ t ∷ rest) = s ++ ("." ++ join_dots (t ∷ rest))

abbrev or_else : String → String → String
or_else s t = if str_eq s "" then t else s

-- `loc` without its first part, or that part alone; the library gives at least one.
abbrev field_name : List String → String
field_name [] = ""
field_name (s ∷ rest) = or_else (join_dots rest) s

unfoldable pub field_error : InvalidField → FieldError
unfolding join_dots
field_error e = record { field = field_name e.loc; message = e.msg; type = e.type }

module _ (str_of : ℕ → String) (status_name : ℕ → String) (environment : Environment)
    (request_id : Option String) where
  abbrev retry_after : Error → List (String × String)
  retry_after (Error.rate_limited n) = ("Retry-After", str_of n) ∷ []
  retry_after _ = []

  unfoldable pub app_exception_handler : Error → ℕ → String → Carried → JsonResponse
  unfolding build_response
  app_exception_handler e status code exc =
      build_response request_id status code exc.message exc.detail (retry_after e)

  unfoldable pub validation_exception_handler : List InvalidField → JsonResponse
  unfolding build_response field_error
  validation_exception_handler errors =
      build_response request_id 422 "VALIDATION_ERROR" "요청 값이 올바르지 않습니다."
        (some (Detail.fields (map field_error errors))) []

  unfoldable pub http_exception_handler : ℕ → String → List (String × String) → JsonResponse
  unfolding build_response
  http_exception_handler status message headers =
      build_response request_id status (status_name status) message none headers

  unfoldable pub sqlalchemy_exception_handler : JsonResponse
  unfolding build_response
  sqlalchemy_exception_handler =
      build_response request_id 500 "DATABASE_ERROR" "데이터 처리 중 오류가 발생했습니다." none []

  unfoldable pub unhandled_exception_handler : Carried → JsonResponse
  unfolding build_response
  unhandled_exception_handler exc =
      build_response request_id 500 "INTERNAL_ERROR" "서버 내부 오류가 발생했습니다."
        (if is_production_at environment then none else some (Detail.cause exc.representation)) []

  -- What is no AppError: IntegrityError is SQLAlchemy's, the others have no handler of their own.
  abbrev other_handler : Error → Carried → JsonResponse
  other_handler Error.integrity_error exc = sqlalchemy_exception_handler
  other_handler _ exc = unhandled_exception_handler exc

  abbrev by_class : Error → Option ℕ → Option String → Carried → JsonResponse
  by_class e (some status) (some code) exc = app_exception_handler e status code exc
  by_class e (some status) none exc = other_handler e exc
  by_class e none code exc = other_handler e exc

  -- `register_exception_handlers`: the handler of the most specific class answers.
  unfoldable pub answer : Failure → JsonResponse
  unfolding app_exception_handler
  answer (Failure.raised e exc) = by_class e (status_code e) (error_code e) exc
  answer (Failure.invalid errors) = validation_exception_handler errors
  answer (Failure.framework status message headers) = http_exception_handler status message headers

  -- What a client is told: the status, the code and the headers.
  pub record Told : Type 0 where
    pub status : ℕ
    pub code : String
    pub headers : List (String × String)

  abbrev told : ℕ → String → Told
  told status code = record { status = status; code = code; headers = [] }

  -- The contract of the API: the status that HTTP registers for each kind of failure, the stable
  -- code that goes with it, and when to come back after a rate limit.
  abbrev pub contract : Failure → Told
  contract (Failure.raised Error.bad_request exc) = told 400 "BAD_REQUEST"
  contract (Failure.raised Error.unauthorized exc) = told 401 "UNAUTHORIZED"
  contract (Failure.raised Error.forbidden exc) = told 403 "FORBIDDEN"
  contract (Failure.raised Error.not_found exc) = told 404 "NOT_FOUND"
  contract (Failure.raised Error.conflict exc) = told 409 "CONFLICT"
  contract (Failure.raised (Error.rate_limited seconds) exc) = record (told 429 "RATE_LIMITED") {
    headers = ("Retry-After", str_of seconds) ∷ [];
  }
  contract (Failure.raised Error.service_unavailable exc) = told 503 "SERVICE_UNAVAILABLE"
  contract (Failure.raised Error.storage_not_configured exc) = told 503 "STORAGE_NOT_CONFIGURED"
  contract (Failure.raised Error.value_error exc) = told 500 "INTERNAL_ERROR"
  contract (Failure.raised Error.integrity_error exc) = told 500 "DATABASE_ERROR"
  contract (Failure.raised Error.storage_error exc) = told 500 "INTERNAL_ERROR"
  contract (Failure.raised Error.diverged exc) = told 500 "INTERNAL_ERROR"
  contract (Failure.invalid errors) = told 422 "VALIDATION_ERROR"
  contract (Failure.framework status message headers) = record (told status (status_name status)) {
    headers = headers;
  }

  abbrev pub told_by : JsonResponse → Told
  told_by r = record { status = r.status_code; code = r.content.code; headers = r.headers }

  -- Every failure, whether an AppError, a body that fails validation, an exception of the framework
  -- or any other exception, is answered with the status, the code and the headers of the contract
  -- (a Retry-After header for a rate limit, the framework's own headers for its exceptions, and
  -- none otherwise), and with the id of the request.
  pub answer-contract :
      (f : Failure)
      → (told_by (answer f) ≡ contract f) × ((answer f).content.request_id ≡ request_id)
  unfolding answer app_exception_handler sqlalchemy_exception_handler unhandled_exception_handler
      build_response status_code error_code validation_exception_handler http_exception_handler
  answer-contract (Failure.raised Error.bad_request exc) = (refl, refl)
  answer-contract (Failure.raised Error.unauthorized exc) = (refl, refl)
  answer-contract (Failure.raised Error.forbidden exc) = (refl, refl)
  answer-contract (Failure.raised Error.not_found exc) = (refl, refl)
  answer-contract (Failure.raised Error.conflict exc) = (refl, refl)
  answer-contract (Failure.raised (Error.rate_limited n) exc) = (refl, refl)
  answer-contract (Failure.raised Error.service_unavailable exc) = (refl, refl)
  answer-contract (Failure.raised Error.storage_not_configured exc) = (refl, refl)
  answer-contract (Failure.raised Error.value_error exc) = (refl, refl)
  answer-contract (Failure.raised Error.integrity_error exc) = (refl, refl)
  answer-contract (Failure.raised Error.storage_error exc) = (refl, refl)
  answer-contract (Failure.raised Error.diverged exc) = (refl, refl)
  answer-contract (Failure.invalid errors) = (refl, refl)
  answer-contract (Failure.framework status message headers) = (refl, refl)

  -- In production, the response to an exception that is neither an AppError, nor one of the
  -- framework (HTTPException), nor a failed validation of the request, has status 500 and no
  -- detail, and does not depend on the exception's message, detail or representation.
  pub answer-hides :
      (e : Error) (a b : Carried)
      → status_code e ≡ none
      → environment ≡ Environment.production
      → (answer (Failure.raised e a) ≡ answer (Failure.raised e b))
        × ((answer (Failure.raised e a)).status_code ≡ 500)
        × ((answer (Failure.raised e a)).content.detail ≡ none)
  unfolding answer sqlalchemy_exception_handler unhandled_exception_handler build_response
      status_code error_code
  answer-hides Error.bad_request a b other live = absurd (ground (arith, other))
  answer-hides Error.unauthorized a b other live = absurd (ground (arith, other))
  answer-hides Error.forbidden a b other live = absurd (ground (arith, other))
  answer-hides Error.not_found a b other live = absurd (ground (arith, other))
  answer-hides Error.conflict a b other live = absurd (ground (arith, other))
  answer-hides (Error.rate_limited n) a b other live = absurd (ground (arith, other))
  answer-hides Error.service_unavailable a b other live = absurd (ground (arith, other))
  answer-hides Error.storage_not_configured a b other live = absurd (ground (arith, other))
  answer-hides Error.value_error a b other live = (rw live refl, refl, rw live refl)
  answer-hides Error.integrity_error a b other live = (refl, refl, refl)
  answer-hides Error.storage_error a b other live = (rw live refl, refl, rw live refl)
  answer-hides Error.diverged a b other live = (rw live refl, refl, rw live refl)
