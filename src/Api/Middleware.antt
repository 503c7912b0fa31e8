-- ===== src/Api/Middleware.antt =====
-- `RequestContextMiddleware` of app/core/middleware.py, without the log lines and the time.
use green_communuty_backend.Prelude.{
  String, Option, none, some, List, [], ◌∷◌, str_eq, if◌then◌else◌,
}
use green_communuty_backend.Core.Action.{Action, ◌>>=◌, pure}
use green_communuty_backend.Api.Failures.{JsonResponse}

abbrev pub request_id_header : String
request_id_header = "X-Request-ID"

-- The header of the request if it is sent and not empty, or a fresh `uuid4().hex`.
unfoldable pub request_id_of : Option String → String → String
request_id_of none fresh = fresh
request_id_of (some id) fresh = if str_eq id "" then fresh else id

-- `response.headers[name] = value`
unfoldable pub set_header : String → String → List (String × String) → List (String × String)
set_header name value [] = (name, value) ∷ []
set_header name value ((n, v) ∷ headers) =
    let rest = set_header name value headers in
    if str_eq n name then (name, value) ∷ headers else (n, v) ∷ rest

-- `call_next` gets the id that the middleware leaves in `request.state`.
unfoldable pub dispatch :
    {S : Type 0} → Option String → String → (String → Action S JsonResponse) → Action S JsonResponse
unfolding request_id_of set_header
dispatch sent fresh call_next = do
  response ← call_next (request_id_of sent fresh)
  pure (record response {
    headers = set_header request_id_header (request_id_of sent fresh) response.headers;
  })
