-- ===== src/Api/Main.antt =====
-- app/main.py. FastAPI, AnyIO, APScheduler and Starlette's CORS middleware are parameters.
use green_communuty_backend.Prelude.{
  ℕ, String, Bool, Option, none, some, List, [], ◌∷◌, if◌then◌else◌,
}
use green_communuty_backend.Core.Action.{Action, Result, ok, err, ◌>>◌, pure}
use green_communuty_backend.Config.Settings.{Settings, is_production}
use green_communuty_backend.Api.Failures.{JsonResponse}
use green_communuty_backend.Api.Middleware.{dispatch}

-- What the process does outside the repository's code, and whether the scheduler runs.
pub record Host : Type 1 where
  pub Process : Type 0
  pub configure_logging : Action Process (Unit {0})
  pub set_total_tokens : ℕ → Action Process (Unit {0})
  pub start_scheduler : Action Process (Unit {0})
  pub shutdown_scheduler : Action Process (Unit {0})
  -- from the `yield` until the server stops
  pub serve : Action Process (Unit {0})
  pub is_running : Process → Bool

-- `try: … finally: …`; what the second part raises takes the place of the first part's outcome.
unfoldable pub outcome : Result (Unit {0}) → Result (Unit {0}) → Result (Unit {0})
outcome r (ok done) = r
outcome r (err e) = err e

module _ {S : Type 0} where
  unfoldable pub try_finally : Action S (Unit {0}) → Action S (Unit {0}) → Action S (Unit {0})
  unfolding outcome
  try_finally body last s =
      let served = body s in let stopped = last served.1 in (outcome served.0 stopped.0, stopped.1)

module _ (H : Host) (synchronize_database : Action (H.Process) (Unit {0})) where
  unfoldable pub lifespan : Settings → Action (H.Process) (Unit {0})
  unfolding try_finally
  lifespan s = do
    H.configure_logging
    H.set_total_tokens s.threadpool_max_workers
    if s.db_synchronize then synchronize_database else pure tt
    H.start_scheduler
    try_finally H.serve H.shutdown_scheduler

-- The middlewares, in the order of `_register_middleware`.
pub data Middleware : Type 0 where
  cors request_context : Middleware

unfoldable pub register_middleware : List Middleware
register_middleware = cors ∷ request_context ∷ []

-- The arguments of `FastAPI(…)` and the prefix of the routers.
pub record App : Type 0 where
  pub title : String
  pub docs_url : Option String
  pub redoc_url : Option String
  pub openapi_url : Option String
  pub middlewares : List Middleware
  pub prefix : String

abbrev unless : Bool → String → Option String
unless hidden url = if hidden then none else some url

unfoldable pub create_app : Settings → App
unfolding is_production register_middleware
create_app s = record {
  title = s.project_name;
  docs_url = unless (is_production s) "/docs";
  redoc_url = unless (is_production s) "/redoc";
  openapi_url = unless (is_production s) "/openapi.json";
  middlewares = register_middleware;
  prefix = s.api_v1_prefix;
}

-- What answers a request; the argument is `request.state.request_id`, once it is set.
abbrev pub Handler : Type 0 → Type 0
Handler S = Option String → Action S JsonResponse

module _ {S : Type 0} (cors_middleware : Handler S → Handler S) (sent : Option String)
    (fresh : String) where
  unfoldable pub wrapped : Middleware → Handler S → Handler S
  unfolding dispatch
  wrapped cors handler = cors_middleware handler
  wrapped request_context handler = λ _. dispatch sent fresh (λ id. handler (some id))

  -- The middleware that is added last is the outermost.
  unfoldable pub stacked : List Middleware → Handler S → Handler S
  unfolding wrapped
  stacked [] handler = handler
  stacked (m ∷ ms) handler = stacked ms (wrapped m handler)

  unfoldable pub answered : Settings → Handler S → Action S JsonResponse
  unfolding stacked create_app
  answered s handler = stacked (create_app s).middlewares handler none
