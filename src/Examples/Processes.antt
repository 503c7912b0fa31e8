-- ===== src/Examples/Processes.antt =====
-- The process of the server, with a scheduler that is a flag.
use green_communuty_backend.Prelude.{◌≡◌, refl, Bool, true, false, none, some, [], ◌∷◌}
use green_communuty_backend.Core.Action.{pure, modify}
use green_communuty_backend.Config.Settings.{normalise}
use green_communuty_backend.Api.Failures.{JsonResponse}
use green_communuty_backend.Api.Middleware.{request_id_header, request_id_of, set_header}
use green_communuty_backend.Api.Main.{Host, lifespan, answered}
use green_communuty_backend.Api.Startup.{header, lifespan-no_synchronize, answered-id}
use green_communuty_backend.Examples.Startup.{deployed, deployed_loads}

abbrev flag : Host
flag = record {
  Process = Bool;
  configure_logging = pure tt;
  set_total_tokens = λ n. pure tt;
  start_scheduler = modify (λ running. true);
  shutdown_scheduler = modify (λ running. false);
  serve = pure tt;
  is_running = λ running. running;
}

lifespan-no_synchronize_example :
    lifespan flag (pure tt) (normalise deployed)
    ≡ lifespan flag (modify (λ running. true)) (normalise deployed)
unfolding normalise
lifespan-no_synchronize_example =
    lifespan-no_synchronize flag deployed (normalise deployed) (pure tt) (modify (λ running. true))
      deployed_loads refl

abbrev greeting : JsonResponse
greeting = record {
  status_code = 404;
  content = record { code = "NOT_FOUND"; message = ""; detail = none; request_id = some "abc" };
  headers = [];
}

-- A CORS middleware that leaves the handler alone, and a handler without a header of its own.
answered-id_example :
    header request_id_header (record greeting { headers = (request_id_header, "abc") ∷ [] }).headers
    ≡ some "abc"
unfolding answered request_id_of set_header
answered-id_example =
    answered-id (λ handler. handler) (some "abc") "fresh" deployed (λ id. pure greeting) true
      (record greeting { headers = (request_id_header, "abc") ∷ [] }) refl
