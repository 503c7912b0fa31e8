-- ===== src/Api/Startup.antt =====
-- The start and the end of the process, and what stands around every handler.
use green_communuty_backend.Prelude.{
  ℕ, String, ◌≡◌, refl, false, Option, none, some, List, [], ◌∷◌, inl, inr, str_eq, arith, eq_iff,
  if◌then◌else◌, sym, ◌∙◌, ap,
}
use green_communuty_backend.Core.Errors.{Error}
use green_communuty_backend.Core.Action.{Action, ok, err, ok_err, ok_inj, Result-cases, ◌>>=◌, pure}
use green_communuty_backend.Core.Keeps.{Keeps, Keeps-bind, Keeps-if}
use green_communuty_backend.Config.Settings.{Settings, Environment, load, load-IsAccepted}
use green_communuty_backend.Api.Failures.{JsonResponse}
use green_communuty_backend.Api.Middleware.{request_id_header, request_id_of, set_header, dispatch}
use green_communuty_backend.Api.Main.{Host, Handler, lifespan, try_finally, answered}

-- `response.headers.get(name)`
unfoldable pub header : String → List (String × String) → Option String
header name [] = none
header name ((n, v) ∷ rest) = if str_eq n name then some v else header name rest

header-set_header :
    (name value : String) (headers : List (String × String))
    → header name (set_header name value headers) ≡ some value
unfolding header set_header
header-set_header name value [] = ground (arith, eq_iff name name)
header-set_header name value ((n, v) ∷ rest) =
    ground (arith, eq_iff name name, eq_iff n name, header-set_header name value rest)

module _ (H : Host) where
  abbrev pub Idle : H.Process → Type 0
  Idle w = H.is_running w ≡ false

  -- What the calls of the libraries do to the scheduler.
  pub record RunsTheScheduler : Type 0 where
    pub configure_logging-Idle : Keeps Idle H.configure_logging
    pub set_total_tokens-Idle : (n : ℕ) → Keeps Idle (H.set_total_tokens n)
    pub start_scheduler-refused :
        (w : H.Process) (e : Error)
        → (H.start_scheduler w).0 ≡ err e
        → Idle w
        → Idle (H.start_scheduler w).1
    pub shutdown_scheduler-Idle : (w : H.Process) → Idle (H.shutdown_scheduler w).1

  module _ (runs : RunsTheScheduler) (synchronize_database : Action (H.Process) (Unit {0})) where
    finally-Idle : (w : H.Process) → Idle (try_finally H.serve H.shutdown_scheduler w).1
    unfolding try_finally
    finally-Idle w = runs.shutdown_scheduler-Idle (H.serve w).1

    started-Idle :
        (w : H.Process)
        → Idle w
        → Idle ((H.start_scheduler >>= λ _. try_finally H.serve H.shutdown_scheduler) w).1
    started-Idle w h = elim (Result-cases (H.start_scheduler w).0) [
      | inl (done, e) ↦ rw (e, ◌>>=◌) (finally-Idle (H.start_scheduler w).1)
      | inr (x, e) ↦ rw (e, ◌>>=◌) (runs.start_scheduler-refused w x e h)
    ]

    pub lifespan-Idle :
        (s : Settings)
        → Keeps Idle synchronize_database
        → Keeps Idle (lifespan H synchronize_database s)
    unfolding lifespan
    lifespan-Idle s sync = Keeps-bind Idle H.configure_logging _ runs.configure_logging-Idle (λ _.
        Keeps-bind Idle (H.set_total_tokens s.threadpool_max_workers) _
          (runs.set_total_tokens-Idle s.threadpool_max_workers)
          (λ _.
            Keeps-bind Idle (if s.db_synchronize then synchronize_database else pure tt) _
              (Keeps-if Idle s.db_synchronize synchronize_database (pure tt) sync (λ w h. h))
              (λ _. started-Idle)))

  -- If the settings load and the environment is production, the start and the end of the process
  -- do not depend on what `synchronize_database` would do: with any other call in its place,
  -- `lifespan` is the same.
  pub lifespan-no_synchronize :
      (raw s : Settings) (synchronize_database other : Action (H.Process) (Unit {0}))
      → load raw ≡ ok s
      → s.environment ≡ Environment.production
      → lifespan H synchronize_database s ≡ lifespan H other s
  unfolding lifespan
  lifespan-no_synchronize raw s synchronize_database other loaded in_production =
      let off = (load-IsAccepted raw s loaded).1.no_drop_in_production in_production in rw off refl

module _ {S : Type 0} (cors_middleware : Handler S → Handler S) (sent : Option String)
    (fresh : String) where
  dispatch-id :
      (call_next : String → Action S JsonResponse) (s : S) (r : JsonResponse)
      → (dispatch sent fresh call_next s).0 ≡ ok r
      → header request_id_header r.headers ≡ some (request_id_of sent fresh)
  unfolding dispatch
  dispatch-id call_next s r h = elim (Result-cases (call_next (request_id_of sent fresh) s).0) [
    | inl (response, e) ↦
        ap (λ (x : JsonResponse). header request_id_header x.headers) (sym (ok_inj _ _ (rw e at h)))
        ∙ header-set_header request_id_header (request_id_of sent fresh) response.headers
    | inr (x, e) ↦ absurd (ok_err r x (sym (rw e at h)))
  ]

  -- Whatever the CORS middleware and the handler below it do, a response that comes out of the
  -- middlewares of the application carries in X-Request-ID the id that the request sent, or the
  -- fresh one where it sent none or an empty one.
  pub answered-id :
      (settings : Settings) (handler : Handler S) (s : S) (r : JsonResponse)
      → (answered cors_middleware sent fresh settings handler s).0 ≡ ok r
      → header request_id_header r.headers ≡ some (request_id_of sent fresh)
  unfolding answered
  answered-id settings handler s r h = dispatch-id (λ id. cors_middleware handler (some id)) s r h
