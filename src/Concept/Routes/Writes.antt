-- ===== src/Concept/Routes/Writes.antt =====
-- Which requests can change other systems (RegisterHandlers of concept/handlers.go).
use aggregate_concept_transf.Common.{
  List, [], ◌∷◌, ◌++◌, map, Bool, true, false, All, ◌≡◌, refl, sym, ap, ◌∙◌, some,
}
use aggregate_concept_transf.Text.{Str, codes}
use aggregate_concept_transf.Text.Regex.{match_here}
use aggregate_concept_transf.Effects.{Log, M}
use aggregate_concept_transf.World.{World}
use aggregate_concept_transf.Concept.Service.{AggregateService}
use aggregate_concept_transf.Concept.Changes.{writes, Keeps, writes-OnlyReads}
use aggregate_concept_transf.Concept.Gather.Calls.{OnlyCalls-OnlyReads}
use aggregate_concept_transf.Concept.Checks.Quiet.{run_check-writes}
use aggregate_concept_transf.Concept.Handlers.{send_handler}
use aggregate_concept_transf.Concept.Handlers.ReadOnly.{send_handler-ReadOnly}
use aggregate_concept_transf.Concept.Handlers.Safe.{get_handler-OnlyReads}
use aggregate_concept_transf.Concept.HealthService.{
  Status, HealthService, gtg, gtg_check, status_checkers,
}
use aggregate_concept_transf.Concept.Routes.{
  HttpRequest, Handler, Template, Libraries, TimedHealthCheck, send_template, api_routes,
  monitoring_router, health_page, register_handlers,
}

-- The path is one of the template's, with this value of its variable.
abbrev pub Matches : Template → (path uuid : Str) → Type 0
Matches t path uuid =
    (path ≡ t.before ++ (uuid ++ t.after)) × (match_here t.pattern uuid ≡ some (uuid, []))

-- What the libraries' documents say of the calls that their handlers make: a method handler runs
-- the handler of the request's method, the router that of a matching template with its variable,
-- ServeMux one of its handlers; a page of health checks runs the checkers; the others run what they
-- are given. None makes calls of its own.
pub record Documented (libs : Libraries) : Type 1 where
  pub method_handler_keeps :
      (P : Log → Type 0) (handlers : List (Str × Handler)) (r : HttpRequest)
      → All (λ (h : Str × Handler). (h.0 ≡ r.method → Keeps P (h.1 r))) handlers
      → Keeps P (libs.method_handler handlers r)
  pub router_keeps :
      (P : Log → Type 0) (routes : List (Template × Handler)) (r : HttpRequest)
      → All
          (λ (h : Template × Handler).
            ((uuid : Str) → Matches h.0 r.path uuid → Keeps P (h.1 (record r { uuid = uuid }))))
          routes
      → Keeps P (libs.router routes r)
  pub transaction_logging_keeps :
      (P : Log → Type 0) (h : Handler) (r : HttpRequest)
      → Keeps P (h r)
      → Keeps P (libs.transaction_logging h r)
  pub http_metrics_keeps :
      (P : Log → Type 0) (h : Handler) (r : HttpRequest)
      → Keeps P (h r)
      → Keeps P (libs.http_metrics h r)
  pub serve_mux_keeps :
      (P : Log → Type 0) (handlers : List (Str × Handler)) (r : HttpRequest)
      → All (λ (h : Str × Handler). Keeps P (h.1 r)) handlers
      → Keeps P (libs.serve_mux handlers r)
  pub health_handler_keeps :
      (P : Log → Type 0) (page : TimedHealthCheck) (checkers : List (M (Unit {0})))
      (r : HttpRequest)
      → All (λ (m : M (Unit {0})). Keeps P m) checkers
      → Keeps P (libs.health_handler page checkers r)
  pub good_to_go_handler_keeps :
      (P : Log → Type 0) (checker : M Status) (r : HttpRequest)
      → Keeps P checker
      → Keeps P (libs.good_to_go_handler checker r)
  pub build_info_handler_keeps :
      (P : Log → Type 0) (r : HttpRequest) → Keeps P (libs.build_info_handler r)
  pub fail_fast_parallel_check_keeps :
      (P : Log → Type 0) (checkers : List (M Status))
      → All (λ (m : M Status). Keeps P m) checkers
      → Keeps P (libs.fail_fast_parallel_check checkers)

-- POST /concept/UUID/send
abbrev pub IsSend : HttpRequest → Type 0
IsSend r = (r.method ≡ codes "POST") × ((uuid : Str) × Matches send_template r.path uuid)

All-of_map :
    {A B : Type 0} (P : B → Type 0) (f : A → B) (xs : List A)
    → ((x : A) → P (f x))
    → All P (map f xs)
All-of_map P f [] h = tt
All-of_map P f (x ∷ xs) h = (h x, All-of_map P f xs h)

module _ {R : Type 0} (w : World R) (s : AggregateService) (libs : Libraries)
    (documented : Documented libs) (start : Log) where
  -- No call has changed another system since `start`.
  abbrev Unchanged : Log → Type 0
  Unchanged log = writes log ≡ writes start

  -- Where the request is one to send a concept, the sending changes nothing.
  abbrev Harmless : HttpRequest → Type 0
  Harmless r = IsSend r → (uuid : Str) → Keeps Unchanged (send_handler w s uuid)

  api-Keeps : (r : HttpRequest) → Harmless r → Keeps Unchanged (libs.router (api_routes w s libs) r)
  api-Keeps r send = documented.router_keeps Unchanged (api_routes w s libs) r (
    (λ uuid m. documented.method_handler_keeps Unchanged _ _ (
      (λ e log h.
          writes-OnlyReads log _
            (OnlyCalls-OnlyReads w s log _ (get_handler-OnlyReads w s uuid r.publication log))
          ∙ h),
      tt,
    )),
    (
      (λ uuid m.
          documented.method_handler_keeps Unchanged _ _ ((λ e. send (sym e, (uuid, m)) uuid), tt)),
      tt,
    ),
  )

  logged-Keeps :
      (on : Bool) (r : HttpRequest) → Harmless r → Keeps Unchanged (monitoring_router w s libs on r)
  logged-Keeps true r send =
      documented.http_metrics_keeps Unchanged _ r
        (documented.transaction_logging_keeps Unchanged _ r (api-Keeps r send))
  logged-Keeps false r send = documented.http_metrics_keeps Unchanged _ r (api-Keeps r send)

  health-Keeps :
      (health_service : HealthService) (r : HttpRequest)
      → Keeps Unchanged (health_page w s libs health_service r)
  health-Keeps health_service r = documented.health_handler_keeps Unchanged _ _ r (
      All-of_map _ _ health_service.checks
        λ check log h. run_check-writes w s check.checker log ∙ h)

  gtg-Keeps :
      (health_service : HealthService)
      → Keeps Unchanged (gtg w s libs.fail_fast_parallel_check health_service)
  unfolding gtg status_checkers gtg_check
  gtg-Keeps health_service = documented.fail_fast_parallel_check_keeps Unchanged _ (
      All-of_map _ (gtg_check w s) health_service.checks
        λ check log h. run_check-writes w s check.checker log ∙ h)

  register_handlers-Keeps :
      (health_service : HealthService) (request_logging_enabled : Bool) (r : HttpRequest)
      → Harmless r
      → writes (register_handlers w s libs health_service request_logging_enabled r start).1
        ≡ writes start
  unfolding register_handlers
  register_handlers-Keeps health_service request_logging_enabled r send =
      documented.serve_mux_keeps Unchanged _ r
        (
          health-Keeps health_service r,
          (
            documented.good_to_go_handler_keeps Unchanged _ r (gtg-Keeps health_service),
            (
              documented.build_info_handler_keeps Unchanged r,
              (logged-Keeps request_logging_enabled r send, tt),
            ),
          ),
        )
        start refl

  -- If the libraries make no calls but those of the handlers and checkers that they are there
  -- to run, then only a POST of /concept/UUID/send can change another system: any other
  -- request, to the API, the health page, /__gtg or any other path, leaves no call but reads,
  -- whether the requests are logged or not.
  pub register_handlers-IsSend :
      (health_service : HealthService) (request_logging_enabled : Bool) (r : HttpRequest)
      → ¬ IsSend r
      → writes (register_handlers w s libs health_service request_logging_enabled r start).1
        ≡ writes start
  register_handlers-IsSend health_service request_logging_enabled r other =
      register_handlers-Keeps health_service request_logging_enabled r (λ send. absurd (other send))

  -- In read-only mode no request at all changes another system.
  pub register_handlers-ReadOnly :
      (health_service : HealthService) (request_logging_enabled : Bool) (r : HttpRequest)
      → s.read_only ≡ true
      → writes (register_handlers w s libs health_service request_logging_enabled r start).1
        ≡ writes start
  register_handlers-ReadOnly health_service request_logging_enabled r read_only =
      register_handlers-Keeps health_service request_logging_enabled r λ _ uuid log h.
        let (_, quiet, _) = send_handler-ReadOnly w s uuid log read_only in
        ap (λ t. writes t.1) quiet ∙ h
