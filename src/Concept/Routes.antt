-- ===== src/Concept/Routes.antt =====
-- RegisterHandlers of concept/handlers.go: which handler answers which request.
-- The libraries that it puts the handlers together with are parameters.
pub mod Writes
pub mod Dispatch
pub mod Reads
use aggregate_concept_transf.Common.{ℕ, List, [], ◌∷◌, map, Bool, if◌then◌else◌}
use aggregate_concept_transf.Text.{Str, codes}
use aggregate_concept_transf.Text.Regex.{Class, uuid_matcher}
use aggregate_concept_transf.Effects.{M}
use aggregate_concept_transf.World.{World}
use aggregate_concept_transf.Concept.Service.{AggregateService}
use aggregate_concept_transf.Concept.Checks.{run_check}
use aggregate_concept_transf.Concept.Handlers.{Response, get_handler, send_handler}
use aggregate_concept_transf.Concept.HealthService.{HealthCheck, Status, HealthService, gtg}

-- A request, as far as the handlers look at it: its method, its path, the query parameter
-- "publication", and mux.Vars(r)["uuid"].
pub record HttpRequest : Type 0 where
  pub method : Str
  pub path : Str
  pub publication : Str
  pub uuid : Str

-- http.Handler
abbrev pub Handler : Type 0
Handler = HttpRequest → M Response

-- A path with one variable that is restricted to a pattern: before{uuid:pattern}after.
pub record Template : Type 0 where
  pub before : Str
  pub pattern : List Class
  pub after : Str

-- fthealth.TimedHealthCheck; the timeout is in seconds.
pub record TimedHealthCheck : Type 0 where
  pub system_code : Str
  pub name : Str
  pub description : Str
  pub checks : List HealthCheck
  pub timeout : ℕ

-- What RegisterHandlers takes from gorilla/mux, gorilla/handlers, net/http, http-handlers-go,
-- go-fthealth and service-status-go. A page of health checks is made with the Checkers of its checks.
pub record Libraries : Type 0 where
  pub method_handler : List (Str × Handler) → Handler
  pub router : List (Template × Handler) → Handler
  pub transaction_logging : Handler → Handler
  pub http_metrics : Handler → Handler
  pub serve_mux : List (Str × Handler) → Handler
  pub health_handler : TimedHealthCheck → List (M (Unit {0})) → Handler
  pub good_to_go_handler : M Status → Handler
  pub build_info_handler : Handler
  pub fail_fast_parallel_check : List (M Status) → M Status
  pub gtg_path : Str
  pub build_info_path : Str

-- "/concept/{uuid:[0-9a-f]{8}-[0-9a-f]{4}-[0-9a-f]{4}-[0-9a-f]{4}-[0-9a-f]{12}}"
abbrev pub concept_template : Template
concept_template = record { before = codes "/concept/"; pattern = uuid_matcher; after = [] }

-- The same with "/send" behind it.
abbrev pub send_template : Template
send_template = record { before = codes "/concept/"; pattern = uuid_matcher; after = codes "/send" }

module _ {R : Type 0} (w : World R) (s : AggregateService) (libs : Libraries) where
  -- mh and sh: one method each
  abbrev pub api_routes : List (Template × Handler)
  api_routes =
      (
        concept_template,
        libs.method_handler ((codes "GET", λ r. get_handler w s r.uuid r.publication) ∷ []),
      )
      ∷ (send_template, libs.method_handler ((codes "POST", λ r. send_handler w s r.uuid) ∷ []))
      ∷ []

  -- the API behind the request log, if it is on, and the metrics
  abbrev pub monitoring_router : (request_logging_enabled : Bool) → Handler
  monitoring_router request_logging_enabled =
      let router = libs.router api_routes in
      libs.http_metrics
        (if request_logging_enabled then libs.transaction_logging router else router)

  -- the page of /__health
  abbrev pub health_page : HealthService → Handler
  health_page health_service =
      libs.health_handler
        (record {
          system_code = health_service.app_system_code;
          name = health_service.app_name;
          description = health_service.description;
          checks = health_service.checks;
          timeout = 10;
        })
        (map (λ (check : HealthCheck). run_check w s check.checker) health_service.checks)

  -- (*AggregateConceptHandler).RegisterHandlers
  unfoldable pub register_handlers : HealthService → (request_logging_enabled : Bool) → Handler
  register_handlers health_service request_logging_enabled = libs.serve_mux (
      (codes "/__health", health_page health_service)
      ∷ (
        libs.gtg_path,
        libs.good_to_go_handler (gtg w s libs.fail_fast_parallel_check health_service),
      )
      ∷ (libs.build_info_path, libs.build_info_handler)
      ∷ (codes "/", monitoring_router request_logging_enabled)
      ∷ [])
