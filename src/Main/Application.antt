-- ===== src/Main/Application.antt =====
-- app.Action of main.go behind the service: the HTTP client, the handlers, the number of workers and
-- the HTTP server. Durations are in seconds.
pub mod ReadOnly
use aggregate_concept_transf.Common.{◌∷◌, true, ℕ, ◌+◌, Bool}
use aggregate_concept_transf.Text.{Str, codes}
use aggregate_concept_transf.Text.Itoa.{itoa}
use aggregate_concept_transf.Effects.{M, ◌>>=◌, return}
use aggregate_concept_transf.World.{Setup, World}
use aggregate_concept_transf.Concept.Service.{AggregateService}
use aggregate_concept_transf.Concept.Handlers.{AggregateConceptHandler, new_handler}
use aggregate_concept_transf.Concept.HealthService.{HealthService, new_health_service}
use aggregate_concept_transf.Concept.Routes.{Handler, Libraries, register_handlers}
use aggregate_concept_transf.Main.{Options, max_workers, action}

abbrev app_description : Str
app_description =
    codes "Service to aggregate concepts from different sources and produce a canonical view."

-- http.Client with its http.Transport and net.Dialer
pub record HttpClient : Type 0 where
  pub dial_timeout : ℕ
  pub keep_alive : ℕ
  pub dual_stack : Bool
  pub max_idle_conns : ℕ
  pub max_idle_conns_per_host : ℕ
  pub idle_conn_timeout : ℕ
  pub tls_handshake_timeout : ℕ
  pub expect_continue_timeout : ℕ

-- defaultHTTPClient: one idle connection of a host more than there are workers
unfoldable pub default_http_client : (max_workers : ℕ) → HttpClient
default_http_client max_workers = record {
  dial_timeout = 90;
  keep_alive = 60;
  dual_stack = true;
  max_idle_conns = 128;
  max_idle_conns_per_host = max_workers + 1;
  idle_conn_timeout = 90;
  tls_handshake_timeout = 10;
  expect_continue_timeout = 1;
}

-- http.Server
pub record Server : Type 0 where
  pub addr : Str
  pub write_timeout : ℕ
  pub read_timeout : ℕ
  pub idle_timeout : ℕ
  pub handler : Handler

-- What app.Action has made when it listens: the client that the service's calls go through, the
-- service, its handler and its health, the number of its workers, and the server.
pub record Application : Type 0 where
  pub http_client : HttpClient
  pub svc : AggregateService
  pub handler : AggregateConceptHandler
  pub health_service : HealthService
  pub workers : ℕ
  pub server : Server

module _ {R : Type 0} (w : World R) (setup : Setup) (libs : Libraries) (gomaxprocs : ℕ)
    (o : Options) where
  -- the parts that are made of the service
  unfoldable pub assemble : AggregateService → Application
  unfolding itoa
  assemble svc =
      let workers = max_workers gomaxprocs o in
      let handler = new_handler svc o.http_timeout in
      let health_service =
        new_health_service svc o.app_system_code o.app_name o.port app_description in
      record {
        http_client = default_http_client workers;
        svc = svc;
        handler = handler;
        health_service = health_service;
        workers = workers;
        server = record {
          addr = b':' ∷ itoa o.port;
          write_timeout = 15;
          read_timeout = 15;
          idle_timeout = 60;
          handler = register_handlers w handler.svc libs health_service o.request_logging_on;
        };
      }

  -- app.Action until it waits for the signal to end
  unfoldable pub application : M Application
  unfolding assemble
  application = do svc ← action w setup o; return (assemble svc)
