-- ===== src/Concept/HealthService.antt =====
-- The health checks that the service gives (Healthchecks of concept/service.go, the Healthcheck of
-- each client), and HealthService of concept/healthcheck.go, which answers /__gtg with them.
pub mod Gtg
use aggregate_concept_transf.Common.{ℕ, List, [], ◌∷◌, ◌++◌, map, Bool, true, false, if◌then◌else◌}
use aggregate_concept_transf.Text.{Str, codes}
use aggregate_concept_transf.Effects.{Res, ok, err, panic, M}
use aggregate_concept_transf.World.{World}
use aggregate_concept_transf.S3
use aggregate_concept_transf.Concept.Service.{AggregateService}
use aggregate_concept_transf.Concept.Checks.{
  Check, s3_bucket, concordance_store, sqs_queue, elasticsearch_writer, neo4j_writer,
  varnish_purger, kinesis_stream, run_check,
}

-- fthealth.Check; the timeout is in seconds.
pub record HealthCheck : Type 0 where
  pub id : Str
  pub business_impact : Str
  pub name : Str
  pub panic_guide : Str
  pub severity : ℕ
  pub technical_summary : Str
  pub timeout : ℕ
  pub checker : Check

abbrev panic_guide : Str
panic_guide = codes "https://runbooks.in.ft.com/aggregate-concept-transformer"

-- A check of severity 3 with the repository's panic guide, no ID and no timeout.
unfoldable pub severity_3 : (business_impact name technical_summary : Str) → Check → HealthCheck
severity_3 business_impact name technical_summary checker = record {
  id = [];
  business_impact = business_impact;
  name = name;
  panic_guide = panic_guide;
  severity = 3;
  technical_summary = technical_summary;
  timeout = 0;
  checker = checker;
}

abbrev updates_impact : Str
updates_impact = codes "Editorial updates of concepts will not be written into UPP"

-- (*Client).Healthcheck of s3/client.go
unfoldable pub s3_healthcheck : S3.Client → HealthCheck
unfolding severity_3
s3_healthcheck c =
    severity_3 updates_impact (codes "Check connectivity to S3 bucket")
      (codes "Cannot connect to S3 bucket. If this check fails, check that Amazon S3 is available")
      (s3_bucket c)

-- (*RWClient).Healthcheck of concordances/client.go
unfoldable pub concordances_healthcheck : HealthCheck
concordances_healthcheck = record {
  id = codes "concordance-store-rw-check";
  business_impact = codes "Concordances cannot be returned";
  name = codes "Concordance store is accessible";
  panic_guide = panic_guide;
  severity = 3;
  technical_summary =
      codes
        "The concordances-rw-neo4j service is inaccessible.  Check that the address is correct and "
      ++ codes "the service is up.";
  timeout = 10;
  checker = concordance_store;
}

-- (*NotificationClient).Healthcheck of sqs/client.go
unfoldable pub sqs_healthcheck : HealthCheck
unfolding severity_3
sqs_healthcheck =
    severity_3 updates_impact (codes "Check connectivity to SQS queue")
      (codes "Cannot connect to SQS queue. If this check fails, check that Amazon SQS is available")
      sqs_queue

-- RWElasticsearchHealthCheck of concept/service.go
unfoldable pub rw_elasticsearch_health_check : HealthCheck
unfolding severity_3
rw_elasticsearch_health_check =
    severity_3 updates_impact (codes "Check connectivity to concept-rw-elasticsearch")
      (codes "Cannot connect to elasticsearch concept writer. If this check fails, "
        ++ codes "check health of concept-rw-elasticsearch service")
      elasticsearch_writer

-- RWNeo4JHealthCheck
unfoldable pub rw_neo4j_health_check : HealthCheck
unfolding severity_3
rw_neo4j_health_check =
    severity_3 updates_impact (codes "Check connectivity to concept-rw-neo4j")
      (codes "Cannot connect to concept writer neo4j. If this check fails, "
        ++ codes "check health of concepts-rw-neo4j service")
      neo4j_writer

-- VarnishPurgerHealthCheck
unfoldable pub varnish_purger_health_check : HealthCheck
unfolding severity_3
varnish_purger_health_check =
    severity_3 (codes "Editorial updates of concepts won't be immediately refreshed in the cache")
      (codes "Check connectivity to varnish purger")
      (codes "Cannot connect to varnish purger. If this check fails, "
        ++ codes "check health of varnish-purger service")
      varnish_purger

-- (*KinesisClient).Healthcheck of kinesis/client.go
unfoldable pub kinesis_healthcheck : HealthCheck
unfolding severity_3
kinesis_healthcheck =
    severity_3 updates_impact (codes "Check connectivity to Kinesis stream")
      (codes "Cannot connect to Kinesis stream. If this check fails, check that Amazon Kinesis "
        ++ codes "is available")
      kinesis_stream

-- (*AggregateService).Healthchecks
unfoldable pub healthchecks : AggregateService → List HealthCheck
healthchecks s =
    let readers : List HealthCheck =
      s3_healthcheck s.n_store
      ∷ s3_healthcheck s.external_normalised_store
      ∷ concordances_healthcheck
      ∷ [] in
    if s.read_only
    then readers
    else readers
      ++ (sqs_healthcheck ∷ rw_elasticsearch_health_check ∷ rw_neo4j_health_check
          ∷ varnish_purger_health_check ∷ kinesis_healthcheck ∷ [])

-- gtg.Status
pub record Status : Type 0 where
  pub good_to_go : Bool
  pub message : Str

-- config and HealthService; its svc is the service that it is made from.
pub record HealthService : Type 0 where
  pub app_system_code : Str
  pub app_name : Str
  pub port : ℕ
  pub description : Str
  pub checks : List HealthCheck

-- NewHealthService
unfoldable pub new_health_service :
    AggregateService
    → (app_system_code app_name : Str) → (port : ℕ) → (description : Str) → HealthService
unfolding healthchecks
new_health_service svc app_system_code app_name port description = record {
  app_system_code = app_system_code;
  app_name = app_name;
  port = port;
  description = description;
  checks = healthchecks svc;
}

-- what gtgCheck makes of the error of a Checker
unfoldable pub gtg_status : Res (Unit {0}) → Res Status
gtg_status (ok _) = ok (record { good_to_go = true; message = [] })
gtg_status (err e) = ok (record { good_to_go = false; message = e })
gtg_status panic = panic

module _ {R : Type 0} (w : World R) (s : AggregateService) where
  -- gtgCheck
  unfoldable pub gtg_check : HealthCheck → M Status
  unfolding run_check gtg_status
  gtg_check check log = let (r, log') = run_check w s check.checker log in (gtg_status r, log')

  -- build and the loop of GTG
  unfoldable pub status_checkers : List HealthCheck → List (M Status)
  status_checkers checks = map gtg_check checks

  -- (*HealthService).GTG; gtg.FailFastParallelCheck is a parameter.
  unfoldable pub gtg :
      (fail_fast_parallel_check : List (M Status) → M Status) → HealthService → M Status
  unfolding status_checkers
  gtg fail_fast_parallel_check svc = fail_fast_parallel_check (status_checkers svc.checks)
