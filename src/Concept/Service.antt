-- ===== src/Concept/Service.antt =====
-- AggregateService of concept/service.go: its fields, and the select with a deadline that several
-- of its methods end in.
use aggregate_concept_transf.Common.{List, Bool, Option, none, some}
use aggregate_concept_transf.Text.{Str}
use aggregate_concept_transf.Effects.{Res, ok, err, panic, M}
use aggregate_concept_transf.World.{World}
use aggregate_concept_transf.Concordances.{RwClient}
use aggregate_concept_transf.S3
use aggregate_concept_transf.Sns
use aggregate_concept_transf.Sqs.{NotificationClient}
use aggregate_concept_transf.Kinesis.{KinesisClient}

-- The HTTP client is the world's `http_do`, the process timeout its `cancelled`, and the health
-- is a component of its own.
pub record AggregateService : Type 0 where
  pub n_store : S3.Client
  pub external_normalised_store : S3.Client
  pub concordances : RwClient
  pub concept_updates_sqs : NotificationClient
  pub events_sns : Sns.Client
  pub kinesis : KinesisClient
  pub neo_writer_address : Str
  pub varnish_purger_address : Str
  pub elasticsearch_writer_address : Str
  pub types_to_purge_from_public_endpoints : List Str
  pub read_only : Bool

-- NewService, its arguments in the source's order without the HTTP client, the channels of the health
-- and the process timeout
unfoldable pub new_service :
    (s3_client external_s3_client : S3.Client)
    → (concept_updates_sqs_client : NotificationClient) → (events_sns_client : Sns.Client)
    → (concordances_client : RwClient) → (kinesis_client : KinesisClient)
    → (neo_address elasticsearch_address varnish_purger_address : Str)
    → (types_to_purge_from_public_endpoints : List Str) → (read_only : Bool) → AggregateService
new_service s3 external sqs sns concordances kinesis neo elasticsearch varnish types read_only =
    record {
      n_store = s3;
      external_normalised_store = external;
      concordances = concordances;
      concept_updates_sqs = sqs;
      events_sns = sns;
      kinesis = kinesis;
      neo_writer_address = neo;
      varnish_purger_address = varnish;
      elasticsearch_writer_address = elasticsearch;
      types_to_purge_from_public_endpoints = types;
      read_only = read_only;
    }

abbrev pub by_arm {ℓ} : {A : Type ℓ} → Option Str → Res A → Res A
by_arm none r = r
by_arm (some e) (ok a) = err e
by_arm (some e) (err e') = err e
by_arm (some e) panic = panic

-- select { case data := <-ch: … case <-ctx.Done(): … } over the goroutine that runs `m`. The calls
-- of `m` are logged on both arms: the goroutine goes on after the deadline. A panic in it ends the
-- process on both arms.
unfoldable pub with_deadline {ℓ} : {R : Type 0} {A : Type ℓ} → World R → M A → M A
with_deadline w m log = let (r, log') = m log in (by_arm (w.cancelled log') r, log')
