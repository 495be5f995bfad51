-- ===== src/Main.antt =====
-- main.go: what is demanded of the configuration, and how the service is put together from it.
pub mod Required
pub mod Start
pub mod System
pub mod Application
use aggregate_concept_transf.Common.{
  [], ◌∷◌, true, false, ℕ, List, ◌+◌, Bool, Option, none, some, if◌then◌else◌,
}
use aggregate_concept_transf.Text.{Str, codes, is_empty}
use aggregate_concept_transf.Effects.{Res, ok, err, panic, M, ◌>>=◌, return, lift}
use aggregate_concept_transf.World.{Setup, World}
use aggregate_concept_transf.S3
use aggregate_concept_transf.Sqs
use aggregate_concept_transf.Sqs.{NotificationClient}
use aggregate_concept_transf.Sns
use aggregate_concept_transf.Kinesis
use aggregate_concept_transf.Kinesis.{KinesisClient}
use aggregate_concept_transf.Concordances
use aggregate_concept_transf.Concept.Service.{AggregateService, new_service}

-- The options of the command line, in the order that main declares them in.
pub record Options : Type 0 where
  pub app_system_code : Str
  pub app_name : Str
  pub port : ℕ
  pub bucket_name : Str
  pub bucket_region : Str
  pub external_bucket_name : Str
  pub external_bucket_region : Str
  pub concept_updates_queue_url : Str
  pub sqs_region : Str
  pub sqs_endpoint : Str
  pub messages_to_process : ℕ
  pub visibility_timeout : ℕ
  pub http_timeout : ℕ
  pub wait_time : ℕ
  pub neo_writer_address : Str
  pub concordances_reader_address : Str
  pub elasticsearch_writer_address : Str
  pub varnish_purger_address : Str
  pub types_to_purge_from_public_endpoints : List Str
  pub cross_account_role_arn : Str
  pub kinesis_stream_name : Str
  pub kinesis_region : Str
  pub request_logging_on : Bool
  pub log_level : Str
  pub is_read_only : Bool
  pub concept_updates_sns_topic_arn : Str

-- The values that main declares, for a process that is given no option and no variable.
unfoldable pub default_options : Options
default_options = record {
  app_system_code = codes "aggregate-concept-transformer";
  app_name = codes "Aggregate Concept Transformer";
  port = 8080;
  bucket_name = [];
  bucket_region = codes "eu-west-1";
  external_bucket_name = [];
  external_bucket_region = codes "eu-west-1";
  concept_updates_queue_url = [];
  sqs_region = [];
  sqs_endpoint = [];
  messages_to_process = 10;
  visibility_timeout = 30;
  http_timeout = 15;
  wait_time = 20;
  neo_writer_address = codes "http://localhost:8081/";
  concordances_reader_address = codes "http://localhost:8082/";
  elasticsearch_writer_address = codes "http://localhost:8083/";
  varnish_purger_address = codes "http://localhost:8084/";
  types_to_purge_from_public_endpoints =
      codes "Person" ∷ codes "Brand" ∷ codes "Organisation" ∷ codes "PublicCompany" ∷ [];
  cross_account_role_arn = [];
  kinesis_stream_name = [];
  kinesis_region = codes "eu-west-1";
  request_logging_on = true;
  log_level = codes "info";
  is_read_only = false;
  concept_updates_sns_topic_arn = [];
}

-- if *option == "" { logger.Fatal(message) }, and what comes next
demand : Str → Str → Option Str → Option Str
unfolding is_empty
demand option message next = if is_empty option then some message else next

-- app.Before: the message of the first logger.Fatal, which ends the process
unfoldable pub before : Options → Option Str
unfolding demand
before o = demand o.bucket_name (codes "S3 bucket name not set") (
    demand o.bucket_region (codes "AWS bucket region not set") (
      demand o.concordances_reader_address (codes "Concordances reader address not set") (
        if o.is_read_only
        then none
        else demand o.concept_updates_queue_url (codes "Concept update SQS queue URL not set") (
            demand o.sqs_region (codes "AWS SQS region not set")
              (demand o.kinesis_stream_name (codes "Kinesis stream name not set") none)))))

-- runtime.GOMAXPROCS(0) + 1, and no worker in read-only mode
unfoldable pub max_workers : (gomaxprocs : ℕ) → Options → ℕ
max_workers gomaxprocs o = if o.is_read_only then 0 else gomaxprocs + 1

-- if err != nil { logger.WithError(err).Fatal(message) }: the process ends with the message
unfoldable pub or_fatal : {A : Type 0} → (message : Str) → Res A → Res A
or_fatal message (ok a) = ok a
or_fatal message (err e) = err message
or_fatal message panic = panic

or_fatal_m : {A : Type 0} → (message : Str) → M A → M A
unfolding or_fatal
or_fatal_m message m log = let (r, log') = m log in (or_fatal message r, log')

-- The clients of the queue, the topic and the stream. Their interfaces are nil in read-only mode,
-- where nothing calls them; here they are then clients of nothing.
pub record Writers : Type 0 where
  pub concept_updates_sqs_client : NotificationClient
  pub events_sns : Sns.Client
  pub kinesis_client : KinesisClient

abbrev pub no_writers : Writers
no_writers = record {
  concept_updates_sqs_client = record {
    queue_url = [];
    listen_params = record {
      queue_url = [];
      max_number_of_messages = 0;
      visibility_timeout = 0;
      wait_time_seconds = 0;
    };
  };
  events_sns = record { topic_arn = [] };
  kinesis_client = record { stream_name = [] };
}

module _ {R : Type 0} (w : World R) (setup : Setup) (o : Options) where
  -- if !*isReadOnly { … } of app.Action
  unfoldable pub new_writers : M Writers
  unfolding or_fatal or_fatal_m
  new_writers = do
    sqs ← lift (
        or_fatal (codes "Error creating concept updates SQS client") (
          Sqs.new_client setup o.sqs_region o.concept_updates_queue_url o.sqs_endpoint
            o.messages_to_process o.visibility_timeout o.wait_time))
    sns ← lift (
        or_fatal (codes "Error creating concept events SNS client")
          (Sns.new_client setup o.concept_updates_sns_topic_arn))
    kinesis ←
        or_fatal_m (codes "Error creating Kinesis client") (
          Kinesis.new_client w setup o.kinesis_stream_name o.kinesis_region
            o.cross_account_role_arn)
    return (record { concept_updates_sqs_client = sqs; events_sns = sns; kinesis_client = kinesis })

  -- app.Action up to the service that it makes
  unfoldable pub action : M AggregateService
  unfolding or_fatal new_writers new_service
  action = do
    s3_client ← lift (
        or_fatal (codes "Error creating S3 client for concept-normalised-store")
          (S3.new_client setup o.bucket_name o.bucket_region))
    external_s3_client ← lift (
        or_fatal (codes "Error creating S3 client for external-concept-normalised-store")
          (S3.new_client setup o.external_bucket_name o.external_bucket_region))
    concordances_client ← lift (
        or_fatal (codes "Error creating Concordances client")
          (Concordances.new_client setup o.concordances_reader_address))
    writers ← if o.is_read_only then return no_writers else new_writers
    return (
        new_service s3_client external_s3_client writers.concept_updates_sqs_client
          writers.events_sns concordances_client writers.kinesis_client o.neo_writer_address
          o.elasticsearch_writer_address o.varnish_purger_address
          o.types_to_purge_from_public_endpoints o.is_read_only)
