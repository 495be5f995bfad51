-- ===== src/Main/Start/Works.antt =====
-- Where the SDK works, the service is made (app.Action of main.go).
use aggregate_concept_transf.Common.{
  ℕ, Bool, true, false, Option, none, some, ◌≡◌, refl, if◌then◌else◌,
}
use aggregate_concept_transf.Text.{Str, codes}
use aggregate_concept_transf.Effects.{ok, Log, return, nil_or_error}
use aggregate_concept_transf.World.{Setup, World}
use aggregate_concept_transf.Session.{provider, session_and_credentials}
use aggregate_concept_transf.S3
use aggregate_concept_transf.Sqs
use aggregate_concept_transf.Sqs.{NotificationClient}
use aggregate_concept_transf.Sns
use aggregate_concept_transf.Kinesis
use aggregate_concept_transf.Kinesis.{must}
use aggregate_concept_transf.Concordances
use aggregate_concept_transf.Concept.Service.{AggregateService, new_service}
use aggregate_concept_transf.Main.{
  Options, Writers, or_fatal, or_fatal_m, new_writers, action, no_writers,
}

-- The SDK makes sessions and finds their credentials.
abbrev pub SessionsWork : Setup → Type 0
SessionsWork setup =
    ((region : Option Str) → setup.new_session region ≡ none)
    × ((region : Option Str) → (name : Str) × (setup.credentials region ≡ ok name))

module _ (setup : Setup) (works : SessionsWork setup) where
  provider-Returns :
      (region : Option Str) (name : Str) → (a : Str) × (provider setup region name ≡ ok a)
  unfolding provider
  provider-Returns region name = let (a, e) = works.1 region in (a, rw (provider, e))

  session-Returns :
      (region : Option Str) (name : Str)
      → (a : Str) × (session_and_credentials setup region name ≡ ok a)
  unfolding session_and_credentials nil_or_error
  session-Returns region name =
      let (a, e) = provider-Returns region name in
      (a, rw (session_and_credentials, works.0 region) e)

  S3_new_client-Returns :
      (bucket_name region : Str)
      → S3.new_client setup bucket_name region ≡ ok (record { bucket_name = bucket_name })
  unfolding S3.new_client
  S3_new_client-Returns bucket_name region =
      rw (S3.new_client, (session-Returns (some region) (codes "s3 client")).1)

  Sqs_new_client-Returns :
      (region queue_url endpoint : Str) (messages visibility wait : ℕ)
      → (c : NotificationClient) × (Sqs.new_client setup region queue_url endpoint messages
            visibility wait
          ≡ ok c)
  unfolding Sqs.new_client
  Sqs_new_client-Returns region queue_url endpoint messages visibility wait = (
    record {
      queue_url = queue_url;
      listen_params = record {
        queue_url = queue_url;
        max_number_of_messages = messages;
        visibility_timeout = visibility;
        wait_time_seconds = wait;
      };
    },
    rw (Sqs.new_client, (session-Returns (some region) (codes "sqs client")).1),
  )

  Sns_new_client-Returns :
      (topic_arn region : Str)
      → setup.arn_region topic_arn ≡ ok region
      → Sns.new_client setup topic_arn ≡ ok (record { topic_arn = topic_arn })
  unfolding Sns.new_client
  Sns_new_client-Returns topic_arn region e = rw (Sns.new_client, e) (rw (works.0 (some region)))

  Kinesis_new_client-Returns :
      {R : Type 0} (w : World R) (stream_name region arn : Str) (log : Log)
      → w.kinesis_describe_error log stream_name ≡ none
      → (Kinesis.new_client w setup stream_name region arn log).0
        ≡ ok (record { stream_name = stream_name })
  unfolding Kinesis.new_client must nil_or_error
  Kinesis_new_client-Returns w stream_name region arn log e =
      rw (Kinesis.new_client, works.0 none)
        (rw (Kinesis.new_client, (provider-Returns none (codes "kinesis client")).1) (rw e))

-- What a process that writes needs besides: its topic's ARN has a region, and its stream is there.
abbrev pub WritersWork : {R : Type 0} → World R → Setup → Options → Log → Type 0
WritersWork w setup o log =
    ((region : Str) × (setup.arn_region o.concept_updates_sns_topic_arn ≡ ok region))
    × (w.kinesis_describe_error log o.kinesis_stream_name ≡ none)

module _ {R : Type 0} (w : World R) (setup : Setup) (o : Options) (log : Log)
    (sessions_work : SessionsWork setup) where
  new_writers-Returns :
      WritersWork w setup o log → (c : Writers) × ((new_writers w setup o log).0 ≡ ok c)
  unfolding new_writers or_fatal or_fatal_m
  new_writers-Returns ((region, e), k) =
      let (sqs, h) =
        Sqs_new_client-Returns setup sessions_work o.sqs_region o.concept_updates_queue_url
          o.sqs_endpoint o.messages_to_process o.visibility_timeout o.wait_time in
      (
        record {
          concept_updates_sqs_client = sqs;
          events_sns = record { topic_arn = o.concept_updates_sns_topic_arn };
          kinesis_client = record { stream_name = o.kinesis_stream_name };
        },
        rw (new_writers, h)
            (rw
              (Sns_new_client-Returns setup sessions_work o.concept_updates_sns_topic_arn region e)
              (rw (
                Kinesis_new_client-Returns setup sessions_work w o.kinesis_stream_name
                  o.kinesis_region o.cross_account_role_arn log k))),
      )

  by_mode-Returns :
      (read_only : Bool)
      → (read_only ≡ false → WritersWork w setup o log)
      → (c : Writers) × (((if read_only then return no_writers else new_writers w setup o) log).0
          ≡ ok c)
  by_mode-Returns true k = (no_writers, refl)
  by_mode-Returns false k = new_writers-Returns (k refl)

  -- app.Action makes a service where sessions are made with their credentials, the concordances
  -- address is a URL and, unless the process is read-only, the topic's ARN has a region and the
  -- stream is there; in read-only mode no queue, topic or stream is needed.
  pub action-Returns :
      setup.parse_url o.concordances_reader_address ≡ none
      → (o.is_read_only ≡ false → WritersWork w setup o log)
      → (s : AggregateService) × ((action w setup o log).0 ≡ ok s)
  unfolding action or_fatal Concordances.new_client
  action-Returns e k =
      let (c, h) = by_mode-Returns o.is_read_only k in
      (
        new_service (record { bucket_name = o.bucket_name })
            (record { bucket_name = o.external_bucket_name }) c.concept_updates_sqs_client
            c.events_sns (record { address = o.concordances_reader_address }) c.kinesis_client
            o.neo_writer_address o.elasticsearch_writer_address o.varnish_purger_address
            o.types_to_purge_from_public_endpoints o.is_read_only,
        rw (action, S3_new_client-Returns setup sessions_work o.bucket_name o.bucket_region)
            (rw
              (S3_new_client-Returns setup sessions_work o.external_bucket_name
                o.external_bucket_region)
              (rw (Concordances.new_client, e) (rw h))),
      )
