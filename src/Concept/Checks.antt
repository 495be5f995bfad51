-- ===== src/Concept/Checks.antt =====
-- The Checkers of the health checks: the three of concept/service.go, and those of the clients.
pub mod Urls
pub mod Answers
pub mod Quiet
use aggregate_concept_transf.Common.{
  List, [], ◌∷◌, ◌++◌, Bool, true, false, ◌==◌, Option, if◌then◌else◌,
}
use aggregate_concept_transf.Text.{Str, codes, trim_right}
use aggregate_concept_transf.Text.Itoa.{itoa}
use aggregate_concept_transf.Effects.{
  nil_or_error, Res, ok, err, panic, Request, Call, M, ◌>>=◌, lift, perform,
}
use aggregate_concept_transf.World.{HttpReply, failed, response, World}
use aggregate_concept_transf.Concordances.{check_concordances}
use aggregate_concept_transf.S3
use aggregate_concept_transf.Concept.Service.{AggregateService}

-- The Checker of each fthealth.Check that the service gives.
pub data Check : Type 0 where
  s3_bucket : S3.Client → Check
  concordance_store : Check
  sqs_queue : Check
  elasticsearch_writer : Check
  neo4j_writer : Check
  varnish_purger : Check
  kinesis_stream : Check

-- what a check makes of the reply of a /__gtg
gtg_reply : (who url : Str) → HttpReply → Res (Unit {0})
gtg_reply who url (failed e) =
    err (codes "error calling " ++ (who ++ (codes " at " ++ (url ++ (codes " : " ++ e)))))
gtg_reply who url (response status _) =
    if status == 200
    then ok tt
    else err (who ++ (b' ' ∷ url ++ (codes " returned status " ++ itoa status)))

-- urlToCheck of the three checks. That of Elasticsearch trims every byte of "/bulk".
unfoldable pub neo_gtg_url : Str → Str
neo_gtg_url address = trim_right address (codes "/") ++ codes "/__gtg"

unfoldable pub varnish_gtg_url : Str → Str
varnish_gtg_url address = trim_right address (codes "/") ++ codes "/__gtg"

unfoldable pub elasticsearch_gtg_url : Str → Str
elasticsearch_gtg_url address = trim_right address (codes "/bulk") ++ codes "/__gtg"

module _ {R : Type 0} (w : World R) (s : AggregateService) where
  check_gtg : (who url : Str) → M (Unit {0})
  unfolding gtg_reply
  check_gtg who url = do
    query ← lift (w.new_request (codes "GET") url)
    let request : Request = record {
      method = codes "GET";
      url = url;
      query = query;
      headers = [];
      body = [];
    }
    reply ← perform (Call.http request) (λ log. w.http_do log request)
    lift (gtg_reply who url reply)

  check_call : Call → (List Call → Option Str) → M (Unit {0})
  check_call call reply = do e ← perform call reply; lift (nil_or_error e)

  -- The error of a check's Checker, or none. The text beside the error is dropped by all callers.
  unfoldable pub run_check : Check → M (Unit {0})
  unfolding check_gtg check_call neo_gtg_url varnish_gtg_url elasticsearch_gtg_url nil_or_error
  run_check (s3_bucket c) =
      check_call (Call.s3_head_bucket c.bucket_name)
        (λ log. w.s3_head_bucket_error log c.bucket_name)
  run_check concordance_store = check_concordances w s.concordances
  run_check sqs_queue =
      check_call (Call.sqs_attributes s.concept_updates_sqs.queue_url)
        (λ log. w.sqs_attributes_error log s.concept_updates_sqs.queue_url)
  run_check elasticsearch_writer =
      check_gtg (codes "writer") (elasticsearch_gtg_url s.elasticsearch_writer_address)
  run_check neo4j_writer = check_gtg (codes "writer") (neo_gtg_url s.neo_writer_address)
  run_check varnish_purger = check_gtg (codes "purger") (varnish_gtg_url s.varnish_purger_address)
  run_check kinesis_stream =
      check_call (Call.kinesis_describe s.kinesis.stream_name)
        (λ log. w.kinesis_describe_error log s.kinesis.stream_name)
