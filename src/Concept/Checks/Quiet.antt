-- ===== src/Concept/Checks/Quiet.antt =====
-- The health checks change nothing (concept/service.go, and the clients).
use aggregate_concept_transf.Common.{[], ◌≡◌, refl, inl, inr}
use aggregate_concept_transf.Text.{Str, codes, str_eq}
use aggregate_concept_transf.Effects.{Log, Res-cases}
use aggregate_concept_transf.World.{World}
use aggregate_concept_transf.Concordances.{check_concordances}
use aggregate_concept_transf.Concept.Service.{AggregateService}
use aggregate_concept_transf.Concept.Changes.{writes, writes-OnlyReads}
use aggregate_concept_transf.Concept.Gather.Calls.{IsRead}
use aggregate_concept_transf.Concept.Gather.Quiet.{make_request-IsQuiet}
use aggregate_concept_transf.Concept.Checks.{
  Check, s3_bucket, concordance_store, sqs_queue, elasticsearch_writer, neo4j_writer,
  varnish_purger, kinesis_stream, check_gtg, check_call, run_check,
}

module _ {R : Type 0} (w : World R) (s : AggregateService) where
  check_gtg-writes : (who url : Str) (log : Log) → writes (check_gtg w s who url log).1 ≡ writes log
  unfolding check_gtg str_eq
  check_gtg-writes who url log = elim (Res-cases (w.new_request (codes "GET") url)) [
    | inl (query, e) ↦ rw (check_gtg, e) refl
    | inr (inl (t, e)) ↦ rw (check_gtg, e) refl
    | inr (inr e) ↦ rw (check_gtg, e) refl
  ]

  pub run_check-writes :
      (check : Check) (log : Log) → writes (run_check w s check log).1 ≡ writes log
  unfolding run_check check_call check_concordances
  run_check-writes (s3_bucket c) log = refl
  run_check-writes concordance_store log =
      writes-OnlyReads log _ (
        make_request-IsQuiet w IsRead s.concordances (codes "/__gtg") [] [] (λ req get url. get)
          log)
  run_check-writes sqs_queue log = refl
  run_check-writes elasticsearch_writer log = check_gtg-writes (codes "writer") _ log
  run_check-writes neo4j_writer log = check_gtg-writes (codes "writer") _ log
  run_check-writes varnish_purger log = check_gtg-writes (codes "purger") _ log
  run_check-writes kinesis_stream log = refl
