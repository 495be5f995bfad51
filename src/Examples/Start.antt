-- ===== src/Examples/Start.antt =====
-- The theorems on the start of the process and on the health checks at the small world.
use aggregate_concept_transf.Common.{
  List, [], ◌∷◌, ◌≡◌, refl, ap, sym, ◌∙◌, ◌⊎◌, inl, inr, ◌↔◌, Bool, true, false, none, Elem, All,
  Exists,
}
use aggregate_concept_transf.Text.{codes}
use aggregate_concept_transf.Effects.{Res, ok, err, panic, M, Log, return, fail, lift, ok-injective}
use aggregate_concept_transf.World.{Setup}
use aggregate_concept_transf.Concordances.{check_concordances}
use aggregate_concept_transf.Concept.Service.{AggregateService}
use aggregate_concept_transf.Concept.Checks.{neo4j_writer, run_check}
use aggregate_concept_transf.Concept.Checks.Answers.{Passes, run_check-Passes}
use aggregate_concept_transf.Concept.HealthService.{
  Status, gtg, new_health_service, healthchecks, gtg_check, s3_healthcheck,
  concordances_healthcheck, sqs_healthcheck, rw_elasticsearch_health_check, rw_neo4j_health_check,
  varnish_purger_health_check, kinesis_healthcheck,
}
use aggregate_concept_transf.Concept.HealthService.Gtg.{FailFast, gtg-Passes}
use aggregate_concept_transf.Main.{Options, default_options, before, action}
use aggregate_concept_transf.Main.Required.{Configured, before-Configured}
use aggregate_concept_transf.Main.Start.{Outcome, Broken}
use aggregate_concept_transf.Main.Start.Action.{Wired, messages, action-Outcome}
use aggregate_concept_transf.Main.Start.Works.{SessionsWork, WritersWork, action-Returns}
use aggregate_concept_transf.Examples.{world, service}

-- Every session is made, and has credentials.
abbrev pub setup : Setup
setup = record {
  new_session = λ region. none;
  credentials = λ region. ok (codes "EnvProvider");
  arn_region = λ topic_arn. ok (codes "eu-west-1");
  parse_url = λ address. none;
}

abbrev pub options : Options
options = record default_options {
  bucket_name = codes "n";
  concept_updates_queue_url = codes "http://queue";
  sqs_region = codes "eu-west-1";
  kinesis_stream_name = codes "stream";
}

before-Configured_example : (before options ≡ none) ↔ Configured options
before-Configured_example = before-Configured options

action-Outcome_example :
    Outcome
      (Wired options)
      (λ e. Elem e (messages options.is_read_only))
      (Broken setup)
      (action world setup options []).0
action-Outcome_example = action-Outcome world setup options []

pub setup-SessionsWork : SessionsWork setup
setup-SessionsWork = ((λ region. refl), λ region. (codes "EnvProvider", refl))

setup-WritersWork : WritersWork world setup options []
setup-WritersWork = ((codes "eu-west-1", refl), refl)

action-Returns_example : (s : AggregateService) × ((action world setup options []).0 ≡ ok s)
action-Returns_example =
    action-Returns world setup options [] setup-SessionsWork refl (λ e. setup-WritersWork)

run_check-Passes_example :
    ((run_check world service neo4j_writer []).0 ≡ ok tt) ↔ Passes world [] service neo4j_writer
run_check-Passes_example = run_check-Passes world [] service neo4j_writer

-- A good status lets the next checkers run.
abbrev by_status : Bool → Status → M Status → M Status
by_status true st rest = rest
by_status false st rest = return st

abbrev next_checker : Res Status → M Status → M Status
next_checker (ok st) rest = by_status st.good_to_go st rest
next_checker (err e) rest = fail e
next_checker panic rest = lift panic

-- The checkers one after the other, up to the first that is not good to go.
in_turn : List (M Status) → M Status
in_turn [] log = (ok (record { good_to_go = true; message = [] }), log)
in_turn (checker ∷ checkers) log = next_checker (checker log).0 (in_turn checkers) (checker log).1

by_status-cases :
    (good : Bool) (first st : Status) (rest : M Status) (log : Log)
    → first.good_to_go ≡ good
    → (by_status good first rest log).0 ≡ ok st
    → ((first.good_to_go ≡ true) × ((rest log).0 ≡ ok st))
      ⊎ ((st.good_to_go ≡ false) × (first ≡ st))
by_status-cases true first st rest log g e = inl (g, e)
by_status-cases false first st rest log g e =
    let same = ok-injective e in inr (ap (λ t. t.good_to_go) (sym same) ∙ g, same)

next_checker-cases :
    (r : Res Status) (st : Status) (rest : M Status) (log : Log)
    → (next_checker r rest log).0 ≡ ok st
    → ((first : Status) × ((r ≡ ok first) × ((first.good_to_go ≡ true) × ((rest log).0 ≡ ok st))))
      ⊎ ((st.good_to_go ≡ false) × (r ≡ ok st))
next_checker-cases (ok first) st rest log e =
    elim (by_status-cases first.good_to_go first st rest log refl e) [
      | inl (g, k) ↦ inl (first, (refl, (g, k)))
      | inr (b, same) ↦ inr (b, ap ok same)
    ]
next_checker-cases (err x) st rest log e = cc
next_checker-cases panic st rest log e = cc

in_turn-FailFast : FailFast in_turn
unfolding in_turn
in_turn-FailFast [] log st e = inl (ap (λ t. t.good_to_go) (sym (ok-injective e)), tt)
in_turn-FailFast (checker ∷ checkers) log st e =
    elim (next_checker-cases (checker log).0 st (in_turn checkers) (checker log).1 e) [
      | inl (first, (r, (g, k))) ↦ elim (in_turn-FailFast checkers (checker log).1 st k) [
        | inl (h, all) ↦ inl (h, ((log, (first, (r, g))), all))
        | inr (h, bad) ↦ inr (h, inr bad)
      ]
      | inr (b, r) ↦ inr (b, inl (log, r))
    ]

abbrev good_status : Status
good_status = record { good_to_go = true; message = [] }

-- All the systems of the small world answer.
gtg-of_service :
    (gtg world service in_turn
      (new_health_service service (codes "act") (codes "ACT") 8080 [])
      []).0
    ≡ ok good_status
unfolding gtg in_turn new_health_service gtg_check s3_healthcheck concordances_healthcheck
    check_concordances sqs_healthcheck rw_elasticsearch_health_check rw_neo4j_health_check
    varnish_purger_health_check kinesis_healthcheck
gtg-of_service = refl

gtg-Passes_example :
    ((good_status.good_to_go ≡ true)
      × All (λ check. (log : Log) × Passes world log service check.checker) (healthchecks service))
    ⊎ ((good_status.good_to_go ≡ false)
        × Exists
            (λ check.
              (log : Log) × ((run_check world service check.checker log).0
                ≡ err good_status.message))
            (healthchecks service))
gtg-Passes_example =
    gtg-Passes world service in_turn in_turn-FailFast (codes "act") (codes "ACT") 8080 [] []
      good_status gtg-of_service
