-- ===== src/Concept/HealthService/Gtg.antt =====
-- What /__gtg of the service tells (GTG of concept/healthcheck.go).
use aggregate_concept_transf.Common.{
  ℕ, List, true, false, ◌≡◌, refl, ap, ◌⊎◌, inl, inr, All, Exists, All-map, Exists-map, map,
}
use aggregate_concept_transf.Text.{Str}
use aggregate_concept_transf.Effects.{Res, ok, err, panic, Log, M, ok-injective}
use aggregate_concept_transf.World.{World}
use aggregate_concept_transf.Concept.Service.{AggregateService}
use aggregate_concept_transf.Concept.Checks.{run_check}
use aggregate_concept_transf.Concept.Checks.Answers.{Passes, run_check-Passes}
use aggregate_concept_transf.Concept.HealthService.{
  HealthCheck, Status, gtg_status, gtg_check, status_checkers, gtg, healthchecks,
  new_health_service,
}

-- At some time the checker gave a status with which it is good to go.
abbrev pub SaysGood : M Status → Type 0
SaysGood checker =
    (log : Log) × ((st : Status) × (((checker log).0 ≡ ok st) × (st.good_to_go ≡ true)))

-- At some time the checker gave this status.
abbrev pub Says : Status → M Status → Type 0
Says st checker = (log : Log) × ((checker log).0 ≡ ok st)

-- gtg.FailFastParallelCheck runs the checkers at the same time, gives the first status with which
-- it is not good to go, and is good to go if all of them are.
abbrev pub FailFast : (List (M Status) → M Status) → Type 0
FailFast fail_fast_parallel_check =
    (checkers : List (M Status)) (log : Log) (st : Status)
    → (fail_fast_parallel_check checkers log).0 ≡ ok st
    → ((st.good_to_go ≡ true) × All SaysGood checkers)
      ⊎ ((st.good_to_go ≡ false) × Exists (Says st) checkers)

gtg_status-good :
    (r : Res (Unit {0})) (st : Status) → gtg_status r ≡ ok st → st.good_to_go ≡ true → r ≡ ok tt
unfolding gtg_status
gtg_status-good (ok tt) st e h = refl
gtg_status-good (err x) st e h = cc
gtg_status-good panic st e h = cc

gtg_status-bad :
    (r : Res (Unit {0})) (st : Status)
    → gtg_status r ≡ ok st
    → st.good_to_go ≡ false
    → r ≡ err st.message
unfolding gtg_status
gtg_status-bad (ok tt) st e h = cc
gtg_status-bad (err x) st e h = ap (λ t. err t.message) (ok-injective e)
gtg_status-bad panic st e h = cc

module _ {R : Type 0} (w : World R) (s : AggregateService) where
  good-Passes :
      (check : HealthCheck)
      → SaysGood (gtg_check w s check)
      → (log : Log) × Passes w log s check.checker
  unfolding gtg_check
  good-Passes check (log, (st, (e, h))) =
      (log, (run_check-Passes w log s check.checker).0 (gtg_status-good _ st e h))

  bad-fails :
      (st : Status)
      → st.good_to_go ≡ false
      → (check : HealthCheck) → Says st (gtg_check w s check)
      → (log : Log) × ((run_check w s check.checker log).0 ≡ err st.message)
  unfolding gtg_check
  bad-fails st h check (log, e) = (log, gtg_status-bad _ st e h)

  -- If gtg.FailFastParallelCheck does what it says, the service is good to go only where every
  -- system that it has a health check for has answered, and where it is not, its message is the
  -- error of a health check that it has.
  pub gtg-Passes :
      (fail_fast_parallel_check : List (M Status) → M Status)
      → FailFast fail_fast_parallel_check
      → (app_system_code app_name : Str) (port : ℕ) (description : Str) (log : Log) (st : Status)
      → (gtg w s fail_fast_parallel_check
          (new_health_service s app_system_code app_name port description)
          log).0
        ≡ ok st
      → ((st.good_to_go ≡ true)
          × All (λ check. (log' : Log) × Passes w log' s check.checker) (healthchecks s))
        ⊎ ((st.good_to_go ≡ false)
            × Exists
                (λ check. (log' : Log) × ((run_check w s check.checker log').0 ≡ err st.message))
                (healthchecks s))
  unfolding gtg status_checkers new_health_service
  gtg-Passes fail_fast_parallel_check fail_fast app_system_code app_name port description log st e =
      elim (fail_fast (map (gtg_check w s) (healthchecks s)) log st e) [
        | inl (h, all) ↦ inl (h, All-map _ _ (gtg_check w s) good-Passes (healthchecks s) all)
        | inr (h, some_bad) ↦
            inr (h, Exists-map _ _ (gtg_check w s) (bad-fails st h) (healthchecks s) some_bad)
      ]
