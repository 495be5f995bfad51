-- ===== src/Examples/Refinement.antt =====
-- A run of a worker in the small world, whose queue is empty, as a run of the step model.
use aggregate_concept_transf.Common.{[], ◌∷◌, ◌≡◌, refl, true, arith}
use aggregate_concept_transf.Effects.{ok}
use aggregate_concept_transf.Concept.Health.{feedback, done, initial_health, process_channel}
use aggregate_concept_transf.Concept.Listener.{stopped, listen}
use aggregate_concept_transf.Main.System.Refinement.{Ends, listen-Ends}
use aggregate_concept_transf.Examples.Batch.{unnamed}
use aggregate_concept_transf.Examples.Deletions.{busy_world, round}

served_and_stopped :
    (listen busy_world unnamed initial_health ((feedback true ∷ []) ∷ (done ∷ []) ∷ []) []).0
    ≡ ok stopped
unfolding listen process_channel initial_health
served_and_stopped = rw round refl

listen-Ends_example :
    Ends
      (Unit {0})
      busy_world
      unnamed
      10
      stopped
      (listen busy_world unnamed initial_health ((feedback true ∷ []) ∷ (done ∷ []) ∷ []) []).1
listen-Ends_example =
    listen-Ends (Unit {0}) busy_world unnamed 10 ((feedback true ∷ []) ∷ (done ∷ []) ∷ []) stopped
      (λ log. omega arith) (omega arith) served_and_stopped
