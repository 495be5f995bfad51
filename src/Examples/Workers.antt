-- ===== src/Examples/Workers.antt =====
-- The theorems on the health, the workers and the read-only mode at the small world.
use aggregate_concept_transf.Common.{
  some, ◌++◌, [], ◌∷◌, ◌≡◌, ◌≢◌, ◌↔◌, refl, none, ◌⊎◌, true, false,
}
use aggregate_concept_transf.Effects.{ok, panic}
use aggregate_concept_transf.Concept.Health.{feedback, done}
use aggregate_concept_transf.Concept.Listener.{stopped, listen}
use aggregate_concept_transf.Concept.Listener.Shutdown.{listen-returns}
use aggregate_concept_transf.Text.{Str, codes}
use aggregate_concept_transf.Sqs.{ConceptUpdate}
use aggregate_concept_transf.World.{response, not_sent, World}
use aggregate_concept_transf.Concept.Listener.Removal.{
  HoldsBack, processed, deleted, Removed, Kept, process_concept_update-removal,
}
use aggregate_concept_transf.Concept.Writer.{no_changes, read_changes, write_result}
use aggregate_concept_transf.Concept.Writer.Replies.{Accepted, write_result-Accepted}
use aggregate_concept_transf.Examples.{uuid_a, world, service}

listen-returns_example :
    ((listen world service
        (record { healthy = false; shutdown = false })
        ((feedback true ∷ []) ∷ (done ∷ []) ∷ [] ∷ [])
        []).0
      ≡ ok stopped)
    ⊎ ((listen world service
          (record { healthy = false; shutdown = false })
          ((feedback true ∷ []) ∷ (done ∷ []) ∷ [] ∷ [])
          []).0
        ≡ panic)
listen-returns_example =
    listen-returns world service ((feedback true ∷ []) ∷ []) (done ∷ []) ([] ∷ [])
      (record { healthy = false; shutdown = false }) [] refl

abbrev update_a : ConceptUpdate
update_a = record { uuid = uuid_a; bookmark = []; receipt_handle = none }

-- The deadline of every update has passed when its message is about to be deleted.
abbrev late_world : World (Unit {0})
late_world = record world { expired = λ log. some (codes "context deadline exceeded") }

late_world-HoldsBack : HoldsBack late_world
late_world-HoldsBack log e handle = (codes "RequestCanceled: " ++ e, refl)

process_concept_update-removal_example :
    ((processed late_world service update_a []).0 ≡ ok tt)
      × (late_world.expired (processed late_world service update_a []).1 ≡ none)
      × Removed late_world service update_a []
    ⊎ ((processed late_world service update_a []).0 ≡ ok tt)
      × ((error : Str) × (deleted late_world service update_a [] ≡ not_sent error))
      × Kept late_world service update_a []
    ⊎ ((processed late_world service update_a []).0 ≢ ok tt) × Kept late_world service update_a []
process_concept_update-removal_example =
    process_concept_update-removal late_world service update_a [] late_world-HoldsBack

write_result-Accepted_example :
    (write_result world (codes "http://es") (codes "http://es/people") uuid_a (response 404 (ok []))
      ≡ ok (no_changes world))
    ↔ Accepted (codes "http://es") 404
      × (read_changes world (codes "http://es") 404 (ok []) ≡ ok (no_changes world))
write_result-Accepted_example =
    write_result-Accepted world (codes "http://es") (codes "http://es/people") uuid_a 404 (ok [])
      (no_changes world)
