-- ===== src/Concept/Listener/Oversized.antt =====
-- The message of an update with more events than SNS takes in one batch (processConceptUpdate of
-- concept/service.go).
use aggregate_concept_transf.Common.{◌<◌, length, ◌≡◌, ◌≢◌, inl, inr}
use aggregate_concept_transf.Text.{Str}
use aggregate_concept_transf.Effects.{ok, Log}
use aggregate_concept_transf.World.{CanonicalConcept, ConceptChanges, World}
use aggregate_concept_transf.Sqs.{ConceptUpdate}
use aggregate_concept_transf.Concept.Service.{AggregateService}
use aggregate_concept_transf.Concept.Gather.{get_concorded_concept}
use aggregate_concept_transf.Concept.Process.{write_to_neo, process_message}
use aggregate_concept_transf.Concept.Process.Oversized.{LimitsBatches, process_message-oversized}
use aggregate_concept_transf.Concept.Listener.{process_concept_update}
use aggregate_concept_transf.Concept.Listener.Removal.{process_concept_update-ends}

module _ {R : Type 0} (w : World R) (s : AggregateService) where
  -- Where SNS refuses a batch of more than ten entries: an update of a concept that can be read, and
  -- whose write to Neo4j succeeds with more than ten changed records, ends in an error or a panic,
  -- and its message is not deleted, so it comes again.
  pub process_concept_update-oversized :
      (n : ConceptUpdate) (log log1 : Log) (concept : CanonicalConcept R) (tid : Str)
      (changes update : ConceptChanges R)
      → LimitsBatches w
      → get_concorded_concept w s n.uuid n.bookmark log ≡ (ok (concept, tid), log1)
      → (write_to_neo w s concept tid log1).0 ≡ ok (changes, update)
      → 10 < length update.changed_records
      → ((process_concept_update w s n log).0 ≢ ok tt)
        × ((process_concept_update w s n log).1 ≡ (process_message w s n.uuid n.bookmark log).1)
  process_concept_update-oversized n log log1 concept tid changes update limits read wrote more =
      elim (process_concept_update-ends w s n log) [
        | inl (done, _) ↦ absurd (
            process_message-oversized w s limits n.uuid n.bookmark log log1 concept tid changes
              update read wrote more done)
        | inr (kept, failed) ↦ (failed, kept)
      ]
