-- ===== src/Examples/Batch.antt =====
-- The theorem on the goroutines of a batch, at two of them in the small world.
use aggregate_concept_transf.Common.{
  List, [], ◌∷◌, ◌++◌, append-nil, Exists, ◌≡◌, refl, sym, ◌∙◌, none, inl, inr,
}
use aggregate_concept_transf.Concept.Identifiers.{
  by_matches, by_parts, extract_identifiers_from_key,
}
use aggregate_concept_transf.Text.Regex.{find_from, match_here, accepts, is_hex, find_all}
use aggregate_concept_transf.Concept.Gather.{
  aggregate, get_concorded_concept, get_concorded, gather_sources, gather_buckets, gather_records,
  gather_record, fetch, fetch_primary,
}
use aggregate_concept_transf.Concordances.{get_concordance}
use aggregate_concept_transf.Concept.Buckets.{bucket_concordances}
use aggregate_concept_transf.Text.{codes, str_eq, contains_text}
use aggregate_concept_transf.S3.{get_concept_and_transaction_id}
use aggregate_concept_transf.Concept.Writer.{send_to_writer}
use aggregate_concept_transf.Effects.{ok, Log}
use aggregate_concept_transf.Sqs.{ConceptUpdate, remove_message_from_queue}
use aggregate_concept_transf.Concept.Service.{AggregateService, with_deadline}
use aggregate_concept_transf.Concept.Process.{
  process_message, last_uuid, read_and_update, update_concept, write_to_neo, write,
  propagate_if_changed,
}
use aggregate_concept_transf.Concept.Listener.{process_and_remove, process_concept_update}
use aggregate_concept_transf.Concept.Listener.Removal.{deletion, process_concept_update-ends}
use aggregate_concept_transf.Concept.Listener.Interleaving.{Interleaving, started, called}
use aggregate_concept_transf.Concept.Listener.Batch.{Running, Ended, batch-Processed}
use aggregate_concept_transf.Examples.{uuid_a, world, service}

-- A service whose writer answers with no changes.
abbrev pub unnamed : AggregateService
unnamed = record service { neo_writer_address = codes "http://localhost:8081/" }

abbrev update : ConceptUpdate
update = record { uuid = uuid_a; bookmark = []; receipt_handle = none }

-- The calls of ProcessMessage.
abbrev message_calls : Log
message_calls = (process_message world unnamed uuid_a [] []).1

ended : (process_concept_update world unnamed update []).0 ≡ ok tt
unfolding process_concept_update process_and_remove remove_message_from_queue process_message
    by_matches by_parts find_from match_here accepts is_hex aggregate last_uuid read_and_update
    get_concorded_concept with_deadline get_concorded extract_identifiers_from_key find_all
    get_concordance bucket_concordances str_eq gather_sources gather_buckets gather_records
    gather_record fetch get_concept_and_transaction_id fetch_primary update_concept write_to_neo
    write send_to_writer contains_text propagate_if_changed
ended = refl

removed :
    (process_concept_update world unnamed update []).1
    ≡ deletion world unnamed update ∷ message_calls
removed = elim (process_concept_update-ends world unnamed update []) [
  | inl (done, e) ↦ e
  | inr (_, failed) ↦ absurd (failed ended)
]

-- The calls that the second goroutine has still to make.
abbrev made : Log
made = (process_concept_update world unnamed update []).1

-- One goroutine has come to its end, the other has not made a call.
abbrev batch : List (Running (Unit {0}) unnamed)
batch =
    record {
      goroutine = record { update = update; calls = deletion world unnamed update ∷ message_calls };
      world = world;
      from = [];
      later = [];
      ran = removed ∙ sym (append-nil (deletion world unnamed update ∷ message_calls));
    }
    ∷ record {
      goroutine = record { update = update; calls = [] };
      world = world;
      from = [];
      later = made;
      ran = sym (append-nil (made ++ []) ∙ append-nil made);
    }
    ∷ []

alone :
    (calls : Log)
    → Interleaving
        (record { update = update; calls = calls } ∷ record { update = update; calls = [] } ∷ [])
        calls
alone [] = started (refl, (refl, tt))
alone (call ∷ calls) =
    called [] (record { update = update; calls = [] } ∷ [])
      (record { update = update; calls = calls }) call (alone calls)

batch-Processed_example :
    Exists
      (λ (r : Running (Unit {0}) unnamed).
        (r.goroutine.update.receipt_handle ≡ none) × Ended (Unit {0}) unnamed message_calls r)
      batch
batch-Processed_example =
    batch-Processed (Unit {0}) unnamed batch (deletion world unnamed update ∷ message_calls) []
      message_calls none (alone (deletion world unnamed update ∷ message_calls)) refl
