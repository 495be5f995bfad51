-- ===== src/Examples/Oversized.antt =====
-- An update of eleven events, in a world whose topic refuses batches of more than ten.
use aggregate_concept_transf.Common.{
  ℕ, [], ◌∷◌, Bool, true, false, none, ◌<◌, ltb, length, ◌≡◌, ◌≢◌, refl, ap, arith,
}
use aggregate_concept_transf.Text.{codes, str_eq, contains_text}
use aggregate_concept_transf.Text.Regex.{match_here, accepts, is_hex, find_from, find_all}
use aggregate_concept_transf.Effects.{ok, Log}
use aggregate_concept_transf.World.{ConceptChanges, PublishReply, publish_error, published, World}
use aggregate_concept_transf.Sqs.{ConceptUpdate}
use aggregate_concept_transf.Concordances.{get_concordance}
use aggregate_concept_transf.S3.{get_concept_and_transaction_id}
use aggregate_concept_transf.Concept.Service.{with_deadline}
use aggregate_concept_transf.Concept.Identifiers.{
  extract_identifiers_from_key, by_matches, by_parts,
}
use aggregate_concept_transf.Concept.Buckets.{bucket_concordances}
use aggregate_concept_transf.Concept.Gather.{
  get_concorded, get_concorded_concept, gather_sources, gather_buckets, gather_records,
  gather_record, fetch, fetch_primary, aggregate,
}
use aggregate_concept_transf.Concept.Writer.{send_to_writer}
use aggregate_concept_transf.Concept.Process.{write, write_to_neo, process_message}
use aggregate_concept_transf.Concept.Process.Oversized.{LimitsBatches}
use aggregate_concept_transf.Concept.Listener.{process_concept_update}
use aggregate_concept_transf.Concept.Listener.Oversized.{process_concept_update-oversized}
use aggregate_concept_transf.Examples.{uuid_a, event_a, world, service}
use aggregate_concept_transf.Examples.Process.{concept}

abbrev many_changes : ConceptChanges (Unit {0})
many_changes = record {
  changed_records =
      event_a ∷ event_a ∷ event_a ∷ event_a ∷ event_a ∷ event_a ∷ event_a ∷ event_a ∷ event_a
      ∷ event_a ∷ event_a ∷ [];
  updated_ids = uuid_a ∷ [];
}

abbrev refuse : Bool → PublishReply
refuse true = publish_error (codes "TooManyEntriesInBatchRequest")
refuse false = published []

abbrev limited_world : World (Unit {0})
limited_world = record world {
  decode_changes = λ text. ok many_changes;
  unmarshal_changes = λ text. ok many_changes;
  sns_publish = λ log entries. refuse (ltb 10 (length entries));
}

limited_world-LimitsBatches : LimitsBatches limited_world
limited_world-LimitsBatches log entries more =
    (codes "TooManyEntriesInBatchRequest", ap refuse (too_many (length entries) more))
  where
    too_many : (n : ℕ) → 10 < n → ltb 10 n ≡ true
    too_many n h = ground (arith, h)

abbrev update : ConceptUpdate
update = record { uuid = uuid_a; bookmark = []; receipt_handle = none }

abbrev log_read : Log
log_read = (get_concorded_concept limited_world service uuid_a [] []).1

concept-read :
    get_concorded_concept limited_world service uuid_a [] [] ≡ (ok (concept, codes "tid"), log_read)
unfolding get_concorded_concept with_deadline get_concorded extract_identifiers_from_key by_matches
    by_parts find_all find_from match_here accepts is_hex get_concordance bucket_concordances str_eq
    gather_sources gather_buckets gather_records gather_record fetch get_concept_and_transaction_id
    fetch_primary aggregate
concept-read = refl

changes-written :
    (write_to_neo limited_world service concept (codes "tid") log_read).0
    ≡ ok (many_changes, many_changes)
unfolding write_to_neo write send_to_writer contains_text
changes-written = refl

process_concept_update-oversized_example :
    ((process_concept_update limited_world service update []).0 ≢ ok tt)
    × ((process_concept_update limited_world service update []).1
        ≡ (process_message limited_world service uuid_a [] []).1)
process_concept_update-oversized_example =
    process_concept_update-oversized limited_world service update [] log_read concept (codes "tid")
      many_changes many_changes limited_world-LimitsBatches concept-read changes-written
      (omega arith)
