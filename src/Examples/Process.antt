-- ===== src/Examples/Process.antt =====
-- The theorems on the reads and on an update at the small world.
use aggregate_concept_transf.Common.{[], ◌∷◌, ◌≡◌, refl, ap, length, false}
use aggregate_concept_transf.Text.{Str, codes, str_eq, contains_text}
use aggregate_concept_transf.Text.Regex.{match_here, accepts, is_hex, find_from, find_all}
use aggregate_concept_transf.Effects.{ok, Log, ok-injective}
use aggregate_concept_transf.World.{CanonicalConcept}
use aggregate_concept_transf.Concept.Service.{AggregateService, with_deadline}
use aggregate_concept_transf.Concordances.{get_concordance}
use aggregate_concept_transf.S3.{get_concept_and_transaction_id}
use aggregate_concept_transf.Concept.Identifiers.{
  extract_identifiers_from_key, by_matches, by_parts,
}
use aggregate_concept_transf.Concept.Buckets.{bucket_concordances}
use aggregate_concept_transf.Concept.Gather.{
  get_concorded, get_concorded_concept, gather_sources, gather_buckets, gather_records,
  gather_record, fetch, fetch_primary, aggregate,
}
use aggregate_concept_transf.Concept.Gather.Calls.{OnlyCalls, IsConceptRead}
use aggregate_concept_transf.Concept.Handlers.{get_handler}
use aggregate_concept_transf.Concept.Handlers.Safe.{get_handler-OnlyReads}
use aggregate_concept_transf.Concept.Gather.Results.{Made, get_concorded-Made}
use aggregate_concept_transf.Concept.Gather.Sources.{MapOrder, ReadsAll, get_concorded-ReadsAll}
use aggregate_concept_transf.Concept.Process.{process_message, last_uuid, write_to_neo}
use aggregate_concept_transf.Concept.Process.Plan.{Follows, put}
use aggregate_concept_transf.Concept.Process.Update.{update_plan, process_message-Follows}
use aggregate_concept_transf.Concept.Process.Guards.{
  EmptyRoundTrip, last_uuid-read, process_message-unnamed,
}
use mathlib.Core.List.Perm
use aggregate_concept_transf.Examples.{source_a, uuid_a, world, service}

map_order-Perm : MapOrder world service
map_order-Perm log entries = Perm.refl entries

abbrev pub concept : CanonicalConcept (Unit {0})
concept = record {
  pref_uuid = uuid_a;
  concept_type = codes "Person";
  issued_by = [];
  source_representations = source_a ∷ source_a ∷ [];
  relationships = [];
  rest = tt;
}

concept-read : (get_concorded world service uuid_a [] []).0 ≡ ok (concept, codes "tid")
unfolding get_concorded extract_identifiers_from_key by_matches by_parts find_all find_from
    match_here accepts is_hex get_concordance bucket_concordances str_eq gather_sources
    gather_buckets gather_records gather_record fetch get_concept_and_transaction_id fetch_primary
    aggregate
concept-read = refl

get_concorded-ReadsAll_example :
    ReadsAll world service uuid_a [] [] (get_concorded world service uuid_a [] []).1
get_concorded-ReadsAll_example =
    get_concorded-ReadsAll world service uuid_a [] [] (concept, codes "tid") map_order-Perm
      concept-read

abbrev log_read : Log
log_read = (get_concorded_concept world service uuid_a [] []).1

concept-in_time :
    get_concorded_concept world service uuid_a [] [] ≡ (ok (concept, codes "tid"), log_read)
unfolding get_concorded_concept with_deadline get_concorded extract_identifiers_from_key by_matches
    by_parts find_all find_from match_here accepts is_hex get_concordance bucket_concordances str_eq
    gather_sources gather_buckets gather_records gather_record fetch get_concept_and_transaction_id
    fetch_primary aggregate
concept-in_time = refl

process_message-Follows_example :
    Follows world service
      (update_plan world service concept
        (codes "tid")
        (write_to_neo world service concept (codes "tid") log_read).0)
      log_read
      (process_message world service uuid_a [] [])
process_message-Follows_example =
    process_message-Follows world service uuid_a [] [] log_read concept (codes "tid") refl
      concept-in_time

last_uuid-read_example : (u : Str) × (last_uuid uuid_a ≡ ok u) × (length u ≡ 36)
last_uuid-read_example =
    last_uuid-read world service uuid_a [] [] (concept, codes "tid")
      (ap (λ outcome. outcome.0) concept-in_time)

-- The address of the Neo4j writer that README.md gives as the default.
abbrev unnamed : AggregateService
unnamed = record service { neo_writer_address = codes "http://localhost:8081/" }

abbrev log_unnamed : Log
log_unnamed = (get_concorded_concept world unnamed uuid_a [] []).1

concept-unnamed :
    get_concorded_concept world unnamed uuid_a [] [] ≡ (ok (concept, codes "tid"), log_unnamed)
unfolding get_concorded_concept with_deadline get_concorded extract_identifiers_from_key by_matches
    by_parts find_all find_from match_here accepts is_hex get_concordance bucket_concordances str_eq
    gather_sources gather_buckets gather_records gather_record fetch get_concept_and_transaction_id
    fetch_primary aggregate
concept-unnamed = refl

address-unnamed : contains_text (codes "http://localhost:8081/") (codes "neo4j") ≡ false
unfolding contains_text
address-unnamed = refl

changes-EmptyRoundTrip : EmptyRoundTrip world unnamed
changes-EmptyRoundTrip raw e = rw (← ok-injective e) refl

process_message-unnamed_example :
    Follows world unnamed
      (put unnamed.neo_writer_address concept (codes "tid") ∷ [])
      log_unnamed
      (process_message world unnamed uuid_a [] [])
process_message-unnamed_example =
    process_message-unnamed world unnamed uuid_a [] [] log_unnamed concept (codes "tid")
      changes-EmptyRoundTrip address-unnamed refl concept-unnamed

get_concorded-Made_example : Made world service uuid_a [] [] concept
get_concorded-Made_example =
    get_concorded-Made world service uuid_a [] [] (concept, codes "tid") concept-read

get_handler-OnlyReads_example :
    OnlyCalls (IsConceptRead world service) [] (get_handler world service uuid_a [] []).1
get_handler-OnlyReads_example = get_handler-OnlyReads world service uuid_a [] []
