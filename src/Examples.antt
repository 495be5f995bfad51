-- ===== src/Examples.antt =====
-- A small world and a service in it, on which the theorems are tried out.
pub mod Keys
pub mod Buckets
pub mod Process
pub mod Updates
pub mod Workers
pub mod System
pub mod Start
pub mod Routes
pub mod Batch
pub mod Repeat
pub mod Deletions
pub mod Dispatch
pub mod Refinement
pub mod Application
pub mod Oversized
use aggregate_concept_transf.Common.{Option, List, [], ◌∷◌, ◌++◌, false, none, some}
use aggregate_concept_transf.Text.{Str, codes}
use aggregate_concept_transf.Effects.{Log, Res, ok, err, panic}
use aggregate_concept_transf.World.{
  SourceConcept, CanonicalConcept, ConcordanceRecord, Event, ConceptChanges, response, object,
  metadata, published, DeleteReply, sent, not_sent, World,
}
use aggregate_concept_transf.Concept.Service.{AggregateService}

abbrev pub uuid_a : Str
uuid_a = codes "28090964-9997-4bc2-9638-7a11135aaff9"

abbrev pub uuid_b : Str
uuid_b = codes "34a571fb-d779-4610-a7ba-2e127676db4d"

abbrev pub record_a : ConcordanceRecord
record_a = record { uuid = uuid_a; authority = codes "Smartlogic"; authority_value = codes "123" }

abbrev pub record_b : ConcordanceRecord
record_b = record { uuid = uuid_b; authority = codes "TME"; authority_value = codes "Q2" }

abbrev pub source_a : SourceConcept (Unit {0})
source_a = record {
  uuid = uuid_a;
  concept_type = codes "Person";
  authority = codes "Smartlogic";
  authority_value = [];
  rest = tt;
}

abbrev source_of : Res Str → Res (SourceConcept (Unit {0}))
source_of (ok text) = ok source_a
source_of (err e) = err e
source_of panic = panic

abbrev pub canonical_of :
    SourceConcept (Unit {0}) → List (SourceConcept (Unit {0})) → CanonicalConcept (Unit {0})
canonical_of primary sources = record {
  pref_uuid = primary.uuid;
  concept_type = primary.concept_type;
  issued_by = [];
  source_representations = primary ∷ sources;
  relationships = [];
  rest = tt;
}

abbrev pub event_a : Event (Unit {0})
event_a = record {
  concept_type = codes "Person";
  concept_uuid = uuid_a;
  aggregate_hash = codes "7";
  transaction_id = codes "tid";
  event_details = tt;
}

-- The JSON of changes: nothing for no changes.
abbrev written_changes : ConceptChanges (Unit {0}) → Str
written_changes changes = elim changes.changed_records [ [] ↦ [] | _ ∷ _ ↦ codes "{}" ]

abbrev read_changes : Str → Res (ConceptChanges (Unit {0}))
read_changes [] = ok (record { changed_records = []; updated_ids = [] })
read_changes (_ ∷ _) = ok (record { changed_records = event_a ∷ []; updated_ids = uuid_a ∷ [] })

abbrev replied_changes : Res Str → Res (ConceptChanges (Unit {0}))
replied_changes (ok text) = read_changes text
replied_changes (err e) = err e
replied_changes panic = panic

-- Nothing is sent with a context that has ended.
abbrev delete_reply : Log → (ctx_err receipt_handle : Option Str) → DeleteReply
delete_reply log none handle = sent none
delete_reply log (some e) handle = not_sent (codes "RequestCanceled: " ++ e)

-- Every concept is a person, the concordances have two records, and no call fails.
abbrev pub world : World (Unit {0})
world = record {
  create_canonical_concept = canonical_of;
  no_rest = tt;
  quote = λ s. b'"' ∷ s ++ b'"' ∷ [];
  marshal_concept = λ concept. ok concept.pref_uuid;
  decode_source_concept = source_of;
  decode_changes = replied_changes;
  marshal_changes = λ changes. ok (written_changes changes);
  unmarshal_changes = read_changes;
  marshal_event = λ ev. ok ev.concept_uuid;
  marshal_ids = λ ids. ok [];
  unmarshal_concordances = λ text. ok (record_a ∷ record_b ∷ []);
  unmarshal_body = λ text. ok text;
  unmarshal_message = λ text. ok (some (record { key = text; bookmark = [] } ∷ []));
  extend_path = λ address path. address ++ path;
  new_request = λ method url. ok [];
  http_do = λ log req. response 200 (ok (codes "{}"));
  s3_get_object = λ log bucket key. object (ok uuid_a);
  s3_head_object = λ log bucket key. metadata (some (codes "tid"));
  sqs_receive_message = λ log url max_number. [];
  sqs_delete_message = delete_reply;
  sns_publish = λ log entries. published [];
  kinesis_put_record = λ log key bytes. none;
  s3_head_bucket_error = λ log bucket. none;
  sqs_attributes_error = λ log url. none;
  kinesis_describe_error = λ log name. none;
  map_order = λ log buckets. buckets;
  expired = λ log. none;
  cancelled = λ log. none;
}

abbrev pub service : AggregateService
service = record {
  n_store = record { bucket_name = codes "n" };
  external_normalised_store = record { bucket_name = codes "x" };
  concordances = record { address = codes "http://concordances" };
  concept_updates_sqs = record {
    queue_url = codes "http://queue";
    listen_params = record {
      queue_url = codes "http://queue";
      max_number_of_messages = 10;
      visibility_timeout = 30;
      wait_time_seconds = 20;
    };
  };
  events_sns = record { topic_arn = codes "topic" };
  kinesis = record { stream_name = codes "stream" };
  neo_writer_address = codes "http://neo4j";
  varnish_purger_address = codes "http://purger/";
  elasticsearch_writer_address = codes "http://es/bulk";
  types_to_purge_from_public_endpoints = codes "Person" ∷ [];
  read_only = false;
}
