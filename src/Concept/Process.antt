-- ===== src/Concept/Process.antt =====
-- ProcessMessage of concept/service.go: an update from the read of its sources to the
-- notifications, with isTypeAllowedInElastic and getPersonUUIDFromConcept.
pub mod Plan
pub mod Steps
pub mod Protocol
pub mod Update
pub mod Guards
pub mod Oversized
use aggregate_concept_transf.Common.{
  List, [], ◌∷◌, ◌-◌, Bool, true, false, ◌||◌, leb, if◌then◌else◌, length, drop,
}
use aggregate_concept_transf.Text.{Str, codes, str_eq}
use aggregate_concept_transf.Effects.{Res, ok, err, panic, M, ◌>>=◌, ◌>>◌, return, fail, lift}
use aggregate_concept_transf.World.{
  SourceConcept, Relationship, CanonicalConcept, ConceptChanges, World,
}
use aggregate_concept_transf.Kinesis.{add_record_to_stream}
use aggregate_concept_transf.Sns.{publish_events}
use aggregate_concept_transf.Concept.Identifiers.{length_of_uuid}
use aggregate_concept_transf.Concept.Buckets.{smartlogic_authority}
use aggregate_concept_transf.Concept.Service.{AggregateService}
use aggregate_concept_transf.Concept.Gather.{get_concorded_concept}
use aggregate_concept_transf.Concept.Paths.{resolve_concept_type}
use aggregate_concept_transf.Concept.Writer.{send_to_writer}
use aggregate_concept_transf.Concept.Purger.{send_to_purger}

-- UUID[len(UUID)-lengthOfUUID:], which panics on a shorter text
unfoldable pub last_uuid : Str → Res Str
last_uuid uuid =
    if leb length_of_uuid (length uuid)
    then ok (drop (length uuid - length_of_uuid) uuid)
    else panic

-- the first relationship with the label HAS_MEMBER
unfoldable pub person_of : List Relationship → Res Str
person_of [] = err (codes "membership is missing 'HAS_MEMBER' relationship")
person_of (rel ∷ relationships) =
    if str_eq rel.label (codes "HAS_MEMBER") then ok rel.uuid else person_of relationships

-- An error is logged only.
abbrev pub logged : Res (Unit {0}) → Res (Unit {0})
logged (ok _) = ok tt
logged (err _) = ok tt
logged panic = panic

abbrev pub ignore : M (Unit {0}) → M (Unit {0})
ignore m log = (logged (m log).0, (m log).1)

module _ {R : Type 0} where
  unfoldable pub any_smartlogic : List (SourceConcept R) → Bool
  any_smartlogic [] = false
  any_smartlogic (sr ∷ sources) = str_eq sr.authority smartlogic_authority || any_smartlogic sources

  unfoldable pub is_type_allowed_in_elastic : CanonicalConcept R → Bool
  unfolding any_smartlogic
  is_type_allowed_in_elastic concept =
      let is_type : Str → Bool = str_eq concept.concept_type in
      if is_type (codes "FinancialInstrument")
      then false
      else if is_type (codes "MembershipRole")
      then false
      else if is_type (codes "BoardRole")
      then false
      else if is_type (codes "Membership")
      then any_smartlogic concept.source_representations
      else if is_type (codes "IndustryClassification")
          || (is_type (codes "NAICSIndustryClassification")
              || is_type (codes "FTAnIIndustryClassification"))
      then false
      else true

module _ {R : Type 0} (w : World R) (s : AggregateService) where
  -- sendToPurger at the service's address and types
  unfoldable pub purge : (uuids : List Str) → (concept_type : Str) → M (Unit {0})
  purge uuids concept_type =
      send_to_purger w s.varnish_purger_address uuids concept_type
        s.types_to_purge_from_public_endpoints

  -- sendToWriter at one of the two writers
  unfoldable pub write :
      (address : Str) → CanonicalConcept R → (transaction_id : Str) → M (ConceptChanges R)
  write address concept transaction_id =
      send_to_writer w address (resolve_concept_type concept.concept_type) concept.pref_uuid
        transaction_id concept

  unfoldable pub purge_person : Res Str → M (Unit {0})
  purge_person (ok person_uuid) = ignore (purge (person_uuid ∷ []) (codes "Person"))
  purge_person (err _) = return tt
  purge_person panic = lift panic

  -- of a financial instrument the organisation that issued it is purged too
  unfoldable pub purge_issuer : CanonicalConcept R → M (Unit {0})
  purge_issuer concept =
      if str_eq concept.concept_type (codes "FinancialInstrument")
      then ignore (purge (concept.issued_by ∷ []) (codes "Organisation"))
      else return tt

  -- of a membership the person is purged too
  unfoldable pub purge_member : CanonicalConcept R → M (Unit {0})
  unfolding purge_person
  purge_member concept =
      if str_eq concept.concept_type (codes "Membership")
      then purge_person (person_of concept.relationships)
      else return tt

  -- the purges of the concept and of the concepts that it affects; their errors are logged only
  unfoldable pub purge_all : CanonicalConcept R → ConceptChanges R → M (Unit {0})
  unfolding purge_issuer purge_member
  purge_all concept update = do
    ignore (purge update.updated_ids concept.concept_type)
    purge_issuer concept
    purge_member concept

  unfoldable pub write_to_elastic : CanonicalConcept R → (transaction_id : Str) → M (Unit {0})
  write_to_elastic concept transaction_id =
      if is_type_allowed_in_elastic concept
      then (do _ ← write s.elasticsearch_writer_address concept transaction_id; return tt)
      else return tt

  -- what follows a write to Neo4j that changed something
  unfoldable pub propagate :
      CanonicalConcept R
      → (transaction_id : Str) → (changes update : ConceptChanges R) → M (Unit {0})
  propagate concept transaction_id changes update = do
    purge_all concept update
    write_to_elastic concept transaction_id
    publish_events w s.events_sns update.changed_records
    raw_ids ← lift (w.marshal_ids changes.updated_ids)
    add_record_to_stream w s.kinesis raw_ids concept.concept_type

  -- the concept's changes as Neo4j gives them, and as they come back from their JSON
  unfoldable pub write_to_neo :
      CanonicalConcept R → (transaction_id : Str) → M (ConceptChanges R × ConceptChanges R)
  write_to_neo concept transaction_id = do
    changes ← write s.neo_writer_address concept transaction_id
    raw_json ← lift (w.marshal_changes changes)
    update ← lift (w.unmarshal_changes raw_json)
    return (changes, update)

  unfoldable pub propagate_if_changed :
      CanonicalConcept R
      → (transaction_id : Str) → ConceptChanges R × ConceptChanges R
      → M (Unit {0})
  propagate_if_changed concept transaction_id (changes, update) = elim update.changed_records [
    | [] ↦ return tt
    | _ ∷ _ ↦ propagate concept transaction_id changes update
  ]

  -- what follows the read of the sources
  unfoldable pub update_concept : CanonicalConcept R → (transaction_id : Str) → M (Unit {0})
  update_concept concept transaction_id = do
    written ← write_to_neo concept transaction_id
    propagate_if_changed concept transaction_id written

  -- ProcessMessage behind its test for the read-only mode
  unfoldable pub read_and_update : (uuid bookmark : Str) → M (Unit {0})
  read_and_update uuid bookmark = do
    (concept, transaction_id) ← get_concorded_concept w s uuid bookmark
    _ ← lift (last_uuid uuid)
    update_concept concept transaction_id

  -- (*AggregateService).ProcessMessage
  unfoldable pub process_message : (uuid bookmark : Str) → M (Unit {0})
  process_message uuid bookmark =
      if s.read_only
      then fail (codes "aggregate service is in read-only mode")
      else read_and_update uuid bookmark
