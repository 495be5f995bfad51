-- ===== src/Concept/Process/Protocol.antt =====
-- ProcessMessage follows its plan: the write to Neo4j first, and after a change the purges, the
-- write to Elasticsearch, the events and the notification, in this order (concept/service.go).
use aggregate_concept_transf.Common.{List, [], ◌∷◌, ◌++◌, Bool, true, false, if◌then◌else◌, refl}
use aggregate_concept_transf.Text.{Str, codes, str_eq}
use aggregate_concept_transf.Effects.{Res, ok, err, panic, Log, M, ◌>>=◌, ◌>>◌, lift, return}
use aggregate_concept_transf.World.{CanonicalConcept, ConceptChanges, World}
use aggregate_concept_transf.Concept.Service.{AggregateService}
use aggregate_concept_transf.Kinesis.{add_record_to_stream}
use aggregate_concept_transf.Sns.{publish_events}
use aggregate_concept_transf.Concept.Process
use aggregate_concept_transf.Concept.Process.{
  ignore, write, write_to_elastic, is_type_allowed_in_elastic, person_of, purge_person,
  purge_issuer, purge_member, purge_all, propagate, write_to_neo, propagate_if_changed,
  update_concept, last_uuid, process_message,
}
use aggregate_concept_transf.Concept.Process.Plan.{
  Step, put, purge, publish, notify, Follows, Follows-lift, Follows->>=,
}
use aggregate_concept_transf.Concept.Process.Steps.{
  write-Follows, purge-Follows, publish-Follows, notify-Follows, nothing_done,
}

module _ {R : Type 0} (w : World R) (s : AggregateService) where
  abbrev pub person_plan : Res Str → List (Step R)
  person_plan (ok person_uuid) = purge (person_uuid ∷ []) (codes "Person") ∷ []
  person_plan (err _) = []
  person_plan panic = []

  abbrev pub issuer_plan : CanonicalConcept R → List (Step R)
  issuer_plan concept =
      if str_eq concept.concept_type (codes "FinancialInstrument")
      then purge (concept.issued_by ∷ []) (codes "Organisation") ∷ []
      else []

  abbrev pub member_plan : CanonicalConcept R → List (Step R)
  member_plan concept =
      if str_eq concept.concept_type (codes "Membership")
      then person_plan (person_of concept.relationships)
      else []

  -- The concept, then the organisation that issued a financial instrument or the person of a
  -- membership.
  abbrev pub purge_plan : CanonicalConcept R → ConceptChanges R → List (Step R)
  purge_plan concept update =
      purge update.updated_ids concept.concept_type ∷ issuer_plan concept ++ member_plan concept

  abbrev pub elastic_plan : CanonicalConcept R → (transaction_id : Str) → List (Step R)
  elastic_plan concept transaction_id =
      if is_type_allowed_in_elastic concept
      then put s.elasticsearch_writer_address concept transaction_id ∷ []
      else []

  abbrev pub propagate_plan :
      CanonicalConcept R
      → (transaction_id : Str) → (changes update : ConceptChanges R) → List (Step R)
  propagate_plan concept transaction_id changes update =
      purge_plan concept update
      ++ (elastic_plan concept transaction_id
          ++ (publish update.changed_records
              ∷ notify changes.updated_ids concept.concept_type
              ∷ []))

  if-Follows :
      {plan : List (Step R)} {log : Log} (b : Bool) (m : M (Unit {0}))
      → Follows w s plan log (m log)
      → Follows w s (if b then plan else []) log ((if b then m else return tt) log)
  if-Follows true m h = h
  if-Follows {log} false m h = Follows-lift w s (ok tt) log

  person-Follows :
      (r : Res Str) (log : Log) → Follows w s (person_plan r) log (purge_person w s r log)
  unfolding purge_person
  person-Follows (ok person_uuid) log = purge-Follows w s (person_uuid ∷ []) (codes "Person") log
  person-Follows (err e) log = Follows-lift w s (ok tt) log
  person-Follows panic log = nothing_done w s panic refl

  purge_issuer-Follows :
      (concept : CanonicalConcept R) (log : Log)
      → Follows w s (issuer_plan concept) log (purge_issuer w s concept log)
  unfolding purge_issuer
  purge_issuer-Follows concept log =
      if-Follows (str_eq concept.concept_type (codes "FinancialInstrument"))
        (ignore (Process.purge w s (concept.issued_by ∷ []) (codes "Organisation")))
        (purge-Follows w s (concept.issued_by ∷ []) (codes "Organisation") log)

  purge_member-Follows :
      (concept : CanonicalConcept R) (log : Log)
      → Follows w s (member_plan concept) log (purge_member w s concept log)
  unfolding purge_member
  purge_member-Follows concept log =
      if-Follows (str_eq concept.concept_type (codes "Membership"))
        (purge_person w s (person_of concept.relationships))
        (person-Follows (person_of concept.relationships) log)

  purge_all-Follows :
      (concept : CanonicalConcept R) (update : ConceptChanges R) (log : Log)
      → Follows w s (purge_plan concept update) log (purge_all w s concept update log)
  unfolding purge_all
  purge_all-Follows concept update log =
      Follows->>= w s log (ignore (Process.purge w s update.updated_ids concept.concept_type))
        (λ _. purge_issuer w s concept >> purge_member w s concept)
        (purge-Follows w s update.updated_ids concept.concept_type log)
        λ _ log2.
          Follows->>= w s log2 (purge_issuer w s concept) (λ _. purge_member w s concept)
            (purge_issuer-Follows concept log2) (λ _. purge_member-Follows concept)

  elastic-Follows :
      (concept : CanonicalConcept R) (tid : Str) (log : Log)
      → Follows w s (elastic_plan concept tid) log (write_to_elastic w s concept tid log)
  unfolding write_to_elastic
  elastic-Follows concept tid log =
      let send : M (ConceptChanges R) = write w s s.elasticsearch_writer_address concept tid in
      if-Follows (is_type_allowed_in_elastic concept) (send >>= λ _. return tt) (
        Follows->>= w s log send (λ _. return tt)
          (write-Follows w s s.elasticsearch_writer_address concept tid log)
          (λ _. Follows-lift w s (ok tt)))

  pub propagate-Follows :
      (concept : CanonicalConcept R) (tid : Str) (changes update : ConceptChanges R) (log : Log)
      → Follows w s
          (propagate_plan concept tid changes update)
          log
          (propagate w s concept tid changes update log)
  unfolding propagate
  propagate-Follows concept tid changes update log =
      let notification : M (Unit {0}) = lift (w.marshal_ids changes.updated_ids) >>= λ raw_ids.
      add_record_to_stream w s.kinesis raw_ids concept.concept_type in
      let events : M (Unit {0}) = publish_events w s.events_sns update.changed_records in
      Follows->>= w s log (purge_all w s concept update)
        (λ _. write_to_elastic w s concept tid >> (events >> notification))
        (purge_all-Follows concept update log)
        λ _ log2.
          Follows->>= w s log2 (write_to_elastic w s concept tid) (λ _. events >> notification)
            (elastic-Follows concept tid log2)
            λ _ log3.
              Follows->>= w s log3 events (λ _. notification)
                (publish-Follows w s update.changed_records log3)
                (λ _. notify-Follows w s changes.updated_ids concept.concept_type)
