-- ===== src/Concept/Process/Update.antt =====
-- An update as a whole: what ProcessMessage does with what Neo4j answers (concept/service.go).
use aggregate_concept_transf.Common.{
  List, [], ◌∷◌, false, if◌then◌else◌, ◌≡◌, refl, inl, inr, sym, subst,
}
use aggregate_concept_transf.Text.{Str, codes}
use aggregate_concept_transf.Effects.{Res, ok, Log, M, lift, return, fail, Res-cases}
use aggregate_concept_transf.World.{CanonicalConcept, ConceptChanges, Event, World}
use aggregate_concept_transf.Concept.Service.{AggregateService}
use aggregate_concept_transf.Concept.Gather.{get_concorded_concept}
use aggregate_concept_transf.Concept.Process.{
  write, propagate, write_to_neo, propagate_if_changed, update_concept, last_uuid, read_and_update,
  process_message,
}
use aggregate_concept_transf.Concept.Process.Plan.{
  Step, put, then_plan, Follows, Follows-lift, Follows->>=, Follows->>=_then, stopped,
}
use aggregate_concept_transf.Concept.Process.Protocol.{propagate_plan, propagate-Follows}
use aggregate_concept_transf.Concept.Process.Steps.{write-Follows}

module _ {R : Type 0} (w : World R) (s : AggregateService) where
  -- What follows the write to Neo4j: nothing, where no record changed.
  abbrev pub change_plan :
      CanonicalConcept R
      → (transaction_id : Str) → ConceptChanges R × ConceptChanges R
      → List (Step R)
  change_plan concept transaction_id (changes, update) = elim update.changed_records [
    | [] ↦ []
    | _ ∷ _ ↦ propagate_plan w s concept transaction_id changes update
  ]

  write_to_neo-Follows :
      (concept : CanonicalConcept R) (tid : Str) (log : Log)
      → Follows w s
          (put s.neo_writer_address concept tid ∷ [])
          log
          (write_to_neo w s concept tid log)
  unfolding write_to_neo
  write_to_neo-Follows concept tid log =
      Follows->>= w s log (write w s s.neo_writer_address concept tid) _
        (write-Follows w s s.neo_writer_address concept tid log)
        λ changes log2.
          Follows->>= w s log2 (lift (w.marshal_changes changes)) _
            (Follows-lift w s (w.marshal_changes changes) log2)
            λ raw log3.
              Follows->>= w s log3 (lift (w.unmarshal_changes raw))
                (λ update. return (changes, update))
                (Follows-lift w s (w.unmarshal_changes raw) log3)
                λ update. Follows-lift w s (ok (changes, update))

  propagate_if_changed-Follows :
      (concept : CanonicalConcept R) (tid : Str) (written : ConceptChanges R × ConceptChanges R)
      (log : Log)
      → Follows w s
          (change_plan concept tid written)
          log
          (propagate_if_changed w s concept tid written log)
  unfolding propagate_if_changed
  propagate_if_changed-Follows concept tid (changes, update) log =
      by_records update.changed_records (propagate-Follows w s concept tid changes update log)
    where
      by_records :
          (records : List (Event R))
          → Follows w s
              (propagate_plan w s concept tid changes update)
              log
              (propagate w s concept tid changes update log)
          → Follows w s
              (elim records [ [] ↦ [] | _ ∷ _ ↦ propagate_plan w s concept tid changes update ])
              log
              ((elim records as (λ _. M (Unit {0})) [
                | [] ↦ return tt
                | _ ∷ _ ↦ propagate w s concept tid changes update
              ])
                log)
      by_records [] h = Follows-lift w s (ok tt) log
      by_records (_ ∷ _) h = h

  -- The plan of an update, by what the write to Neo4j gives.
  abbrev pub update_plan :
      CanonicalConcept R
      → (transaction_id : Str) → Res (ConceptChanges R × ConceptChanges R)
      → List (Step R)
  update_plan concept transaction_id written =
      put s.neo_writer_address concept transaction_id
      ∷ then_plan w s (change_plan concept transaction_id) written

  pub update_concept-Follows :
      (concept : CanonicalConcept R) (tid : Str) (log : Log)
      → Follows w s
          (update_plan concept tid (write_to_neo w s concept tid log).0)
          log
          (update_concept w s concept tid log)
  unfolding update_concept
  update_concept-Follows concept tid log =
      Follows->>=_then w s (change_plan concept tid) log (write_to_neo w s concept tid)
        (propagate_if_changed w s concept tid) (write_to_neo-Follows concept tid log)
        (propagate_if_changed-Follows concept tid)

  read_and_update-Follows :
      (uuid bookmark : Str) (log log1 : Log) (concept : CanonicalConcept R) (tid : Str)
      → get_concorded_concept w s uuid bookmark log ≡ (ok (concept, tid), log1)
      → Follows w s
          (update_plan concept tid (write_to_neo w s concept tid log1).0)
          log1
          (read_and_update w s uuid bookmark log)
  unfolding read_and_update
  read_and_update-Follows uuid bookmark log log1 concept tid read =
      elim (Res-cases (last_uuid uuid)) [
        | inl (last, e) ↦ rw (read, e) (update_concept-Follows concept tid log1)
        | inr (inl (_, e)) ↦ rw (read, e) (record { calls = []; logged = refl; runs = stopped })
        | inr (inr e) ↦ rw (read, e) (record { calls = []; logged = refl; runs = stopped })
      ]

  -- ProcessMessage, out of read-only mode and on a concept that could be read, makes its calls
  -- after the reads in the order of the update's plan: the write to Neo4j; then, if a record
  -- changed, the purges, the write to Elasticsearch for the types allowed there, the batch of
  -- events and the notification of the stream. It comes to the end of the plan if it ends in no
  -- error, and else stops at some step of it; only a purge may be left out.
  pub process_message-Follows :
      (uuid bookmark : Str) (log log1 : Log) (concept : CanonicalConcept R) (tid : Str)
      → s.read_only ≡ false
      → get_concorded_concept w s uuid bookmark log ≡ (ok (concept, tid), log1)
      → Follows w s
          (update_plan concept tid (write_to_neo w s concept tid log1).0)
          log1
          (process_message w s uuid bookmark log)
  unfolding process_message
  process_message-Follows uuid bookmark log log1 concept tid writes read =
      subst
        (λ b. Follows w s (update_plan concept tid (write_to_neo w s concept tid log1).0) log1 (
          (if b
              then fail (codes "aggregate service is in read-only mode")
              else read_and_update w s uuid bookmark)
            log))
        (sym writes) (read_and_update-Follows uuid bookmark log log1 concept tid read)
