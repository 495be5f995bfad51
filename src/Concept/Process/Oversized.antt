-- ===== src/Concept/Process/Oversized.antt =====
-- An update with more events than SNS takes in one batch (ProcessMessage and processConceptUpdate of
-- concept/service.go, PublishEvents of sns/client.go).
use aggregate_concept_transf.Common.{
  ℕ, ◌<◌, suc, List, [], ◌∷◌, length, Bool-cases, false, ◌≡◌, ◌≢◌, refl, sym, ap, ◌∙◌, arith, inl,
  inr, subst,
}
use aggregate_concept_transf.Text.{Str}
use aggregate_concept_transf.Effects.{ok, BatchEntry, Log, lift, >>=-ok, bind-ok, ok-injective}
use aggregate_concept_transf.World.{CanonicalConcept, ConceptChanges, Event, publish_error, World}
use aggregate_concept_transf.Sns
use aggregate_concept_transf.Sns.{batch_entry, batch_entries, publish_events, publish_result}
use aggregate_concept_transf.Concept.Service.{AggregateService}
use aggregate_concept_transf.Concept.Gather.{get_concorded_concept}
use aggregate_concept_transf.Concept.Process.{
  purge_all, write_to_elastic, propagate, write_to_neo, propagate_if_changed, update_concept,
  last_uuid, read_and_update, process_message,
}

module _ {R : Type 0} (w : World R) where
  -- SNS refuses a batch of more than ten entries.
  abbrev pub LimitsBatches : Type 0
  LimitsBatches =
      (log : Log) (entries : List BatchEntry)
      → 10 < length entries
      → (e : Str) × (w.sns_publish log entries ≡ publish_error e)

  length-batch_entries :
      (i : ℕ) (events : List (Event R)) (entries : List BatchEntry)
      → batch_entries w i events ≡ ok entries
      → length entries ≡ length events
  unfolding batch_entries
  length-batch_entries i [] entries h =
      ap (λ (l : List BatchEntry). length l) (sym (ok-injective h))
  length-batch_entries i (ev ∷ events) entries h =
      let (entry, _, h1) = bind-ok (batch_entry w i ev) _ h in
      let (rest, h2, h3) = bind-ok (batch_entries w (suc i) events) _ h1 in
      ap (λ (l : List BatchEntry). length l) (sym (ok-injective h3))
      ∙ ap suc (length-batch_entries (suc i) events rest h2)

  publish_events-oversized :
      (c : Sns.Client) (events : List (Event R)) (log : Log)
      → LimitsBatches
      → 10 < length events
      → (publish_events w c events log).0 ≢ ok tt
  unfolding publish_events publish_result
  publish_events-oversized c events log limits more h =
      let (entries, e, k, _) = >>=-ok (lift (batch_entries w 0 events)) _ log h in
      let (text, refused) =
        limits log entries (rw (length-batch_entries 0 events entries e) more) in
      let bad = rw refused at k in cc

  module _ (s : AggregateService) (limits : LimitsBatches) where
    propagate-oversized :
        (concept : CanonicalConcept R) (tid : Str) (changes update : ConceptChanges R) (log : Log)
        → 10 < length update.changed_records
        → (propagate w s concept tid changes update log).0 ≢ ok tt
    unfolding propagate
    propagate-oversized concept tid changes update log more h =
        let (_, _, h1, _) = >>=-ok (purge_all w s concept update) _ log h in
        let (_, _, h2, _) = >>=-ok (write_to_elastic w s concept tid) _ _ h1 in
        let (_, published, _, _) =
          >>=-ok (publish_events w s.events_sns update.changed_records) _ _ h2 in
        publish_events-oversized s.events_sns update.changed_records _ limits more published

    propagate_if_changed-oversized :
        (concept : CanonicalConcept R) (tid : Str) (changes : ConceptChanges R)
        (records : List (Event R)) (ids : List Str) (log : Log)
        → 10 < length records
        → (propagate_if_changed w s concept tid
            (changes, record { changed_records = records; updated_ids = ids })
            log).0
          ≢ ok tt
    unfolding propagate_if_changed
    propagate_if_changed-oversized concept tid changes [] ids log few = absurd (omega (arith, few))
    propagate_if_changed-oversized concept tid changes (r ∷ records) ids log more =
        propagate-oversized concept tid changes
          (record { changed_records = r ∷ records; updated_ids = ids }) log more

    update_concept-oversized :
        (concept : CanonicalConcept R) (tid : Str) (changes update : ConceptChanges R) (log : Log)
        → (write_to_neo w s concept tid log).0 ≡ ok (changes, update)
        → 10 < length update.changed_records
        → (update_concept w s concept tid log).0 ≢ ok tt
    unfolding update_concept
    update_concept-oversized concept tid changes update log wrote more h =
        let (written, e, h1, _) = >>=-ok (write_to_neo w s concept tid) _ log h in
        let log' = (write_to_neo w s concept tid log).1 in
        let same = ok-injective (sym wrote ∙ e) in
        propagate_if_changed-oversized concept tid changes update.changed_records update.updated_ids
          log' more
          (subst (λ p. (propagate_if_changed w s concept tid p log').0 ≡ ok tt) (sym same) h1)

    read_and_update-oversized :
        (uuid bookmark : Str) (log log1 : Log) (concept : CanonicalConcept R) (tid : Str)
        (changes update : ConceptChanges R)
        → get_concorded_concept w s uuid bookmark log ≡ (ok (concept, tid), log1)
        → (write_to_neo w s concept tid log1).0 ≡ ok (changes, update)
        → 10 < length update.changed_records
        → (read_and_update w s uuid bookmark log).0 ≢ ok tt
    unfolding read_and_update
    read_and_update-oversized uuid bookmark log log1 concept tid changes update read wrote more h =
        let k = rw read at h in
        let (_, _, k1, _) = >>=-ok (lift (last_uuid uuid)) _ log1 k in
        update_concept-oversized concept tid changes update log1 wrote more k1

    pub process_message-oversized :
        (uuid bookmark : Str) (log log1 : Log) (concept : CanonicalConcept R) (tid : Str)
        (changes update : ConceptChanges R)
        → get_concorded_concept w s uuid bookmark log ≡ (ok (concept, tid), log1)
        → (write_to_neo w s concept tid log1).0 ≡ ok (changes, update)
        → 10 < length update.changed_records
        → (process_message w s uuid bookmark log).0 ≢ ok tt
    unfolding process_message
    process_message-oversized uuid bookmark log log1 concept tid changes update read wrote more h =
        elim (Bool-cases s.read_only) [
          | inl e ↦ let bad = rw e at h in cc
          | inr e ↦
              read_and_update-oversized uuid bookmark log log1 concept tid changes update read wrote
                more (sym (by_mode e) ∙ h)
        ]
      where
        by_mode :
            s.read_only ≡ false
            → (process_message w s uuid bookmark log).0 ≡ (read_and_update w s uuid bookmark log).0
        by_mode e = rw e refl
