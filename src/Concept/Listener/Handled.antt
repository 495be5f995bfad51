-- ===== src/Concept/Listener/Handled.antt =====
-- Every update of a batch is handled (ListenForNotifications of concept/service.go).
use aggregate_concept_transf.Common.{
  List, [], ◌∷◌, ◌++◌, append_assoc, All, ◌≡◌, refl, sym, ap, ◌∙◌, subst, inl, inr,
}
use aggregate_concept_transf.Effects.{ok, Log, >>=-ok}
use aggregate_concept_transf.World.{World}
use aggregate_concept_transf.Sqs.{
  ConceptUpdate, get_notifications_from_messages, listen_and_serve_queue,
}
use aggregate_concept_transf.Concept.Service.{AggregateService}
use aggregate_concept_transf.Concept.Process.{ignore}
use aggregate_concept_transf.Concept.Listener.{process_concept_update, process_notifications, serve}
use aggregate_concept_transf.Concept.Listener.Deletes.{process_message-IsOffQueue}
use aggregate_concept_transf.Concept.Listener.Justified.{received}
use aggregate_concept_transf.Concept.Listener.Removal.{deletion, process_concept_update-ends}

module _ {R : Type 0} (w : World R) (s : AggregateService) where
  -- The second log has the calls of the first one and later ones.
  abbrev pub Grows : (log log' : Log) → Type 0
  Grows log log' = (later : Log) × (log' ≡ later ++ log)

  Grows-trans : (log log' log'' : Log) → Grows log log' → Grows log' log'' → Grows log log''
  Grows-trans log log' log'' (calls, e) (more, f) =
      (more ++ calls, f ∙ ap (λ l. more ++ l) e ∙ sym (append_assoc more calls log))

  -- The goroutine of the update has run from some log on, and its calls stand in `log`.
  abbrev pub Handled : Log → ConceptUpdate → Type 0
  Handled log n = (from : Log) × Grows (process_concept_update w s n from).1 log

  process_concept_update-Grows :
      (n : ConceptUpdate) (log : Log) → Grows log (process_concept_update w s n log).1
  process_concept_update-Grows n log =
      let (calls, _, e) = process_message-IsOffQueue w s n.uuid n.bookmark log in
      elim (process_concept_update-ends w s n log) [
        | inl (_, last) ↦ (deletion w s n ∷ calls, last ∙ ap (λ l. deletion w s n ∷ l) e)
        | inr (last, _) ↦ (calls, last ∙ e)
      ]

  process_notifications-Grows :
      (notifications : List ConceptUpdate) (log : Log)
      → (process_notifications w s notifications log).0 ≡ ok tt
      → Grows log (process_notifications w s notifications log).1
        × All (Handled (process_notifications w s notifications log).1) notifications
  unfolding process_notifications
  process_notifications-Grows [] log h = (([], refl), tt)
  process_notifications-Grows (n ∷ notifications) log h =
      let now = (process_concept_update w s n log).1 in
      let (_, _, k, run) =
        >>=-ok (ignore (process_concept_update w s n))
          (λ _. process_notifications w s notifications) log h in
      let (grows, handled) = process_notifications-Grows notifications now k in
      subst (λ (l : Log). Grows log l × All (Handled l) (n ∷ notifications))
        (sym (ap (λ r. r.1) run))
        (Grows-trans log now _ (process_concept_update-Grows n log) grows, ((log, grows), handled))

  -- A worker's round that ends without a panic has run processConceptUpdate for every update read
  -- from the messages received, whichever of them have failed.
  pub serve-Handled :
      (log : Log)
      → (serve w s log).0 ≡ ok tt
      → (updates : List ConceptUpdate) × (get_notifications_from_messages w (received w s log)
          ≡ ok updates)
        × All (Handled (serve w s log).1) updates
  unfolding serve listen_and_serve_queue
  serve-Handled log h =
      let (updates, read, k, run) =
        >>=-ok (listen_and_serve_queue w s.concept_updates_sqs) (process_notifications w s) log h in
      (
        updates,
        read,
        subst (λ (l : Log). All (Handled l) updates) (sym (ap (λ r. r.1) run))
            (process_notifications-Grows updates _ k).1,
      )
