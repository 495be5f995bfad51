-- ===== src/Concept/Listener/Explained.antt =====
-- What a worker deletes from the queue, over its whole run (ListenForNotifications of
-- concept/service.go).
use aggregate_concept_transf.Common.{
  List, [], ◌∷◌, All, All-imp, Bool, true, false, Bool-cases, append-nil, ◌≡◌, refl, sym, ap, ◌∙◌,
  subst, inl, inr,
}
use aggregate_concept_transf.Effects.{Log, M}
use aggregate_concept_transf.World.{World}
use aggregate_concept_transf.Sqs.{
  ConceptUpdate, get_notifications_from_messages, listen_and_serve_queue,
}
use aggregate_concept_transf.Sqs.Handles.{get_notifications-From}
use aggregate_concept_transf.Concept.Service.{AggregateService}
use aggregate_concept_transf.Concept.Health.{SystemHealth, Signal, process_channel}
use aggregate_concept_transf.Concept.Process.{process_message, ignore}
use aggregate_concept_transf.Concept.Listener.{
  process_concept_update, process_notifications, serve, Worker, listen_round, listen,
  listen_for_notifications,
}
use aggregate_concept_transf.Concept.Listener.Deletes.{process_message-IsOffQueue}
use aggregate_concept_transf.Concept.Listener.Removal.{deletion, process_concept_update-ends}
use aggregate_concept_transf.Concept.Listener.Justified.{
  receive_call, received, Delivered, Justified, AllExplained, Run, Run-refl, Run-trans,
  continue-Run, All-Explained, Delivered-later,
}

module _ {R : Type 0} (w : World R) (s : AggregateService) where
  process_message-Run :
      (n : ConceptUpdate) (log : Log) → Run w s log (process_message w s n.uuid n.bookmark log).1
  process_message-Run n log =
      let (calls, h, e) = process_message-IsOffQueue w s n.uuid n.bookmark log in
      (calls, (All-Explained w s log calls h, e))

  process_concept_update-Run :
      (n : ConceptUpdate) (log : Log)
      → Delivered w s log n
      → Run w s log (process_concept_update w s n log).1
  process_concept_update-Run n log delivered =
      let processed = process_message w s n.uuid n.bookmark log in
      elim (process_concept_update-ends w s n log) [
        | inl (done, last) ↦
            let justified : Justified w s s.concept_updates_sqs.queue_url n.receipt_handle
                processed.1 =
              (n, log, (delivered, ap (λ r. (r, processed.1)) done, refl, refl)) in
            Run-trans w s log processed.1 (process_concept_update w s n log).1
              (process_message-Run n log) (deletion w s n ∷ [], ((justified, tt), last))
        | inr (last, _) ↦ subst (Run w s log) (sym last) (process_message-Run n log)
      ]

  process_notifications-Run :
      (notifications : List ConceptUpdate) (log : Log)
      → All (Delivered w s log) notifications
      → Run w s log (process_notifications w s notifications log).1
  unfolding process_notifications
  process_notifications-Run [] log h = Run-refl w s log
  process_notifications-Run (n ∷ notifications) log (h, hs) =
      let run = process_concept_update-Run n log h in
      let log' = (process_concept_update w s n log).1 in
      continue-Run w s (ignore (process_concept_update w s n) log).0
        (λ _. process_notifications w s notifications) log log' run
        λ _ _.
          process_notifications-Run notifications log'
            (All-imp (λ m. Delivered-later w s log log' m run) notifications hs)

  serve-Run : (log : Log) → Run w s log (serve w s log).1
  unfolding serve listen_and_serve_queue
  serve-Run log =
      continue-Run w s (get_notifications_from_messages w (received w s log))
        (process_notifications w s) log (receive_call w s ∷ log)
        (receive_call w s ∷ [], ((tt, tt), refl))
        λ notifications e. process_notifications-Run notifications (receive_call w s ∷ log) (
          All-imp (λ n from. (log, [], (refl, from))) notifications
            (get_notifications-From w (received w s log) notifications e))

  listen_round-Run :
      (shutdown healthy : Bool) (rest : M Worker) (log : Log)
      → ((log' : Log) → Run w s log' (rest log').1)
      → Run w s log (listen_round w s shutdown healthy rest log).1
  unfolding listen_round
  listen_round-Run true healthy rest log h = Run-refl w s log
  listen_round-Run false false rest log h = h log
  listen_round-Run false true rest log h =
      continue-Run w s (serve w s log).0 (λ _. rest) log (serve w s log).1 (serve-Run log)
        (λ _ _. h (serve w s log).1)

  listen-Run :
      (health : SystemHealth) (schedule : List (List Signal)) (log : Log)
      → Run w s log (listen w s health schedule log).1
  unfolding listen
  listen-Run health [] log = Run-refl w s log
  listen-Run health (signals ∷ schedule) log =
      let now = process_channel health signals in
      listen_round-Run now.shutdown now.healthy (listen w s now schedule) log
        (listen-Run now schedule)

  listen_for_notifications-Run :
      (health : SystemHealth) (schedule : List (List Signal)) (log : Log)
      → Run w s log (listen_for_notifications w s health schedule log).1
  unfolding listen_for_notifications
  listen_for_notifications-Run health schedule log = elim (Bool-cases s.read_only) [
    | inl e ↦ subst (Run w s log) (sym (skipped e)) (Run-refl w s log)
    | inr e ↦ subst (Run w s log) (sym (listened e)) (listen-Run health schedule log)
  ]
    where
      skipped : s.read_only ≡ true → (listen_for_notifications w s health schedule log).1 ≡ log
      skipped e = rw e refl

      listened :
          s.read_only ≡ false
          → (listen_for_notifications w s health schedule log).1
            ≡ (listen w s health schedule log).1
      listened e = rw e refl

  -- Over the whole run of a worker whose batches are processed one update after the other, whatever
  -- the signals and the answers of the other systems: a message is deleted only from the service's
  -- queue, with the receipt handle of an update that was read from a message received w s earlier in the
  -- run, and only when the last thing done was the ProcessMessage of that update, which has ended
  -- without an error.
  pub listen-Explained :
      (health : SystemHealth) (schedule : List (List Signal))
      → AllExplained w s [] (listen_for_notifications w s health schedule []).1
  listen-Explained health schedule =
      let (calls, run) = listen_for_notifications-Run health schedule [] in
      subst (AllExplained w s []) (sym (run.1 ∙ append-nil calls)) run.0
