-- ===== src/Concept/Listener/Batches.antt =====
-- The batches of messages that a worker receives (ListenForNotifications of concept/service.go).
use aggregate_concept_transf.Common.{List, [], ◌∷◌, ◌++◌, All, ◌≡◌, refl, ap, ◌∙◌, inl, inr}
use aggregate_concept_transf.Effects.{ok, Call, Log, >>=-ok}
use aggregate_concept_transf.World.{SqsMessage, World}
use aggregate_concept_transf.Sqs.{ConceptUpdate, listen_and_serve_queue}
use aggregate_concept_transf.Concept.Service.{AggregateService}
use aggregate_concept_transf.Concept.Process.{ignore}
use aggregate_concept_transf.Concept.Listener.{process_concept_update, process_notifications, serve}
use aggregate_concept_transf.Concept.Listener.Deletes.{IsOffQueue, process_message-IsOffQueue}
use aggregate_concept_transf.Concept.Listener.Removal.{process_concept_update-ends}
use aggregate_concept_transf.Concept.Listener.Justified.{received}

module _ {R : Type 0} (w : World R) where
  -- What a call has received, if it is a read of the queue.
  abbrev batch_of : Call → Log → List (List SqsMessage)
  batch_of (Call.http req) log = []
  batch_of (Call.s3_get bucket key) log = []
  batch_of (Call.s3_head bucket key) log = []
  batch_of (Call.s3_head_bucket bucket) log = []
  batch_of (Call.sqs_receive url max_number) log = w.sqs_receive_message log url max_number ∷ []
  batch_of (Call.sqs_delete url handle) log = []
  batch_of (Call.sqs_attributes url) log = []
  batch_of (Call.sns_publish_batch topic entries) log = []
  batch_of (Call.kinesis_put stream key bytes) log = []
  batch_of (Call.kinesis_describe stream) log = []

  -- The messages of each read of the queue in a log, the latest read first.
  abbrev pub batches : Log → List (List SqsMessage)
  batches [] = []
  batches (call ∷ log) = batch_of call log ++ batches log

  off_queue : (call : Call) (log : Log) → IsOffQueue call → batch_of call log ≡ []
  off_queue (Call.http req) log h = refl
  off_queue (Call.s3_get bucket key) log h = refl
  off_queue (Call.s3_head bucket key) log h = refl
  off_queue (Call.s3_head_bucket bucket) log h = refl
  off_queue (Call.sqs_receive url max_number) log h = absurd h
  off_queue (Call.sqs_delete url handle) log h = refl
  off_queue (Call.sqs_attributes url) log h = refl
  off_queue (Call.sns_publish_batch topic entries) log h = refl
  off_queue (Call.kinesis_put stream key bytes) log h = refl
  off_queue (Call.kinesis_describe stream) log h = refl

  batches-off_queue :
      (calls log : Log) → All IsOffQueue calls → batches (calls ++ log) ≡ batches log
  batches-off_queue [] log h = refl
  batches-off_queue (call ∷ calls) log (h, hs) =
      rw (off_queue call (calls ++ log) h) (batches-off_queue calls log hs)

  module _ (s : AggregateService) where
    update-batches :
        (n : ConceptUpdate) (log : Log) → batches (process_concept_update w s n log).1 ≡ batches log
    update-batches n log =
        let (calls, h, e) = process_message-IsOffQueue w s n.uuid n.bookmark log in
        let quiet = ap batches e ∙ batches-off_queue calls log h in
        elim (process_concept_update-ends w s n log) [
          | inl (_, last) ↦ ap batches last ∙ quiet
          | inr (last, _) ↦ ap batches last ∙ quiet
        ]

    notifications-batches :
        (notifications : List ConceptUpdate) (log : Log)
        → (process_notifications w s notifications log).0 ≡ ok tt
        → batches (process_notifications w s notifications log).1 ≡ batches log
    unfolding process_notifications
    notifications-batches [] log h = refl
    notifications-batches (n ∷ notifications) log h =
        let (_, _, k, run) =
          >>=-ok (ignore (process_concept_update w s n))
            (λ _. process_notifications w s notifications) log h in
        ap (λ r. batches r.1) run
        ∙ notifications-batches notifications (process_concept_update w s n log).1 k
        ∙ update-batches n log

    -- A round that finds the service healthy receives one batch.
    pub serve-batches :
        (log : Log)
        → (serve w s log).0 ≡ ok tt
        → batches (serve w s log).1 ≡ received w s log ∷ batches log
    unfolding serve listen_and_serve_queue
    serve-batches log h =
        let (updates, _, k, run) =
          >>=-ok (listen_and_serve_queue w s.concept_updates_sqs) (process_notifications w s) log
            h in
        ap (λ r. batches r.1) run ∙ notifications-batches updates _ k
