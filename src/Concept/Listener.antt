-- ===== src/Concept/Listener.antt =====
-- processConceptUpdate and ListenForNotifications of concept/service.go: the workers that take
-- updates from the queue.
-- A worker is run over a schedule: for each round of its loop, the signals that processChannel
-- receives before the round reads the health. The context of the loop is cancelled only when the
-- function returns, so its case is never taken. The goroutines of a batch are run one after the
-- other, in the order of the notifications.
pub mod Removal
pub mod Deletes
pub mod Interleaving
pub mod Batch
pub mod Shutdown
pub mod Justified
pub mod Explained
pub mod Batches
pub mod Oversized
pub mod Handled
use aggregate_concept_transf.Common.{List, [], ◌∷◌, ◌++◌, Bool, true, false}
use aggregate_concept_transf.Text.{Str, codes}
use aggregate_concept_transf.Effects.{Res, ok, err, panic, M, ◌>>=◌, ◌>>◌, return}
use aggregate_concept_transf.World.{World}
use aggregate_concept_transf.Sqs.{ConceptUpdate, listen_and_serve_queue, remove_message_from_queue}
use aggregate_concept_transf.Concept.Service.{AggregateService, with_deadline}
use aggregate_concept_transf.Concept.Process.{process_message, ignore}
use aggregate_concept_transf.Concept.Health.{
  SystemHealth, Signal, process_channel, is_good, is_shutting_down,
}

abbrev wrapped : Str → Res (Unit {0}) → Res (Unit {0})
wrapped prefix (ok a) = ok a
wrapped prefix (err e) = err (prefix ++ e)
wrapped prefix panic = panic

-- fmt.Errorf(prefix + "%w", err)
abbrev wrap_error : Str → M (Unit {0}) → M (Unit {0})
wrap_error prefix m log = (wrapped prefix (m log).0, (m log).1)

-- Whether a worker has returned or goes on when its schedule ends.
pub data Worker : Type 0 where
  stopped running : Worker

module _ {R : Type 0} (w : World R) (s : AggregateService) where
  -- the goroutine of processConceptUpdate; the deletion is given the context with the timeout
  unfoldable pub process_and_remove : ConceptUpdate → M (Unit {0})
  process_and_remove n = do
    process_message w s n.uuid n.bookmark
    wrap_error (codes "error removing message from SQS: ") (λ log.
        remove_message_from_queue w s.concept_updates_sqs (w.expired log) n.receipt_handle log)

  unfoldable pub process_concept_update : ConceptUpdate → M (Unit {0})
  process_concept_update n = with_deadline w (process_and_remove n)

  -- the goroutines of a batch; their errors are logged only
  unfoldable pub process_notifications : List ConceptUpdate → M (Unit {0})
  process_notifications [] = return tt
  process_notifications (n ∷ notifications) = do
    ignore (process_concept_update n)
    process_notifications notifications

  -- a round that finds the service healthy
  unfoldable pub serve : M (Unit {0})
  serve = do
    notifications ← listen_and_serve_queue w s.concept_updates_sqs
    process_notifications notifications

  -- a round of the loop, by what it finds of the health, and the rounds after it
  unfoldable pub listen_round : (shutdown healthy : Bool) → (rest : M Worker) → M Worker
  listen_round true healthy rest = return stopped
  listen_round false false rest = rest
  listen_round false true rest = do serve; rest

  unfoldable pub listen : SystemHealth → List (List Signal) → M Worker
  unfolding listen_round
  listen health [] = return running
  listen health (signals ∷ schedule) =
      let now = process_channel health signals in
      listen_round (is_shutting_down now) (is_good now) (listen now schedule)

  -- (*AggregateService).ListenForNotifications
  unfoldable pub listen_for_notifications : SystemHealth → List (List Signal) → M Worker
  unfolding listen
  listen_for_notifications health schedule = elim s.read_only [
    | true ↦ return stopped
    | false ↦ listen health schedule
  ]
