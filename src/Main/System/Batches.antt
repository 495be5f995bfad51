-- ===== src/Main/System/Batches.antt =====
-- The batches of messages that the workers of the step model receive (concept/service.go).
use aggregate_concept_transf.Common.{ℕ, List, [], ◌∷◌, ◌++◌}
use aggregate_concept_transf.World.{SqsMessage, World}
use aggregate_concept_transf.Concept.Health.{SystemHealth}
use aggregate_concept_transf.Main.System.{
  WorkerPlace, System, Move, test_shutdown, test_good, receive_batch, update_done, batch_done, Step,
  interrupt, send_done, send_feedback, write_health, wait_over, server_closed, work, call_done,
  Reach, here, next,
}

module _ {R : Type 0} (w : World R) (most : ℕ) where
  abbrev pub Move_batches :
      {health : SystemHealth} {p p' : WorkerPlace}
      → Move w most health p p'
      → List (List SqsMessage)
  Move_batches (receive_batch messages updates few read e e') = messages ∷ []
  Move_batches (test_shutdown e e') = []
  Move_batches (test_good e e') = []
  Move_batches (update_done left e e') = []
  Move_batches (batch_done e e') = []

  abbrev Step_batches : {s t : System} → Step w most s t → List (List SqsMessage)
  Step_batches (work before after p p' at mv e) = Move_batches mv
  Step_batches (interrupt m e) = []
  Step_batches (send_done m c e) = []
  Step_batches (send_feedback st c e) = []
  Step_batches (write_health signal c e) = []
  Step_batches (wait_over m r e) = []
  Step_batches (server_closed m e) = []
  Step_batches (call_done before after at e) = []

  -- The messages of each read of the queue in a run, the latest read first.
  abbrev pub run_batches : {s t : System} → Reach w most s t → List (List SqsMessage)
  run_batches here = []
  run_batches (next r st) = Step_batches st ++ run_batches r
