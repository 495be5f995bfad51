-- ===== src/Examples/System.antt =====
-- The theorems on the service as a whole, in a run of one worker at the small world.
use aggregate_concept_transf.Common.{
  [], ◌∷◌, ◌+◌, ◌*◌, ◌≤◌, ◌≡◌, refl, true, false, none, some, arith, length,
}
use aggregate_concept_transf.Text.{codes, replace_byte}
use aggregate_concept_transf.Text.Regex.{match_here, accepts, is_hex, find_from, find_all}
use aggregate_concept_transf.Effects.{ok}
use aggregate_concept_transf.World.{SqsMessage}
use aggregate_concept_transf.Sqs.{ConceptUpdate, get_notifications_from_messages}
use aggregate_concept_transf.Concept.Health.{feedback, done, receive, initial_health}
use aggregate_concept_transf.Main.System.{
  serving, waiting, polling, checked, receiving, batch, System, start, test_shutdown, test_good,
  receive_batch, send_feedback, write_health, interrupt, send_done, work, Reach, here, next,
}
use aggregate_concept_transf.Main.System.Counts.{total}
use aggregate_concept_transf.Main.System.Invariant.{Inv, Reach-Inv}
use aggregate_concept_transf.Main.System.Progress.{CanExit, Reach-CanExit}
use aggregate_concept_transf.Main.System.Bounds.{load, Reach-load-le}
use aggregate_concept_transf.Main.System.Termination.{worker_steps, worker_steps-le}
use aggregate_concept_transf.Main.System.Drain.{queue_reads, queue_reads-le}
use aggregate_concept_transf.Examples.{uuid_a, world}

abbrev message : SqsMessage
message = record {
  receipt_handle = none;
  body = some (codes "28090964/9997/4bc2/9638/7a11135aaff9");
}

abbrev update : ConceptUpdate
update = record { uuid = uuid_a; bookmark = []; receipt_handle = none }

read : get_notifications_from_messages world (message ∷ []) ≡ ok (update ∷ [])
unfolding get_notifications_from_messages find_all find_from match_here accepts is_hex replace_byte
read = refl

-- The worker has one update in hand, and the service is healthy.
abbrev busy : System
busy = record {
  main = serving;
  channel = none;
  health = record { healthy = true; shutdown = false };
  workers = batch 1 ∷ [];
  running = 1;
}

-- A feedback makes the service healthy, and the worker reads the queue.
run : Reach world 10 (start 1) busy
unfolding receive initial_health
run =
    next
      (next
        (next
          (next (next here (send_feedback true refl refl)) (write_health (feedback true) refl refl))
          (work [] [] polling checked refl (test_shutdown refl refl) refl))
        (work [] [] checked receiving refl (test_good refl refl) refl))
      (work [] [] receiving (batch 1) refl
        (receive_batch (message ∷ []) (update ∷ []) (omega arith) read refl refl) refl)

Reach-Inv_example : Inv 1 busy
Reach-Inv_example = Reach-Inv world 10 run

Reach-CanExit_example : CanExit world 10 busy
Reach-CanExit_example = Reach-CanExit world 10 1 busy run

Reach-load-le_example : total load (batch 1 ∷ []) ≤ 1 * 10
Reach-load-le_example = Reach-load-le world 10 run

-- The shutdown is written while the worker is behind its test of it.
abbrev late : System
late = record {
  main = waiting;
  channel = none;
  health = record { healthy = true; shutdown = true };
  workers = checked ∷ [];
  running = 1;
}

abbrev later : System
later = record late { workers = batch 1 ∷ [] }

-- It reads the queue once more.
last_batch : Reach world 10 late later
last_batch = next (next here (work [] [] checked receiving refl (test_good refl refl) refl)) (
    work [] [] receiving (batch 1) refl
      (receive_batch (message ∷ []) (update ∷ []) (omega arith) read refl refl) refl)

queue_reads-le_example :
    (later.health.shutdown ≡ true) × (queue_reads world 10 last_batch ≤ length late.workers)
queue_reads-le_example = queue_reads-le world 10 last_batch refl

-- How the worker comes to be there.
run_late : Reach world 10 (start 1) late
unfolding receive initial_health
run_late =
    next
      (next
        (next
          (next
            (next (next here (send_feedback true refl refl))
              (write_health (feedback true) refl refl))
            (work [] [] polling checked refl (test_shutdown refl refl) refl))
          (interrupt refl refl))
        (send_done refl refl refl))
      (write_health done refl refl)

worker_steps-le_example : worker_steps world 10 last_batch ≤ 1 * (10 + 5)
worker_steps-le_example = worker_steps-le world 10 run_late refl last_batch
