-- ===== src/Main/System.antt =====
-- The service as a whole: the goroutine of main from its wait for a signal to the end (main.go),
-- the goroutine processChannel and the workers (concept/service.go), step by step, in any order.
-- A worker is at one place of the loop of ListenForNotifications; what a batch does to other
-- systems is the subject of Concept/Listener. A panic ends the process and has no step here.
pub mod Counts
pub mod Invariant
pub mod Progress
pub mod Bounds
pub mod Drain
pub mod Termination
pub mod Batches
pub mod Simulation
pub mod Refinement
use aggregate_concept_transf.Common.{
  ℕ, zero, suc, ◌-◌, ◌≤◌, List, [], ◌∷◌, ◌++◌, length, Bool, true, false, Option, none, some, ◌≡◌,
}
use aggregate_concept_transf.Effects.{ok}
use aggregate_concept_transf.World.{SqsMessage, World}
use aggregate_concept_transf.Sqs.{ConceptUpdate, get_notifications_from_messages}
use aggregate_concept_transf.Concept.Health.{
  SystemHealth, Signal, done, feedback, initial_health, receive, is_good, is_shutting_down,
}

-- Where main is: in its wait for SIGINT or SIGTERM, at the send on `done`, in the wait for the
-- workers, in the shutdown of the HTTP server, or at its end.
pub data MainPlace : Type 0 where
  serving sending waiting closing exited : MainPlace

-- Where a worker is: at the head of its loop, behind the test of isShuttingDown, behind that of
-- isGood, in the wait for a batch of which some updates are left, behind its return, or behind its
-- call of Done.
pub data WorkerPlace : Type 0 where
  polling checked receiving : WorkerPlace
  batch : (left : ℕ) → WorkerPlace
  returned finished : WorkerPlace

-- `channel` is the signal that processChannel has received and not yet written to the health;
-- `running` is the counter of listenForNotificationsWG.
pub record System : Type 0 where
  pub main : MainPlace
  pub channel : Option Signal
  pub health : SystemHealth
  pub workers : List WorkerPlace
  pub running : ℕ

abbrev after_shutdown_test : Bool → WorkerPlace
after_shutdown_test true = returned
after_shutdown_test false = checked

abbrev after_good_test : Bool → WorkerPlace
after_good_test true = receiving
after_good_test false = polling

-- if nslen <= 0 { continue }
abbrev after_receive : List ConceptUpdate → WorkerPlace
after_receive [] = polling
after_receive (n ∷ updates) = batch (length (n ∷ updates))

abbrev replicate : ℕ → WorkerPlace → List WorkerPlace
replicate zero p = []
replicate (suc n) p = p ∷ replicate n p

-- The state when main waits for a signal: Add has counted the workers.
abbrev pub start : (max_workers : ℕ) → System
start max_workers = record {
  main = serving;
  channel = none;
  health = initial_health;
  workers = replicate max_workers polling;
  running = max_workers;
}

module _ {R : Type 0} (w : World R) (messages_to_process : ℕ) where
  -- A step of a worker by itself. The queue gives at most `messages_to_process` messages.
  pub data Move (health : SystemHealth) (p p' : WorkerPlace) : Type 0 where
    test_shutdown :
        p ≡ polling → p' ≡ after_shutdown_test (is_shutting_down health) → Move health p p'
    test_good : p ≡ checked → p' ≡ after_good_test (is_good health) → Move health p p'
    receive_batch :
        (messages : List SqsMessage) (updates : List ConceptUpdate)
        → length messages ≤ messages_to_process
        → get_notifications_from_messages w messages ≡ ok updates
        → p ≡ receiving
        → p' ≡ after_receive updates
        → Move health p p'
    update_done : (left : ℕ) → p ≡ batch (suc left) → p' ≡ batch left → Move health p p'
    batch_done : p ≡ batch 0 → p' ≡ polling → Move health p p'

  -- A step of the whole: main, processChannel, the sender of a feedback, or a worker.
  pub data Step (s t : System) : Type 0 where
    interrupt : s.main ≡ serving → t ≡ record s { main = sending } → Step s t
    send_done :
        s.main ≡ sending
        → s.channel ≡ none
        → t ≡ record s { main = waiting; channel = some done }
        → Step s t
    send_feedback :
        (st : Bool) → s.channel ≡ none → t ≡ record s { channel = some (feedback st) } → Step s t
    write_health :
        (signal : Signal)
        → s.channel ≡ some signal
        → t ≡ record s { channel = none; health = receive s.health signal }
        → Step s t
    wait_over : s.main ≡ waiting → s.running ≡ 0 → t ≡ record s { main = closing } → Step s t
    server_closed : s.main ≡ closing → t ≡ record s { main = exited } → Step s t
    work :
        (before after : List WorkerPlace) (p p' : WorkerPlace)
        → s.workers ≡ before ++ p ∷ after
        → Move s.health p p'
        → t ≡ record s { workers = before ++ p' ∷ after }
        → Step s t
    call_done :
        (before after : List WorkerPlace)
        → s.workers ≡ before ++ returned ∷ after
        → t ≡ record s { workers = before ++ finished ∷ after; running = s.running - 1 }
        → Step s t

  -- The states that can come up after `s`.
  pub data Reach (s : System) : System → Type 0 where
    here : Reach s s
    next : {t u : System} → Reach s t → Step t u → Reach s u
