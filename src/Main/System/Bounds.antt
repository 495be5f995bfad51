-- ===== src/Main/System/Bounds.antt =====
-- How many updates the workers have in hand at a time (main.go, concept/service.go, sqs/client.go).
-- An update is in hand until its processConceptUpdate has returned; the goroutine of one whose
-- deadline has passed is not counted any more.
use aggregate_concept_transf.Common.{
  ℕ, zero, suc, ◌*◌, ◌≤◌, List, [], ◌∷◌, ◌++◌, length, Bool, true, false, Option, none, some, ◌≡◌,
  ap, arith, All,
}
use aggregate_concept_transf.Effects.{ok, bind-ok, ok-injective}
use aggregate_concept_transf.World.{SqsMessage, World}
use aggregate_concept_transf.Sqs.{
  ConceptUpdate, push_some, notification_of, get_notifications_from_messages,
}
use aggregate_concept_transf.Concept.Health.{SystemHealth}
use aggregate_concept_transf.Main.System.{
  WorkerPlace, polling, checked, receiving, batch, returned, finished, System, start, replicate,
  after_shutdown_test, after_good_test, after_receive, Move, test_shutdown, test_good,
  receive_batch, update_done, batch_done, Step, interrupt, send_done, send_feedback, write_health,
  wait_over, server_closed, work, call_done, Reach, here, next,
}
use aggregate_concept_transf.Main.System.Counts.{total}
use aggregate_concept_transf.Main.System.Invariant.{Reach-Inv}

-- The updates that a worker has in hand.
abbrev pub load : WorkerPlace → ℕ
load (batch left) = left
load polling = 0
load checked = 0
load receiving = 0
load returned = 0
load finished = 0

length-push_some :
    (n : Option ConceptUpdate) (rest : List ConceptUpdate)
    → length (push_some n rest) ≤ suc (length rest)
length-push_some none rest = omega arith
length-push_some (some n) rest = omega arith

pub total-le :
    (weight : WorkerPlace → ℕ) (k : ℕ) (workers : List WorkerPlace)
    → All (λ p. weight p ≤ k) workers
    → total weight workers ≤ length workers * k
total-le weight k [] h = omega arith
total-le weight k (p ∷ workers) (h, hs) = grind (arith, total-le weight k workers hs)

All-at :
    (k : ℕ) (before after : List WorkerPlace) (p p' : WorkerPlace)
    → (load p ≤ k → load p' ≤ k)
    → All (λ q. load q ≤ k) (before ++ p ∷ after)
    → All (λ q. load q ≤ k) (before ++ p' ∷ after)
All-at k [] after p p' f (h, hs) = (f h, hs)
All-at k (q ∷ before) after p p' f (h, hs) = (h, All-at k before after p p' f hs)

All-replicate : (k n : ℕ) → All (λ p. load p ≤ k) (replicate n polling)
All-replicate k zero = tt
All-replicate k (suc n) = (omega arith, All-replicate k n)

module _ {R : Type 0} (w : World R) where
  -- A message gives at most one update.
  pub length-get_notifications :
      (messages : List SqsMessage) (updates : List ConceptUpdate)
      → get_notifications_from_messages w messages ≡ ok updates
      → length updates ≤ length messages
  unfolding get_notifications_from_messages
  length-get_notifications [] updates h =
      omega (arith, ap (λ (l : List ConceptUpdate). length l) (ok-injective h))
  length-get_notifications (message ∷ messages) updates h =
      let (n, _, h2) = bind-ok (notification_of w message) _ h in
      let (rest, h3, h4) = bind-ok (get_notifications_from_messages w messages) _ h2 in
      omega (
        arith,
        ap (λ (l : List ConceptUpdate). length l) (ok-injective h4),
        length-push_some n rest,
        length-get_notifications messages rest h3,
      )

  module _ (most : ℕ) where
    pub load-after_receive :
        (updates : List ConceptUpdate) → load (after_receive updates) ≤ length updates
    load-after_receive [] = omega arith
    load-after_receive (n ∷ updates) = omega arith

    Move-load :
        {health : SystemHealth} {p p' : WorkerPlace}
        → Move w most health p p'
        → load p ≤ most
        → load p' ≤ most
    Move-load {health} (test_shutdown e e') h = rw e' (by_test health.shutdown)
      where
        by_test : (b : Bool) → load (after_shutdown_test b) ≤ most
        by_test true = omega arith
        by_test false = omega arith
    Move-load {health} (test_good e e') h = rw e' (by_test health.healthy)
      where
        by_test : (b : Bool) → load (after_good_test b) ≤ most
        by_test true = omega arith
        by_test false = omega arith
    Move-load (receive_batch messages updates few read e e') h =
        rw e' (
          omega (arith, load-after_receive updates, length-get_notifications messages updates read))
    Move-load (update_done left e e') h = ground arith
    Move-load (batch_done e e') h = ground arith

    Step-load :
        {s t : System}
        → Step w most s t
        → All (λ p. load p ≤ most) s.workers
        → All (λ p. load p ≤ most) t.workers
    Step-load (interrupt m e) h = rw e h
    Step-load (send_done m c e) h = rw e h
    Step-load (send_feedback st c e) h = rw e h
    Step-load (write_health signal c e) h = rw e h
    Step-load (wait_over m r e) h = rw e h
    Step-load (server_closed m e) h = rw e h
    Step-load (work before after p p' at mv e) h =
        rw e (All-at most before after p p' (Move-load mv) (rw at at h))
    Step-load (call_done before after at e) h =
        rw e (All-at most before after returned finished (λ k. omega arith) (rw at at h))

    pub Reach-load :
        {n : ℕ} {s : System} → Reach w most (start n) s → All (λ p. load p ≤ most) s.workers
    Reach-load {n} here = All-replicate most n
    Reach-load (next r st) = Step-load st (Reach-load r)

    -- At no time do the workers have more updates in hand than the number of workers times the
    -- number of messages that a read of the queue may give.
    pub Reach-load-le :
        {n : ℕ} {s : System} → Reach w most (start n) s → total load s.workers ≤ n * most
    Reach-load-le {n} {s} r =
        rw (← (Reach-Inv w most r).size) (total-le load most s.workers (Reach-load r))
