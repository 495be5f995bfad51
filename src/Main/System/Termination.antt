-- ===== src/Main/System/Termination.antt =====
-- The workers come to an end once the shutdown is written (concept/service.go).
use aggregate_concept_transf.Common.{
  ℕ, ◌+◌, ◌*◌, ◌≤◌, List, [], ◌∷◌, length, Bool, true, false, All, ◌≡◌, arith,
}
use aggregate_concept_transf.World.{World}
use aggregate_concept_transf.Sqs.{ConceptUpdate}
use aggregate_concept_transf.Concept.Health.{SystemHealth}
use aggregate_concept_transf.Main.System.{
  WorkerPlace, polling, checked, receiving, batch, returned, finished, System, start,
  after_good_test, after_receive, Move, test_shutdown, test_good, receive_batch, update_done,
  batch_done, Step, interrupt, send_done, send_feedback, write_health, wait_over, server_closed,
  work, call_done, Reach, here, next,
}
use aggregate_concept_transf.Main.System.Counts.{total, total-at}
use aggregate_concept_transf.Main.System.Invariant.{Reach-Inv}
use aggregate_concept_transf.Main.System.Bounds.{
  load, length-get_notifications, Reach-load, total-le,
}
use aggregate_concept_transf.Main.System.Drain.{receive-shutdown_true}

-- The most steps that a worker has before it once the shutdown is written.
abbrev steps_left : (most : ℕ) → WorkerPlace → ℕ
steps_left most finished = 0
steps_left most returned = 1
steps_left most polling = 2
steps_left most (batch left) = left + 3
steps_left most receiving = most + 4
steps_left most checked = most + 5

module _ {R : Type 0} (w : World R) (most : ℕ) where
  abbrev Step_work : {s t : System} → Step w most s t → ℕ
  Step_work (work before after p p' at mv e) = 1
  Step_work (call_done before after at e) = 1
  Step_work (interrupt m e) = 0
  Step_work (send_done m c e) = 0
  Step_work (send_feedback st c e) = 0
  Step_work (write_health signal c e) = 0
  Step_work (wait_over m r e) = 0
  Step_work (server_closed m e) = 0

  -- The steps of the workers in a run.
  abbrev pub worker_steps : {s t : System} → Reach w most s t → ℕ
  worker_steps here = 0
  worker_steps (next r st) = Step_work st + worker_steps r

  after_receive-steps_left :
      (updates : List ConceptUpdate)
      → length updates ≤ most
      → 1 + steps_left most (after_receive updates) ≤ most + 4
  after_receive-steps_left [] h = omega arith
  after_receive-steps_left (n ∷ updates) h = omega arith

  after_good_test-steps_left :
      (healthy : Bool) → 1 + steps_left most (after_good_test healthy) ≤ most + 5
  after_good_test-steps_left true = omega arith
  after_good_test-steps_left false = omega arith

  Move-steps_left :
      {health : SystemHealth} {p p' : WorkerPlace}
      → Move w most health p p'
      → health.shutdown ≡ true
      → 1 + steps_left most p' ≤ steps_left most p
  Move-steps_left (test_shutdown e e') h = rw (e, e', h) (omega arith)
  Move-steps_left {health} (test_good e e') h =
      rw (e, e') (after_good_test-steps_left health.healthy)
  Move-steps_left (receive_batch messages updates few read e e') h =
      rw (e, e')
        (after_receive-steps_left updates
          (omega (arith, length-get_notifications w messages updates read)))
  Move-steps_left (update_done left e e') h = rw (e, e') (omega arith)
  Move-steps_left (batch_done e e') h = rw (e, e') (omega arith)

  Step-steps_left :
      {s t : System} (st : Step w most s t)
      → s.health.shutdown ≡ true
      → (t.health.shutdown ≡ true)
        × (Step_work st + total (steps_left most) t.workers ≤ total (steps_left most) s.workers)
  Step-steps_left (interrupt m e) h = rw e (h, omega arith)
  Step-steps_left (send_done m c e) h = rw e (h, omega arith)
  Step-steps_left (send_feedback b c e) h = rw e (h, omega arith)
  Step-steps_left {s} (write_health signal c e) h =
      rw e (receive-shutdown_true s.health signal h, omega arith)
  Step-steps_left (wait_over m r e) h = rw e (h, omega arith)
  Step-steps_left (server_closed m e) h = rw e (h, omega arith)
  Step-steps_left (work before after p p' at mv e) h = rw e (
    h,
    rw at (
        omega (
          arith,
          Move-steps_left mv h,
          total-at (steps_left most) before after p,
          total-at (steps_left most) before after p',
        )),
  )
  Step-steps_left (call_done before after at e) h = rw e (
    h,
    rw at (
        omega (
          arith,
          total-at (steps_left most) before after returned,
          total-at (steps_left most) before after finished,
        )),
  )

  Reach-steps_left :
      {s t : System} (r : Reach w most s t)
      → s.health.shutdown ≡ true
      → (t.health.shutdown ≡ true)
        × (worker_steps r + total (steps_left most) t.workers ≤ total (steps_left most) s.workers)
  Reach-steps_left here h = (h, omega arith)
  Reach-steps_left (next r st) h =
      let (h', few) = Reach-steps_left r h in
      let (h'', fewer) = Step-steps_left st h' in (h'', omega arith)

  steps_left-le : (p : WorkerPlace) → load p ≤ most → steps_left most p ≤ most + 5
  steps_left-le finished h = omega arith
  steps_left-le returned h = omega arith
  steps_left-le polling h = omega arith
  steps_left-le (batch left) h = omega arith
  steps_left-le receiving h = omega arith
  steps_left-le checked h = omega arith

  All-steps_left :
      (workers : List WorkerPlace)
      → All (λ p. load p ≤ most) workers
      → All (λ p. steps_left most p ≤ most + 5) workers
  All-steps_left [] h = tt
  All-steps_left (p ∷ workers) (h, hs) = (steps_left-le p h, All-steps_left workers hs)

  -- From the time when the shutdown is written, the workers together make at most as many steps as
  -- the number of workers times five more than the number of messages of a read, in whatever order
  -- they and main are run and however often the health changes: none goes round its loop for ever.
  pub worker_steps-le :
      {n : ℕ} {s t : System}
      → Reach w most (start n) s
      → s.health.shutdown ≡ true
      → (r : Reach w most s t) → worker_steps r ≤ n * (most + 5)
  worker_steps-le {n} {s} from h r =
      let (_, few) = Reach-steps_left r h in
      let bound : total (steps_left most) s.workers ≤ n * (most + 5) =
        rw (← (Reach-Inv w most from).size) (
          total-le (steps_left most) (most + 5) s.workers
            (All-steps_left s.workers (Reach-load w most from))) in
      omega arith
