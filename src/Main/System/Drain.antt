-- ===== src/Main/System/Drain.antt =====
-- What the workers still take on once the shutdown is written (concept/service.go).
use aggregate_concept_transf.Common.{
  ℕ, ◌+◌, ◌≤◌, List, [], ◌∷◌, length, Bool, true, false, ◌≡◌, refl, arith,
}
use aggregate_concept_transf.World.{World}
use aggregate_concept_transf.Sqs.{ConceptUpdate}
use aggregate_concept_transf.Concept.Health.{SystemHealth, Signal, done, feedback, receive}
use aggregate_concept_transf.Main.System.{
  WorkerPlace, polling, checked, receiving, batch, returned, finished, System, after_good_test,
  after_receive, Move, test_shutdown, test_good, receive_batch, update_done, batch_done, Step,
  interrupt, send_done, send_feedback, write_health, wait_over, server_closed, work, call_done,
  Reach, here, next,
}
use aggregate_concept_transf.Main.System.Counts.{total, total-at}

-- A worker that may take one more batch before it sees a shutdown that is written.
abbrev pub may_receive : WorkerPlace → ℕ
may_receive checked = 1
may_receive receiving = 1
may_receive polling = 0
may_receive (batch left) = 0
may_receive returned = 0
may_receive finished = 0

pub receive-shutdown_true :
    (health : SystemHealth) (signal : Signal)
    → health.shutdown ≡ true
    → (receive health signal).shutdown ≡ true
unfolding receive
receive-shutdown_true health (feedback st) h = ground arith
receive-shutdown_true health done h = refl

may_receive-le : (workers : List WorkerPlace) → total may_receive workers ≤ length workers
may_receive-le [] = omega arith
may_receive-le (polling ∷ workers) = omega (arith, may_receive-le workers)
may_receive-le (checked ∷ workers) = omega (arith, may_receive-le workers)
may_receive-le (receiving ∷ workers) = omega (arith, may_receive-le workers)
may_receive-le (batch left ∷ workers) = omega (arith, may_receive-le workers)
may_receive-le (returned ∷ workers) = omega (arith, may_receive-le workers)
may_receive-le (finished ∷ workers) = omega (arith, may_receive-le workers)

module _ {R : Type 0} (w : World R) (most : ℕ) where
  -- The reads of the queue in a run.
  abbrev Move_reads : {health : SystemHealth} {p p' : WorkerPlace} → Move w most health p p' → ℕ
  Move_reads (receive_batch messages updates few read e e') = 1
  Move_reads (test_shutdown e e') = 0
  Move_reads (test_good e e') = 0
  Move_reads (update_done left e e') = 0
  Move_reads (batch_done e e') = 0

  abbrev Step_reads : {s t : System} → Step w most s t → ℕ
  Step_reads (work before after p p' at mv e) = Move_reads mv
  Step_reads (interrupt m e) = 0
  Step_reads (send_done m c e) = 0
  Step_reads (send_feedback st c e) = 0
  Step_reads (write_health signal c e) = 0
  Step_reads (wait_over m r e) = 0
  Step_reads (server_closed m e) = 0
  Step_reads (call_done before after at e) = 0

  abbrev pub queue_reads : {s t : System} → Reach w most s t → ℕ
  queue_reads here = 0
  queue_reads (next r st) = Step_reads st + queue_reads r

  Move-reads :
      {health : SystemHealth} {p p' : WorkerPlace} (mv : Move w most health p p')
      → health.shutdown ≡ true
      → Move_reads mv + may_receive p' ≤ may_receive p
  Move-reads (test_shutdown e e') h = rw (e, e', h) (omega arith)
  Move-reads {health} (test_good e e') h = rw (e, e') (by_test health.healthy)
    where
      by_test : (b : Bool) → 0 + may_receive (after_good_test b) ≤ 1
      by_test true = omega arith
      by_test false = omega arith
  Move-reads (receive_batch messages updates few read e e') h = rw (e, e') (by_updates updates)
    where
      by_updates : (updates : List ConceptUpdate) → 1 + may_receive (after_receive updates) ≤ 1
      by_updates [] = omega arith
      by_updates (n ∷ rest) = omega arith
  Move-reads (update_done left e e') h = rw (e, e') (omega arith)
  Move-reads (batch_done e e') h = rw (e, e') (omega arith)

  Step-reads :
      {s t : System} (st : Step w most s t)
      → s.health.shutdown ≡ true
      → (t.health.shutdown ≡ true)
        × (Step_reads st + total may_receive t.workers ≤ total may_receive s.workers)
  Step-reads (interrupt m e) h = rw e (h, omega arith)
  Step-reads (send_done m c e) h = rw e (h, omega arith)
  Step-reads (send_feedback b c e) h = rw e (h, omega arith)
  Step-reads {s} (write_health signal c e) h =
      rw e (receive-shutdown_true s.health signal h, omega arith)
  Step-reads (wait_over m r e) h = rw e (h, omega arith)
  Step-reads (server_closed m e) h = rw e (h, omega arith)
  Step-reads (work before after p p' at mv e) h = rw e (
    h,
    rw at (
        omega (
          arith,
          Move-reads mv h,
          total-at may_receive before after p,
          total-at may_receive before after p',
        )),
  )
  Step-reads (call_done before after at e) h = rw e (
    h,
    rw at (
        omega (
          arith,
          total-at may_receive before after returned,
          total-at may_receive before after finished,
        )),
  )

  Reach-reads :
      {s t : System} (r : Reach w most s t)
      → s.health.shutdown ≡ true
      → (t.health.shutdown ≡ true)
        × (queue_reads r + total may_receive t.workers ≤ total may_receive s.workers)
  Reach-reads here h = (h, omega arith)
  Reach-reads (next r st) h =
      let (h', few) = Reach-reads r h in let (h'', fewer) = Step-reads st h' in (h'', omega arith)

  -- Once the shutdown is written it stays written, and from then on there are at most as many reads
  -- of the queue as workers, however long the service goes on.
  pub queue_reads-le :
      {s t : System} (r : Reach w most s t)
      → s.health.shutdown ≡ true
      → (t.health.shutdown ≡ true) × (queue_reads r ≤ length s.workers)
  queue_reads-le {s} r h =
      let (h', few) = Reach-reads r h in (h', omega (arith, may_receive-le s.workers))
