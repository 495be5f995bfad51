-- ===== src/Main/System/Simulation.antt =====
-- The steps of the service with one worker, for the signals before a round of its loop and for a
-- batch (ListenForNotifications of concept/service.go).
use aggregate_concept_transf.Common.{
  ℕ, zero, suc, ◌+◌, ◌≤◌, List, [], ◌∷◌, ◌++◌, ap, length, none, ◌≡◌, refl, arith,
}
use aggregate_concept_transf.World.{SqsMessage, World}
use aggregate_concept_transf.Sqs.{ConceptUpdate}
use aggregate_concept_transf.Concept.Health.{
  SystemHealth, Signal, done, feedback, receive, process_channel,
}
use aggregate_concept_transf.Main.System.Batches.{Move_batches, run_batches}
use aggregate_concept_transf.Main.System.{
  MainPlace, serving, sending, waiting, closing, exited, WorkerPlace, polling, batch, System,
  after_receive, Move, update_done, batch_done, interrupt, send_done, send_feedback, write_health,
  work, start, Reach, next,
}

-- How often the shutdown is signalled.
abbrev pub dones : List Signal → ℕ
dones [] = 0
dones (feedback st ∷ signals) = dones signals
dones (done ∷ signals) = suc (dones signals)

abbrev pub all_dones : List (List Signal) → ℕ
all_dones [] = 0
all_dones (signals ∷ schedule) = dones signals + all_dones schedule

-- The shutdown may be signalled so often from here on: once where main still serves.
abbrev pub MayStop : MainPlace → ℕ → Type 0
MayStop serving n = n ≤ 1
MayStop sending n = ⊥
MayStop waiting n = n ≡ 0
MayStop closing n = ⊥
MayStop exited n = ⊥

abbrev after_signal : MainPlace → Signal → MainPlace
after_signal main (feedback st) = main
after_signal main done = waiting

abbrev pub after_signals : MainPlace → List Signal → MainPlace
after_signals main [] = main
after_signals main (signal ∷ signals) = after_signals (after_signal main signal) signals

-- The service with one worker and no signal under way.
abbrev pub state : MainPlace → SystemHealth → WorkerPlace → System
state main health p = record {
  main = main;
  channel = none;
  health = health;
  workers = p ∷ [];
  running = 1;
}

MayStop-signal :
    (main : MainPlace) (signal : Signal) (rest : ℕ)
    → MayStop main (dones (signal ∷ []) + rest)
    → MayStop (after_signal main signal) rest
MayStop-signal serving (feedback st) rest h = omega (arith, h)
MayStop-signal waiting (feedback st) rest h = omega (arith, h)
MayStop-signal sending signal rest h = absurd h
MayStop-signal closing signal rest h = absurd h
MayStop-signal exited signal rest h = absurd h
MayStop-signal serving done rest h = omega (arith, h)
MayStop-signal waiting done rest h = absurd (omega (arith, h))

dones-cons :
    (signal : Signal) (signals : List Signal)
    → dones (signal ∷ signals) ≡ dones (signal ∷ []) + dones signals
dones-cons (feedback st) signals = omega arith
dones-cons done signals = omega arith

zero_plus : (n : ℕ) → 0 + n ≡ n
zero_plus n = omega arith

plus_assoc : (a b c : ℕ) → a + b + c ≡ a + (b + c)
plus_assoc a b c = omega arith

module _ {R : Type 0} (w : World R) (most : ℕ) where
  -- A run from the start to the state that has received these batches.
  abbrev pub Run :
      MainPlace → SystemHealth → WorkerPlace → (received : List (List SqsMessage)) → Type 0
  Run main health p received =
      (r : Reach w most (start 1) (state main health p)) × (run_batches w most r ≡ received)

  pub moves :
      (main : MainPlace) (health : SystemHealth) (p p' : WorkerPlace)
      (received : List (List SqsMessage))
      → Run main health p received
      → (mv : Move w most health p p') → Run main health p' (Move_batches w most mv ++ received)
  moves main health p p' received (r, e) mv =
      (next r (work [] [] p p' refl mv refl), ap (λ b. Move_batches w most mv ++ b) e)

  signal-Run :
      (main : MainPlace) (health : SystemHealth) (signal : Signal) (rest : ℕ)
      (received : List (List SqsMessage))
      → MayStop main (dones (signal ∷ []) + rest)
      → Run main health polling received
      → Run (after_signal main signal) (receive health signal) polling received
  signal-Run main health (feedback st) rest received h (r, e) =
      (next (next r (send_feedback st refl refl)) (write_health (feedback st) refl refl), e)
  signal-Run serving health done rest received h (r, e) = (
    next (next (next r (interrupt refl refl)) (send_done refl refl refl))
        (write_health done refl refl),
    e,
  )
  signal-Run waiting health done rest received h r = absurd (omega (arith, h))
  signal-Run sending health done rest received h r = absurd h
  signal-Run closing health done rest received h r = absurd h
  signal-Run exited health done rest received h r = absurd h

  pub signals-Run :
      (main : MainPlace) (health : SystemHealth) (signals : List Signal) (rest : ℕ)
      (received : List (List SqsMessage))
      → MayStop main (dones signals + rest)
      → Run main health polling received
      → MayStop (after_signals main signals) rest
        × Run (after_signals main signals) (process_channel health signals) polling received
  unfolding process_channel
  signals-Run main health [] rest received h r = (rw (zero_plus rest) at h, r)
  signals-Run main health (signal ∷ signals) rest received h r =
      let k =
        rw (dones-cons signal signals, plus_assoc (dones (signal ∷ [])) (dones signals) rest) at
          h in
      signals-Run (after_signal main signal) (receive health signal) signals rest received
        (MayStop-signal main signal (dones signals + rest) k)
        (signal-Run main health signal (dones signals + rest) received k r)

  -- The updates of a batch come to an end one after the other.
  batch-Run :
      (main : MainPlace) (health : SystemHealth) (left : ℕ) (received : List (List SqsMessage))
      → Run main health (batch left) received
      → Run main health polling received
  batch-Run main health zero received r =
      moves main health (batch 0) polling received r (batch_done refl refl)
  batch-Run main health (suc left) received r =
      batch-Run main health left received
        (moves main health (batch (suc left)) (batch left) received r (update_done left refl refl))

  pub received-Run :
      (main : MainPlace) (health : SystemHealth) (updates : List ConceptUpdate)
      (received : List (List SqsMessage))
      → Run main health (after_receive updates) received
      → Run main health polling received
  received-Run main health [] received r = r
  received-Run main health (n ∷ updates) received r =
      batch-Run main health (length (n ∷ updates)) received r
