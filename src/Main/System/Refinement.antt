-- ===== src/Main/System/Refinement.antt =====
-- The worker over a schedule (Concept/Listener) against the worker of the step model: each run of
-- ListenForNotifications of concept/service.go is a run of the whole service with one worker.
use aggregate_concept_transf.Common.{
  ℕ, ◌≤◌, List, [], ◌∷◌, length, Bool, true, false, ◌≡◌, refl, sym, ap, subst,
}
use aggregate_concept_transf.Effects.{ok, Log, M, >>=-ok, ok-injective}
use aggregate_concept_transf.World.{World}
use aggregate_concept_transf.Concept.Service.{AggregateService}
use aggregate_concept_transf.Concept.Health.{SystemHealth, Signal, initial_health, process_channel}
use aggregate_concept_transf.Concept.Listener.{
  Worker, stopped, running, serve, listen_round, listen,
}
use aggregate_concept_transf.Concept.Listener.Justified.{received}
use aggregate_concept_transf.Concept.Listener.Handled.{serve-Handled}
use aggregate_concept_transf.Concept.Listener.Batches.{batches, serve-batches}
use aggregate_concept_transf.Main.System.Batches.{run_batches}
use aggregate_concept_transf.Main.System.{
  MainPlace, serving, WorkerPlace, polling, checked, receiving, returned, System, start,
  after_receive, test_shutdown, test_good, receive_batch, Reach, here,
}
use aggregate_concept_transf.Main.System.Simulation.{
  all_dones, MayStop, after_signals, state, moves, Run, signals-Run, received-Run,
}

-- The place in the step model of a worker after its schedule.
abbrev pub place_of : Worker → WorkerPlace
place_of stopped = returned
place_of running = polling

module _ (R : Type 0) (w : World R) (svc : AggregateService) (most : ℕ) where
  -- The queue keeps to the number of messages that it is asked for.
  abbrev pub KeepsTo : Type 0
  KeepsTo = (log : Log) → length (received w svc log) ≤ most

  -- The step model comes to the place of the worker, and has received the same batches.
  abbrev pub Ends : Worker → (log : Log) → Type 0
  Ends r log =
      (t : System) × (run : Reach w most (start 1) t) × (t.workers ≡ place_of r ∷ [])
      × (run_batches w most run ≡ batches w log)

  module _ (keeps_to : KeepsTo) where
    -- A round that finds the service healthy.
    serve-Run :
        (main : MainPlace) (health : SystemHealth) (log : Log)
        → (serve w svc log).0 ≡ ok tt
        → Run w most main health receiving (batches w log)
        → Run w most main health polling (batches w (serve w svc log).1)
    serve-Run main health log h r =
        let (updates, read, _) = serve-Handled w svc log h in
        rw (serve-batches w svc log h) (
          received-Run w most main health updates (received w svc log ∷ batches w log) (
            moves w most main health receiving (after_receive updates) (batches w log) r
              (receive_batch (received w svc log) updates (keeps_to log) read refl refl)))

    round-Ends :
        (main : MainPlace) (now : SystemHealth) (shutdown healthy : Bool) (rest : M Worker)
        (log : Log) (r : Worker)
        → now.shutdown ≡ shutdown
        → now.healthy ≡ healthy
        → Run w most main now polling (batches w log)
        → (listen_round w svc shutdown healthy rest log).0 ≡ ok r
        → ((log' : Log)
            → (rest log').0 ≡ ok r
            → Run w most main now polling (batches w log')
            → Ends r (rest log').1)
        → Ends r (listen_round w svc shutdown healthy rest log).1
    unfolding listen_round
    round-Ends main now true healthy rest log r e g polled h k =
        let (run, same) =
          moves w most main now polling returned (batches w log) polled
            (test_shutdown refl (rw e refl)) in
        (state main now returned, run, ap (λ p. place_of p ∷ []) (ok-injective h), same)
    round-Ends main now false false rest log r e g polled h k =
        let passed =
          moves w most main now polling checked (batches w log) polled
            (test_shutdown refl (rw e refl)) in
        k log h (
          moves w most main now checked polling (batches w log) passed (test_good refl (rw g refl)))
    round-Ends main now false true rest log r e g polled h k =
        let passed =
          moves w most main now polling checked (batches w log) polled
            (test_shutdown refl (rw e refl)) in
        let good =
          moves w most main now checked receiving (batches w log) passed
            (test_good refl (rw g refl)) in
        let (_, served, more, run) = >>=-ok (serve w svc) (λ _. rest) log h in
        subst (Ends r) (sym (ap (λ o. o.1) run))
          (k (serve w svc log).1 more (serve-Run main now log served good))

    listen-from :
        (main : MainPlace) (health : SystemHealth) (schedule : List (List Signal)) (log : Log)
        (r : Worker)
        → MayStop main (all_dones schedule)
        → Run w most main health polling (batches w log)
        → (listen w svc health schedule log).0 ≡ ok r
        → Ends r (listen w svc health schedule log).1
    unfolding listen
    listen-from main health [] log r may (run, same) h =
        (state main health polling, run, ap (λ p. place_of p ∷ []) (ok-injective h), same)
    listen-from main health (signals ∷ schedule) log r may reached h =
        let (may', polled) =
          signals-Run w most main health signals (all_dones schedule) (batches w log) may reached in
        let now = process_channel health signals in
        let main' = after_signals main signals in
        round-Ends main' now now.shutdown now.healthy (listen w svc now schedule) log r refl refl
          polled h (λ log' h' polled'. listen-from main' now schedule log' r may' polled' h')

  -- Where the queue gives at most `most` messages at a time and the shutdown is signalled at most
  -- once: to each run of ListenForNotifications over a schedule of signals, from the start and
  -- without a panic, there is a run of the step model of the service with one worker that reads the
  -- same batches of messages from the queue, in the same order, and brings this worker to its return
  -- where the run has returned, and back to the head of its loop where the run is still going.
  pub listen-Ends :
      (schedule : List (List Signal)) (r : Worker)
      → KeepsTo
      → all_dones schedule ≤ 1
      → (listen w svc initial_health schedule []).0 ≡ ok r
      → Ends r (listen w svc initial_health schedule []).1
  listen-Ends schedule r keeps_to once h =
      listen-from keeps_to serving initial_health schedule [] r once (here, refl) h
