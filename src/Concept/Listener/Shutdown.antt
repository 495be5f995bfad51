-- ===== src/Concept/Listener/Shutdown.antt =====
-- When a worker works and when it stops (ListenForNotifications and processConceptUpdate of
-- concept/service.go).
use aggregate_concept_transf.Common.{
  List, [], ◌∷◌, ◌++◌, Bool, true, false, ◌||◌, ◌≡◌, refl, ap, sym, ◌∙◌, arith, inl, inr, All, ◌⊎◌,
}
use aggregate_concept_transf.Effects.{
  Res, ok, err, panic, Log, M, return, ok-injective, >>=-ok, Res-cases, NoError, continue-NoError,
}
use aggregate_concept_transf.World.{World}
use aggregate_concept_transf.Concept.Service.{AggregateService}
use aggregate_concept_transf.Concept.Health.{SystemHealth, Signal, feedback, done, process_channel}
use aggregate_concept_transf.Concept.Health.Channel.{any_done, last_feedback, process_channel_lem}
use aggregate_concept_transf.Concept.Listener.{
  Worker, stopped, serve, listen_round, listen, process_notifications, process_concept_update,
}
use aggregate_concept_transf.Concept.Listener.Justified.{received}
use aggregate_concept_transf.Concept.Process.{logged}
use aggregate_concept_transf.Sqs.{
  ConceptUpdate, get_notifications_from_messages, listen_and_serve_queue,
}
use aggregate_concept_transf.Sqs.Updates.{get_notifications-NoError}

-- No feedback says that the service is healthy.
abbrev pub NoGood : List Signal → Type 0
NoGood [] = Unit {0}
NoGood (feedback st ∷ signals) = (st ≡ false) × NoGood signals
NoGood (done ∷ signals) = NoGood signals

last_feedback-NoGood :
    (signals : List Signal) → NoGood signals → last_feedback false signals ≡ false
last_feedback-NoGood [] h = refl
last_feedback-NoGood (feedback st ∷ signals) (e, h) = rw e (last_feedback-NoGood signals h)
last_feedback-NoGood (done ∷ signals) h = last_feedback-NoGood signals h

module _ {R : Type 0} (w : World R) (s : AggregateService) where
  listen-step :
      (health : SystemHealth) (signals : List Signal) (schedule : List (List Signal))
      → listen w s health (signals ∷ schedule)
        ≡ listen_round w s
            (process_channel health signals).shutdown
            (process_channel health signals).healthy
            (listen w s (process_channel health signals) schedule)
  unfolding listen
  listen-step health signals schedule = refl

  listen-cons :
      (healthy shutdown : Bool) (signals : List Signal) (schedule : List (List Signal))
      → listen w s (record { healthy = healthy; shutdown = shutdown }) (signals ∷ schedule)
        ≡ listen_round w s (shutdown || any_done signals) (last_feedback healthy signals) (
            listen w s
              (record {
                healthy = last_feedback healthy signals;
                shutdown = shutdown || any_done signals;
              })
              schedule)
  unfolding listen
  listen-cons healthy shutdown signals schedule =
      ap (λ now. listen_round w s now.shutdown now.healthy (listen w s now schedule))
        (process_channel_lem signals healthy shutdown)

  listen_round-stop :
      (shutdown healthy : Bool) (rest : M Worker)
      → shutdown ≡ true
      → listen_round w s shutdown healthy rest ≡ return stopped
  unfolding listen_round
  listen_round-stop shutdown healthy rest h = rw h refl

  -- A round after a done signal stops the worker.
  listen-done :
      (health : SystemHealth) (signals : List Signal) (after : List (List Signal))
      → any_done signals ≡ true
      → listen w s health (signals ∷ after) ≡ return stopped
  listen-done health signals after h =
      listen-cons health.healthy health.shutdown signals after
      ∙ listen_round-stop (health.shutdown || any_done signals) _ _ (ground arith)

  -- After a done signal a worker does what it would do with no round scheduled behind it: it makes
  -- no further call.
  pub listen-after_done :
      (before : List (List Signal)) (signals : List Signal) (after : List (List Signal))
      (health : SystemHealth)
      → any_done signals ≡ true
      → listen w s health (before ++ signals ∷ after) ≡ listen w s health (before ++ signals ∷ [])
  listen-after_done [] signals after health h =
      listen-done health signals after h ∙ sym (listen-done health signals [] h)
  listen-after_done (first ∷ before) signals after health h =
      listen-step health first (before ++ signals ∷ after)
      ∙ ap
          (listen_round w s (process_channel health first).shutdown
            (process_channel health first).healthy)
          (listen-after_done before signals after (process_channel health first) h)
      ∙ sym (listen-step health first (before ++ signals ∷ []))

  round-stops :
      (shutdown healthy : Bool) (rest : M Worker) (log : Log) (x : Worker)
      → ((log' : Log) → (rest log').0 ≡ ok x → x ≡ stopped)
      → (listen_round w s shutdown healthy rest log).0 ≡ ok x
      → x ≡ stopped
  unfolding listen_round
  round-stops true healthy rest log x ih h = sym (ok-injective h)
  round-stops false false rest log x ih h = ih log h
  round-stops false true rest log x ih h =
      let (_, _, more, _) = >>=-ok (serve w s) (λ _. rest) log h in ih _ more

  listen-ok :
      (before : List (List Signal)) (signals : List Signal) (after : List (List Signal))
      (health : SystemHealth) (log : Log) (x : Worker)
      → any_done signals ≡ true
      → (listen w s health (before ++ signals ∷ after) log).0 ≡ ok x
      → x ≡ stopped
  listen-ok [] signals after health log x h e =
      sym (ok-injective (sym (ap (λ m. (m log).0) (listen-done health signals after h)) ∙ e))
  listen-ok (first ∷ before) signals after health log x h e =
      round-stops (process_channel health first).shutdown (process_channel health first).healthy
        (listen w s (process_channel health first) (before ++ signals ∷ after)) log x
        (λ log' e'. listen-ok before signals after (process_channel health first) log' x h e')
        (unfold listen in e)

  logged-NoError : (r : Res (Unit {0})) → NoError (logged r)
  logged-NoError (ok _) = λ e h. cc
  logged-NoError (err _) = λ e h. cc
  logged-NoError panic = λ e h. cc

  process_notifications-NoError :
      (updates : List ConceptUpdate) (log : Log) → NoError (process_notifications w s updates log).0
  unfolding process_notifications
  process_notifications-NoError [] log = λ e h. cc
  process_notifications-NoError (n ∷ updates) log =
      continue-NoError (logged (process_concept_update w s n log).0) _ _ (logged-NoError _)
        λ _ log'. process_notifications-NoError updates log'

  serve-NoError : (log : Log) → NoError (serve w s log).0
  unfolding serve listen_and_serve_queue
  serve-NoError log =
      continue-NoError (get_notifications_from_messages w (received w s log)) _ _
        (get_notifications-NoError w (received w s log)) process_notifications-NoError

  round-NoError :
      (shutdown healthy : Bool) (rest : M Worker) (log : Log)
      → ((log' : Log) → NoError (rest log').0)
      → NoError (listen_round w s shutdown healthy rest log).0
  unfolding listen_round
  round-NoError true healthy rest log k = λ e h. cc
  round-NoError false false rest log k = k log
  round-NoError false true rest log k =
      continue-NoError (serve w s log).0 _ _ (serve-NoError log) λ _. k

  listen-NoError :
      (health : SystemHealth) (schedule : List (List Signal)) (log : Log)
      → NoError (listen w s health schedule log).0
  unfolding listen
  listen-NoError health [] log = λ e h. cc
  listen-NoError health (signals ∷ schedule) log =
      round-NoError (process_channel health signals).shutdown
        (process_channel health signals).healthy
        (listen w s (process_channel health signals) schedule) log
        (listen-NoError (process_channel health signals) schedule)

  -- A worker whose schedule has a done signal has returned at the end of the schedule, whatever
  -- errors its updates end in, unless one of its calls panics.
  pub listen-returns :
      (before : List (List Signal)) (signals : List Signal) (after : List (List Signal))
      (health : SystemHealth) (log : Log)
      → any_done signals ≡ true
      → ((listen w s health (before ++ signals ∷ after) log).0 ≡ ok stopped)
        ⊎ ((listen w s health (before ++ signals ∷ after) log).0 ≡ panic)
  listen-returns before signals after health log h =
      elim (Res-cases (listen w s health (before ++ signals ∷ after) log).0) [
        | inl (x, e) ↦ inl (e ∙ ap (λ y. ok y) (listen-ok before signals after health log x h e))
        | inr (inl (t, e)) ↦ absurd (listen-NoError health (before ++ signals ∷ after) log t e)
        | inr (inr e) ↦ inr e
      ]

  round-idle :
      (shutdown healthy : Bool) (rest : M Worker) (log : Log)
      → healthy ≡ false
      → (rest log).1 ≡ log
      → (listen_round w s shutdown healthy rest log).1 ≡ log
  unfolding listen_round
  round-idle true healthy rest log h ih = refl
  round-idle false healthy rest log h ih = rw h ih

  -- A worker that starts with a service that is not healthy, and never hears that it is, makes no
  -- call at all.
  pub listen-idle :
      (schedule : List (List Signal)) (shutdown : Bool) (log : Log)
      → All NoGood schedule
      → (listen w s (record { healthy = false; shutdown = shutdown }) schedule log).1 ≡ log
  listen-idle [] shutdown log h = unfold listen in refl
  listen-idle (signals ∷ schedule) shutdown log (h, hs) =
      let quiet = last_feedback-NoGood signals h in
      ap (λ m. (m log).1) (listen-cons false shutdown signals schedule)
      ∙ round-idle (shutdown || any_done signals) (last_feedback false signals) _ log quiet
          (rw quiet (listen-idle schedule (shutdown || any_done signals) log hs))
