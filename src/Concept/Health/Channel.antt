-- ===== src/Concept/Health/Channel.antt =====
-- The health after any signals (processChannel of concept/service.go).
use aggregate_concept_transf.Common.{
  List, [], ◌∷◌, Bool, true, false, ◌||◌, ◌≡◌, refl, ap, ◌∙◌, arith,
}
use aggregate_concept_transf.Concept.Health.{
  SystemHealth, Signal, feedback, done, receive, process_channel,
}

-- The last feedback, or what was known before.
abbrev pub last_feedback : Bool → List Signal → Bool
last_feedback known [] = known
last_feedback known (feedback st ∷ signals) = last_feedback st signals
last_feedback known (done ∷ signals) = last_feedback known signals

abbrev pub any_done : List Signal → Bool
any_done [] = false
any_done (feedback _ ∷ signals) = any_done signals
any_done (done ∷ signals) = true

receive-feedback :
    (r : SystemHealth) (st : Bool)
    → receive r (feedback st) ≡ record { healthy = st; shutdown = r.shutdown }
unfolding receive
receive-feedback r true = ground arith
receive-feedback r false = ground arith

-- After any signals the service is healthy if the last feedback said so (or, without one, if it
-- was before), and it is shutting down if it was before or a done signal has come.
pub process_channel_lem :
    (signals : List Signal) (healthy shutdown : Bool)
    → process_channel (record { healthy = healthy; shutdown = shutdown }) signals
      ≡ record { healthy = last_feedback healthy signals; shutdown = shutdown || any_done signals }
unfolding process_channel
process_channel_lem [] healthy true = refl
process_channel_lem [] healthy false = refl
process_channel_lem (feedback st ∷ signals) healthy shutdown =
    ap (λ r. process_channel r signals)
      (receive-feedback (record { healthy = healthy; shutdown = shutdown }) st)
    ∙ process_channel_lem signals st shutdown
process_channel_lem (done ∷ signals) healthy true = process_channel_lem signals healthy true
process_channel_lem (done ∷ signals) healthy false = process_channel_lem signals healthy true
