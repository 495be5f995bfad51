-- ===== src/Concept/Handlers/ReadOnly.antt =====
-- The read-only mode (concept/service.go, concept/handlers.go).
use aggregate_concept_transf.Common.{List, [], true, ◌≡◌, refl, Option-cases, inl, inr}
use aggregate_concept_transf.Text.{Str, codes}
use aggregate_concept_transf.Effects.{ok, err, Log}
use aggregate_concept_transf.World.{World}
use aggregate_concept_transf.Concept.Service.{AggregateService, with_deadline}
use aggregate_concept_transf.Concept.Process.{process_message}
use aggregate_concept_transf.Concept.Health.{SystemHealth, Signal}
use aggregate_concept_transf.Concept.Listener.{stopped, listen_for_notifications}
use aggregate_concept_transf.Concept.Handlers.{
  Response, error_response, send_response, send_handler,
}

module _ {R : Type 0} (w : World R) (s : AggregateService) where
  process_message-ReadOnly :
      (uuid bookmark : Str) (log : Log)
      → s.read_only ≡ true
      → process_message w s uuid bookmark log
        ≡ (err (codes "aggregate service is in read-only mode"), log)
  unfolding process_message
  process_message-ReadOnly uuid bookmark log h = rw h refl

  pub send_handler-ReadOnly :
      (uuid : Str) (log : Log)
      → s.read_only ≡ true
      → (r : Response) × (send_handler w s uuid log ≡ (ok r, log)) × (r.status ≡ 500)
  unfolding send_handler with_deadline send_response error_response
  send_handler-ReadOnly uuid log h =
      rw (process_message-ReadOnly uuid [] log h) (elim (Option-cases (w.cancelled log)) [
        | inl e ↦ rw e (_, refl, refl)
        | inr (text, e) ↦ rw e (_, refl, refl)
      ])

  -- A service in read-only mode answers every request to send a concept with status 500, its
  -- workers return at once whatever signals they get, and neither makes a call to another system.
  pub read_only-quiet :
      (uuid : Str) (health : SystemHealth) (schedule : List (List Signal)) (log : Log)
      → s.read_only ≡ true
      → ((r : Response) × (send_handler w s uuid log ≡ (ok r, log)) × (r.status ≡ 500))
        × (listen_for_notifications w s health schedule log ≡ (ok stopped, log))
  unfolding listen_for_notifications
  read_only-quiet uuid health schedule log h = (send_handler-ReadOnly uuid log h, rw h refl)
