-- ===== src/Main/Application/ReadOnly.antt =====
-- A process in read-only mode, as a whole (main.go).
use aggregate_concept_transf.Common.{ℕ, true, ◌≡◌, ◌∙◌}
use aggregate_concept_transf.Effects.{ok, Log, >>=-ok, ok-injective}
use aggregate_concept_transf.World.{Setup, World}
use aggregate_concept_transf.Concept.Changes.{writes}
use aggregate_concept_transf.Concept.Service.{AggregateService}
use aggregate_concept_transf.Concept.Handlers.{new_handler}
use aggregate_concept_transf.Concept.Routes.{HttpRequest, Libraries}
use aggregate_concept_transf.Concept.Routes.Writes.{Documented, register_handlers-ReadOnly}
use aggregate_concept_transf.Main.{Options, action}
use aggregate_concept_transf.Main.Application.{Application, assemble, application}
use aggregate_concept_transf.Main.Start.Ready.{Outcome-ok, max_workers-read_only}
use aggregate_concept_transf.Main.Start.Action.{action-Outcome}

module _ {R : Type 0} (w : World R) (setup : Setup) (libs : Libraries) (gomaxprocs : ℕ)
    (o : Options) where
  -- The process has no workers, and its server answers no request with a call that could change
  -- another system.
  abbrev pub Quiet : Application → Type 0
  Quiet app =
      (app.workers ≡ 0)
      × ((r : HttpRequest) (log : Log) → writes (app.server.handler r log).1 ≡ writes log)

  assemble-Quiet :
      (s : AggregateService)
      → Documented libs
      → o.is_read_only ≡ true
      → s.read_only ≡ true
      → Quiet (assemble w setup libs gomaxprocs o s)
  unfolding assemble new_handler
  assemble-Quiet s documented h k = (
    max_workers-read_only gomaxprocs o h,
    λ r log. register_handlers-ReadOnly w s libs documented log _ o.request_logging_on r k,
  )

  -- Whatever app.Action makes in read-only mode, it starts no worker, and no request to its server,
  -- whatever its method and path, leaves a call that could change another system.
  pub application-Quiet :
      (log : Log) (app : Application)
      → Documented libs
      → o.is_read_only ≡ true
      → (application w setup libs gomaxprocs o log).0 ≡ ok app
      → Quiet app
  unfolding application
  application-Quiet log app documented h e =
      let (s, made, assembled, _) = >>=-ok (action w setup o) _ log e in
      let (_, _, _, _, _, _, _, mode, _) = Outcome-ok (action-Outcome w setup o log) made in
      rw (← ok-injective assembled) (assemble-Quiet s documented h (mode ∙ h))
