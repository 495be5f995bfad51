-- ===== src/Concept/Routes/Reads.antt =====
-- From a request of the API to the objects that are read for it (RegisterHandlers and GetHandler of
-- concept/handlers.go, getConcordedConcept of concept/service.go).
use aggregate_concept_transf.Common.{[], ◌++◌, Bool, ◌≡◌, sym, ap, ◌∙◌, ◌⊎◌, subst}
use aggregate_concept_transf.Text.{Str, codes}
use aggregate_concept_transf.Text.Matching.{Lacks}
use aggregate_concept_transf.Effects.{Res, ok, Log, M}
use aggregate_concept_transf.World.{World}
use aggregate_concept_transf.Concept.Service.{AggregateService}
use aggregate_concept_transf.Concept.Identifiers.RoundTrip.{IsUuid}
use aggregate_concept_transf.Concept.Gather.Sources.{MapOrder, ReadsAll}
use aggregate_concept_transf.Concept.Handlers.{Response, requested_key, get_handler}
use aggregate_concept_transf.Concept.Handlers.Reads.{get_handler-ReadsAll}
use aggregate_concept_transf.Concept.HealthService.{HealthService}
use aggregate_concept_transf.Concept.Routes.{HttpRequest, Libraries, register_handlers}
use aggregate_concept_transf.Concept.Routes.Dispatch.{
  Dispatches, gets, register_handlers-ApiRequest,
}

module _ (R : Type 0) (w : World R) (s : AggregateService) (libs : Libraries) where
  -- The reads of getConcordedConcept for the UUID and the publication.
  abbrev pub ReadsOf : (uuid publication : Str) → (log log' : Log) → Type 0
  ReadsOf uuid publication log log' =
      (reads : ReadsAll w s (requested_key uuid publication) [] log log') × (reads.cleaned ≡ uuid)
      × (reads.publication ≡ publication)

  -- Where the libraries do what they document and a map is walked in some order of its entries:
  -- GET /concept/UUID, with a publication that is a UUID or has no dash or with none, and answered
  -- with status 200, has asked the concordances for that UUID and read, in the store of that
  -- publication, exactly one object for each record outside the primary authority that they gave
  -- (without a primary authority, for each record whose authority is not empty), and then the
  -- object of the primary authority's record, if there is a primary authority.
  pub register_handlers-ReadsOf :
      (health_service : HealthService) (request_logging_enabled : Bool) (r : HttpRequest)
      (uuid : Str) (log : Log) (reply : Response)
      → Dispatches libs
      → MapOrder w s
      → IsUuid uuid
      → Lacks b'-' r.publication ⊎ IsUuid r.publication
      → r.method ≡ codes "GET"
      → r.path ≡ codes "/concept/" ++ uuid
      → (register_handlers w s libs health_service request_logging_enabled r log).0 ≡ ok reply
      → reply.status ≡ 200
      → ReadsOf uuid r.publication log
          (register_handlers w s libs health_service request_logging_enabled r log).1
  register_handlers-ReadsOf health_service on r uuid log reply dispatches order u p method path h
        status =
      let run =
        ap (λ (m : M Response). m log)
          (register_handlers-ApiRequest R w s libs dispatches health_service on r
            (get_handler w s uuid r.publication) (gets uuid r u method path)) in
      subst (λ (t : Res Response × Log). ReadsOf uuid r.publication log t.1) (sym run)
        (get_handler-ReadsAll w s uuid r.publication log reply u p order
          (ap (λ (t : Res Response × Log). t.0) (sym run) ∙ h) status)
