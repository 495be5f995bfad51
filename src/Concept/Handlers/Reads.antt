-- ===== src/Concept/Handlers/Reads.antt =====
-- What a request for a concept reads (GetHandler of concept/handlers.go).
use aggregate_concept_transf.Common.{[], ◌≡◌, refl, sym, ap, ◌∙◌, ◌⊎◌, arith}
use aggregate_concept_transf.Text.{Str}
use aggregate_concept_transf.Text.Matching.{Lacks}
use aggregate_concept_transf.Effects.{Res, ok, err, panic, Log, ok-injective}
use aggregate_concept_transf.World.{CanonicalConcept, World}
use aggregate_concept_transf.Concept.Service.{AggregateService, with_deadline}
use aggregate_concept_transf.Concept.Identifiers.RoundTrip.{IsUuid}
use aggregate_concept_transf.Concept.Gather.{get_concorded, get_concorded_concept}
use aggregate_concept_transf.Concept.Gather.Sources.{MapOrder, ReadsAll, get_concorded-ReadsAll}
use aggregate_concept_transf.Concept.Process.Guards.{with_deadline-ok}
use aggregate_concept_transf.Concept.Handlers.{
  Response, get_response, error_response, requested_key, handler_concept, get_handler,
}
use aggregate_concept_transf.Concept.Handlers.Keys.{extract-requested_key}

module _ {R : Type 0} (w : World R) (s : AggregateService) where
  -- Status 200 means that the concept was found.
  get_response-found :
      (r : Res (CanonicalConcept R × Str)) (reply : Response)
      → get_response w r ≡ ok reply
      → reply.status ≡ 200
      → (c : CanonicalConcept R × Str) × (r ≡ ok c)
  unfolding get_response error_response
  get_response-found (ok c) reply h status = (c, refl)
  get_response-found (err e) reply h status =
      let bad = ap (λ (q : Response). q.status) (ok-injective h) ∙ status in
      absurd (omega (arith, bad))
  get_response-found panic reply h status = cc

  -- A request for a UUID, with a publication or without one, that is answered with status 200 has
  -- read what getConcordedConcept reads for that UUID in the store of that publication.
  pub get_handler-ReadsAll :
      (uuid publication : Str) (log : Log) (reply : Response)
      → IsUuid uuid
      → Lacks b'-' publication ⊎ IsUuid publication
      → MapOrder w s
      → (get_handler w s uuid publication log).0 ≡ ok reply
      → reply.status ≡ 200
      → (reads : ReadsAll w s
          (requested_key uuid publication)
          []
          log
          (get_handler w s uuid publication log).1)
        × (reads.cleaned ≡ uuid)
        × (reads.publication ≡ publication)
  unfolding get_handler handler_concept get_concorded_concept with_deadline
  get_handler-ReadsAll uuid publication log reply u p order h status =
      let key = requested_key uuid publication in
      let (c, found) = get_response-found (handler_concept w s key log).0 reply h status in
      let read =
        with_deadline-ok w (get_concorded w s key []) log
          (with_deadline-ok w (get_concorded_concept w s key []) log found) in
      let reads = get_concorded-ReadsAll w s key [] log c order read in
      let same = ok-injective (sym reads.extracted ∙ extract-requested_key uuid publication u p) in
      (reads, ap (λ k. k.0) same, ap (λ k. k.1) same)
