-- ===== src/Concept/Handlers.antt =====
-- GetHandler and SendHandler of concept/handlers.go: the two requests of the API.
pub mod Keys
pub mod ReadOnly
pub mod Safe
pub mod Bodies
pub mod Reads
use aggregate_concept_transf.Common.{ℕ, List, [], ◌∷◌, ◌++◌, if◌then◌else◌}
use aggregate_concept_transf.Text.{Str, codes, is_empty}
use aggregate_concept_transf.Effects.{Res, ok, err, panic, M}
use aggregate_concept_transf.World.{CanonicalConcept, World}
use aggregate_concept_transf.Concept.Service.{AggregateService, with_deadline}
use aggregate_concept_transf.Concept.Gather.{get_concorded_concept}
use aggregate_concept_transf.Concept.Process.{process_message}

-- What is written to the http.ResponseWriter.
pub record Response : Type 0 where
  pub status : ℕ
  pub headers : List (Str × Str)
  pub body : Str

abbrev pub content_type : Str × Str
content_type = (codes "Content-Type", codes "application/json")

-- http.StatusInternalServerError with the error's text in a message
unfoldable pub error_response : Str → Response
error_response e = record {
  status = 500;
  headers = content_type ∷ [];
  body = codes "{\"message\":\"" ++ (e ++ codes "\"}");
}

-- strings.Join([]string{publication, UUID}, "-") where there is a publication
unfoldable pub requested_key : (uuid publication : Str) → Str
unfolding is_empty
requested_key uuid publication = if is_empty publication then uuid else publication ++ b'-' ∷ uuid

-- json.NewEncoder(w).Encode(concept): a text that cannot be made is not written.
encoded : Res Str → Str
encoded (ok text) = text ++ 10 ∷ []
encoded (err _) = []
encoded panic = []

-- The timeout is in seconds; that it has passed is the world's `cancelled`.
pub record AggregateConceptHandler : Type 0 where
  pub svc : AggregateService
  pub request_timeout : ℕ

-- NewHandler
unfoldable pub new_handler : AggregateService → (timeout : ℕ) → AggregateConceptHandler
new_handler svc timeout = record { svc = svc; request_timeout = timeout }

module _ {R : Type 0} (w : World R) where
  get_response : Res (CanonicalConcept R × Str) → Res Response
  unfolding encoded error_response
  get_response (ok (concept, transaction_id)) = ok (record {
    status = 200;
    headers = content_type ∷ (codes "X-Request-Id", transaction_id) ∷ [];
    body = encoded (w.marshal_concept concept);
  })
  get_response (err e) = ok (error_response e)
  get_response panic = panic

  send_response : (uuid : Str) → Res (Unit {0}) → Res Response
  unfolding error_response
  send_response uuid (ok _) = ok (record {
    status = 200;
    headers = content_type ∷ [];
    body = codes "{\"message\":\"Concept " ++ (uuid ++ codes " updated successfully.\"}");
  })
  send_response uuid (err e) = ok (error_response e)
  send_response uuid panic = panic

  module _ (s : AggregateService) where
    -- (*AggregateConceptHandler).getConcordedConcept
    unfoldable pub handler_concept : (uuid : Str) → M (CanonicalConcept R × Str)
    handler_concept uuid = with_deadline w (get_concorded_concept w s uuid [])

    -- (*AggregateConceptHandler).GetHandler
    unfoldable pub get_handler : (uuid publication : Str) → M Response
    unfolding get_response handler_concept requested_key
    get_handler uuid publication log =
        let (r, log') = handler_concept (requested_key uuid publication) log in
        (get_response r, log')

    -- (*AggregateConceptHandler).SendHandler
    unfoldable pub send_handler : (uuid : Str) → M Response
    unfolding send_response
    send_handler uuid log =
        let (r, log') = with_deadline w (process_message w s uuid []) log in
        (send_response uuid r, log')
