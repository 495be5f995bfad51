-- ===== src/Examples/Dispatch.antt =====
-- The small libraries answer the requests of the API as the real ones document it.
use mathlib.Core.List.Perm
use aggregate_concept_transf.Text.Regex.{find_all}
use aggregate_concept_transf.Concordances.{get_concordance}
use aggregate_concept_transf.S3.{get_concept_and_transaction_id}
use aggregate_concept_transf.Concept.Service.{with_deadline}
use aggregate_concept_transf.Concept.Buckets.{bucket_concordances}
use aggregate_concept_transf.Concept.Identifiers.{extract_identifiers_from_key}
use aggregate_concept_transf.Concept.Identifiers.RoundTrip.{IsUuid}
use aggregate_concept_transf.Concept.Gather.{
  get_concorded, get_concorded_concept, gather_sources, gather_buckets, gather_records,
  gather_record, fetch, fetch_primary, aggregate,
}
use aggregate_concept_transf.Concept.Routes.Reads.{ReadsOf, register_handlers-ReadsOf}
use aggregate_concept_transf.Common.{
  ℕ, List, [], ◌∷◌, ◌++◌, drop, length, true, false, Option, none, some, All, ◌≡◌, ◌≢◌, refl, sym,
  ap, ◌∙◌, inl, inr, Bool-cases,
}
use aggregate_concept_transf.Text.{Str, codes, str_eq, str_eq→eq, str_eq_refl}
use aggregate_concept_transf.Text.Regex.{match_here, accepts, is_hex}
use aggregate_concept_transf.Text.Matching.{match_here-append, match_here_self}
use aggregate_concept_transf.Text.Clean.{IsClean}
use aggregate_concept_transf.Effects.{M, ok}
use aggregate_concept_transf.Concept.Handlers.{Response, get_handler}
use aggregate_concept_transf.Concept.HealthService.{HealthService, new_health_service}
use aggregate_concept_transf.Concept.Routes.{HttpRequest, Handler, Template, register_handlers}
use aggregate_concept_transf.Concept.Routes.Writes.{Matches}
use aggregate_concept_transf.Concept.Routes.Dispatch.{
  IsExact, Dispatches, gets, register_handlers-ApiRequest,
}
use aggregate_concept_transf.Examples.{uuid_a, world, service}
use aggregate_concept_transf.Examples.Routes.{
  by_method, by_match, first_match, last_handler, libraries, request,
}

different : (s t : Str) → s ≢ t → str_eq s t ≡ false
different s t h = elim (Bool-cases (str_eq s t)) [
  | inl e ↦ absurd (h (str_eq→eq s t e))
  | inr e ↦ e
]

last_handler-root :
    (handlers : List (Str × Handler)) (root : Handler) (r : HttpRequest)
    → IsClean r.path
    → All (λ (h : Str × Handler). IsExact h.0 × (h.0 ≢ r.path)) handlers
    → last_handler (handlers ++ (codes "/", root) ∷ []) r ≡ root r
unfolding last_handler
last_handler-root [] root r clean h = elim (Bool-cases (str_eq (codes "/") r.path)) [
  | inl e ↦ rw e refl
  | inr e ↦ rw (e, str_eq_refl (codes "/")) refl
]
last_handler-root ((pattern, f) ∷ handlers) root r clean (((name, (same, named, _)), other), hs) =
    rw (different pattern r.path other, different pattern (codes "/") not_root)
      (last_handler-root handlers root r clean hs)
  where
    not_root : pattern ≢ codes "/"
    not_root e = named (tail_eq (sym same ∙ e))
      where
        tail_eq : {a b : ℕ} {s t : Str} → a ∷ s ≡ b ∷ t → s ≡ t
        tail_eq h = cc

drop-length : (s t : Str) → drop (length s) (s ++ t) ≡ t
drop-length [] t = refl
drop-length (x ∷ s) t = drop-length s t

first_match-here :
    (t : Template) (h : Handler) (routes : List (Template × Handler)) (r : HttpRequest) (uuid : Str)
    → IsClean r.path
    → Matches t r.path uuid
    → first_match ((t, h) ∷ routes) r ≡ h (record r { uuid = uuid })
unfolding first_match
first_match-here t h routes r uuid clean (path, found) =
    rw
      (
        path,
        drop-length t.before (uuid ++ t.after),
        match_here-append t.pattern uuid t.after found,
        str_eq_refl,
      )
      refl

by_match-next :
    (t : Template) (h : Handler) (r : HttpRequest) (rest : M Response) (found : Option (Str × Str))
    → ((uuid after : Str)
        → found ≡ some (uuid, after)
        → match_here t.pattern uuid ≡ some (uuid, []))
    → ((uuid : Str) → ¬ Matches t r.path uuid)
    → by_match t h r rest found ≡ rest
by_match-next t h r rest none self other = refl
by_match-next t h r rest (some (u, after)) self other =
    rw (different r.path (t.before ++ (u ++ t.after)) (λ e. other u (e, self u after refl))) refl

first_match-next :
    (t : Template) (h : Handler) (routes : List (Template × Handler)) (r : HttpRequest)
    → IsClean r.path
    → ((uuid : Str) → ¬ Matches t r.path uuid)
    → first_match ((t, h) ∷ routes) r ≡ first_match routes r
unfolding first_match
first_match-next t h routes r clean other =
    by_match-next t h r (first_match routes r)
      (match_here t.pattern (drop (length t.before) r.path))
      (λ uuid after e. match_here_self t.pattern (drop (length t.before) r.path) e) other

by_method-run :
    (method : Str) (h : Handler) (r : HttpRequest)
    → r.method ≡ method
    → by_method ((method, h) ∷ []) r ≡ h r
unfolding by_method
by_method-run method h r e = rw (e, str_eq_refl method) refl

libraries-Dispatches : Dispatches libraries
libraries-Dispatches = record {
  gtg_path_value = refl;
  build_info_path_value = refl;
  serve_mux_root = last_handler-root;
  router_here = first_match-here;
  router_next = first_match-next;
  method_handler_run = by_method-run;
  transaction_logging_run = λ h r. refl;
  http_metrics_run = λ h r. refl;
}

abbrev health_service : HealthService
health_service = new_health_service service (codes "act") (codes "ACT") 8080 []

uuid_a-IsUuid : IsUuid uuid_a
unfolding match_here accepts is_hex
uuid_a-IsUuid = refl

register_handlers-ApiRequest_example :
    register_handlers world service libraries health_service true request
    ≡ get_handler world service uuid_a []
register_handlers-ApiRequest_example =
    register_handlers-ApiRequest (Unit {0}) world service libraries libraries-Dispatches
      health_service true request (get_handler world service uuid_a [])
      (gets uuid_a request uuid_a-IsUuid refl refl)

abbrev found : Response
found = record {
  status = 200;
  headers =
      (codes "Content-Type", codes "application/json") ∷ (codes "X-Request-Id", codes "tid") ∷ [];
  body = uuid_a ++ 10 ∷ [];
}

concept-found : (get_handler world service uuid_a [] []).0 ≡ ok found
unfolding get_handler get_concorded_concept with_deadline get_concorded extract_identifiers_from_key
    find_all get_concordance bucket_concordances str_eq gather_sources gather_buckets gather_records
    gather_record fetch get_concept_and_transaction_id fetch_primary aggregate
concept-found = refl

request-found :
    (register_handlers world service libraries health_service true request []).0 ≡ ok found
request-found =
    ap (λ (m : M Response). (m []).0)
      (register_handlers-ApiRequest (Unit {0}) world service libraries libraries-Dispatches
        health_service true request (get_handler world service uuid_a [])
        (gets uuid_a request uuid_a-IsUuid refl refl))
    ∙ concept-found

register_handlers-ReadsOf_example :
    ReadsOf
      (Unit {0})
      world
      service
      libraries
      uuid_a
      []
      []
      (register_handlers world service libraries health_service true request []).1
register_handlers-ReadsOf_example =
    register_handlers-ReadsOf (Unit {0}) world service libraries health_service true request uuid_a
      [] found libraries-Dispatches (λ log buckets. Perm.refl buckets) uuid_a-IsUuid (inl tt) refl
      refl request-found refl
