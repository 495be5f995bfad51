-- ===== src/Concept/Routes/Dispatch.antt =====
-- Which handler answers a request to the API (RegisterHandlers of concept/handlers.go).
use mathlib.Core.List.{append_cancel_left}
use aggregate_concept_transf.Common.{
  ℕ, List, [], ◌∷◌, ◌++◌, append-nil, Bool, true, false, All, length, length-append, ◌≡◌, ◌≢◌, refl,
  sym, ap, ◌∙◌, arith,
}
use aggregate_concept_transf.Text.{Str, codes, has_byte, has_prefix, contains_text}
use aggregate_concept_transf.Text.Regex.{uuid_matcher}
use aggregate_concept_transf.Text.Matching.{match_here-parts}
use aggregate_concept_transf.Text.Search.{IsMatch}
use aggregate_concept_transf.Text.Clean.{IsClean, concept_path-IsClean}
use aggregate_concept_transf.Effects.{M}
use aggregate_concept_transf.World.{World}
use aggregate_concept_transf.Concept.Service.{AggregateService}
use aggregate_concept_transf.Concept.Handlers.{Response, get_handler, send_handler}
use aggregate_concept_transf.Concept.HealthService.{HealthService}
use aggregate_concept_transf.Concept.Routes.{
  HttpRequest, Handler, Template, Libraries, concept_template, send_template, api_routes,
  monitoring_router, register_handlers,
}
use aggregate_concept_transf.Concept.Routes.Writes.{Matches}

-- A pattern of ServeMux that stands for one path: "/" and a name.
abbrev pub IsExact : Str → Type 0
IsExact pattern =
    (name : Str) × ((pattern ≡ b'/' ∷ name) × (name ≢ []) × (has_byte name b'/' ≡ false))

-- What the libraries' documents say of a clean path: ServeMux gives it to the pattern "/" unless an
-- exact pattern is the path; the router gives it to the first template that matches, with its
-- variable; a method handler runs the handler of the request's method; the others answer as the
-- handler that they are put around. The paths of the other two pages are those of
-- service-status-go.
pub record Dispatches (libs : Libraries) : Type 1 where
  pub gtg_path_value : libs.gtg_path ≡ codes "/__gtg"
  pub build_info_path_value : libs.build_info_path ≡ codes "/__build-info"
  pub serve_mux_root :
      (handlers : List (Str × Handler)) (root : Handler) (r : HttpRequest)
      → IsClean r.path
      → All (λ (h : Str × Handler). IsExact h.0 × (h.0 ≢ r.path)) handlers
      → libs.serve_mux (handlers ++ (codes "/", root) ∷ []) r ≡ root r
  pub router_here :
      (t : Template) (h : Handler) (routes : List (Template × Handler)) (r : HttpRequest)
      (uuid : Str)
      → IsClean r.path
      → Matches t r.path uuid
      → libs.router ((t, h) ∷ routes) r ≡ h (record r { uuid = uuid })
  pub router_next :
      (t : Template) (h : Handler) (routes : List (Template × Handler)) (r : HttpRequest)
      → IsClean r.path
      → ((uuid : Str) → ¬ Matches t r.path uuid)
      → libs.router ((t, h) ∷ routes) r ≡ libs.router routes r
  pub method_handler_run :
      (method : Str) (h : Handler) (r : HttpRequest)
      → r.method ≡ method
      → libs.method_handler ((method, h) ∷ []) r ≡ h r
  pub transaction_logging_run : (h : Handler) (r : HttpRequest) → libs.transaction_logging h r ≡ h r
  pub http_metrics_run : (h : Handler) (r : HttpRequest) → libs.http_metrics h r ≡ h r

module _ {R : Type 0} (w : World R) (s : AggregateService) where
  -- A request of the API, and what it runs: GET /concept/UUID, with its publication, and
  -- POST /concept/UUID/send.
  pub data ApiRequest : HttpRequest → M Response → Type 0 where
    gets :
        (uuid : Str) (r : HttpRequest)
        → IsMatch uuid_matcher uuid
        → r.method ≡ codes "GET"
        → r.path ≡ codes "/concept/" ++ uuid
        → ApiRequest r (get_handler w s uuid r.publication)
    sends :
        (uuid : Str) (r : HttpRequest)
        → IsMatch uuid_matcher uuid
        → r.method ≡ codes "POST"
        → r.path ≡ codes "/concept/" ++ (uuid ++ codes "/send")
        → ApiRequest r (send_handler w s uuid)

-- A path of the second template is none of the first.
send_path-other :
    (uuid uuid' : Str)
    → IsMatch uuid_matcher uuid
    → ¬ Matches concept_template (codes "/concept/" ++ (uuid ++ codes "/send")) uuid'
send_path-other uuid uuid' h (same, h') =
    let (_, n) = match_here-parts uuid_matcher uuid h in
    let (_, n') = match_here-parts uuid_matcher uuid' h' in
    let rest = append_cancel_left (codes "/concept/") (uuid ++ codes "/send") (uuid' ++ []) same in
    let lengths =
      sym (length-append uuid (codes "/send"))
      ∙ ap (λ (t : Str). length t) rest
      ∙ length-append uuid' [] in
    omega (arith, n, n', lengths)

module _ (R : Type 0) (w : World R) (s : AggregateService) (libs : Libraries)
    (dispatches : Dispatches libs) where
  concept-path :
      (uuid path : Str)
      → path ≡ codes "/concept/" ++ uuid
      → path ≡ codes "/concept/" ++ (uuid ++ [])
  concept-path uuid path e = e ∙ ap (λ t. codes "/concept/" ++ t) (sym (append-nil uuid))

  api-answers :
      (r : HttpRequest) (m : M Response)
      → ApiRequest w s r m
      → IsClean r.path × (libs.router (api_routes w s libs) r ≡ m)
  api-answers _ _ (gets uuid r h method path) =
      let path' = concept-path uuid r.path path in
      let clean : IsClean r.path =
        rw path' (concept_path-IsClean uuid [] h (tt, unfold contains_text has_prefix in refl)) in
      (
        clean,
        dispatches.router_here concept_template _ _ r uuid clean (path', h)
            ∙ dispatches.method_handler_run (codes "GET") _ (record r { uuid = uuid }) method,
      )
  api-answers _ _ (sends uuid r h method path) =
      let clean : IsClean r.path = rw path (
        concept_path-IsClean uuid (codes "/send") h
          (ground arith, unfold contains_text has_prefix in refl)) in
      (
        clean,
        dispatches.router_next concept_template _ _ r clean
              (λ uuid' k. send_path-other uuid uuid' h (rw path at k))
            ∙ dispatches.router_here send_template _ _ r uuid clean (path, h)
            ∙ dispatches.method_handler_run (codes "POST") _ (record r { uuid = uuid }) method,
      )

  monitored :
      (on : Bool) (r : HttpRequest)
      → monitoring_router w s libs on r ≡ libs.router (api_routes w s libs) r
  monitored true r = dispatches.http_metrics_run _ r ∙ dispatches.transaction_logging_run _ r
  monitored false r = dispatches.http_metrics_run _ r

  api-path :
      (r : HttpRequest) (m : M Response)
      → ApiRequest w s r m
      → (rest : Str) × (r.path ≡ codes "/concept/" ++ rest)
  api-path _ _ (gets uuid r h method path) = (uuid, path)
  api-path _ _ (sends uuid r h method path) = (uuid ++ codes "/send", path)

  -- A pattern "/__name" is not the path.
  beside :
      (name rest path : Str)
      → has_byte name b'/' ≡ false
      → path ≡ codes "/concept/" ++ rest
      → IsExact (b'/' ∷ b'_' ∷ name) × (b'/' ∷ b'_' ∷ name ≢ path)
  unfolding has_byte
  beside name rest path one same =
      ((b'_' ∷ name, (refl, (λ e. cc), one)), λ e. differs (second_eq (e ∙ same)))
    where
      second_eq : {a b c d : ℕ} {s t : Str} → a ∷ b ∷ s ≡ c ∷ d ∷ t → b ≡ d
      second_eq h = cc

      differs : ◌≢◌ {A = ℕ} b'_' b'c'
      differs e = omega (arith, e)

  -- Where the libraries do what they document: GET /concept/UUID is answered by GetHandler with that
  -- UUID and the publication of the request, and POST /concept/UUID/send by SendHandler with that
  -- UUID, whether the requests are logged or not.
  pub register_handlers-ApiRequest :
      (health_service : HealthService) (request_logging_enabled : Bool) (r : HttpRequest)
      (m : M Response)
      → ApiRequest w s r m
      → register_handlers w s libs health_service request_logging_enabled r ≡ m
  unfolding register_handlers
  register_handlers-ApiRequest health_service on r m api =
      let (clean, answered) = api-answers r m api in
      let (rest, path) = api-path r m api in
      dispatches.serve_mux_root
        ((codes "/__health", _) ∷ (libs.gtg_path, _) ∷ (libs.build_info_path, _) ∷ [])
        (monitoring_router w s libs on) r clean
        (
          beside (codes "_health") rest r.path (unfold has_byte in refl) path,
          (
            rw dispatches.gtg_path_value
                (beside (codes "_gtg") rest r.path (unfold has_byte in refl) path),
            (
              rw dispatches.build_info_path_value
                  (beside (codes "_build-info") rest r.path (unfold has_byte in refl) path),
              tt,
            ),
          ),
        )
      ∙ monitored on r
      ∙ answered
