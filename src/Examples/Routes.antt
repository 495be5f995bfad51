-- ===== src/Examples/Routes.antt =====
-- The theorem on the routes, with small libraries that run the handlers at the small world.
use aggregate_concept_transf.Common.{
  ℕ, List, [], ◌∷◌, ◌++◌, drop, length, Bool, true, false, Option, none, some, All, ◌≡◌, refl,
}
use aggregate_concept_transf.Text.{Str, codes, str_eq, str_eq→eq}
use aggregate_concept_transf.Text.Regex.{match_here}
use aggregate_concept_transf.Text.Matching.{match_here_self}
use aggregate_concept_transf.Effects.{Log, M, return}
use aggregate_concept_transf.Concept.Handlers.{Response}
use aggregate_concept_transf.Concept.HealthService.{new_health_service}
use aggregate_concept_transf.Concept.Changes.{writes, Keeps}
use aggregate_concept_transf.Concept.Routes.{
  HttpRequest, Handler, Template, Libraries, register_handlers,
}
use aggregate_concept_transf.Concept.Routes.Writes.{Matches, Documented, register_handlers-IsSend}
use aggregate_concept_transf.Examples.{world, service}

abbrev pub reply : ℕ → Response
reply status = record { status = status; headers = []; body = [] }

abbrev pub pick : Bool → M Response → M Response → M Response
pick true first rest = first
pick false first rest = rest

pick-Keeps :
    (P : Log → Type 0) (b : Bool) (first rest : M Response)
    → (b ≡ true → Keeps P first)
    → Keeps P rest
    → Keeps P (pick b first rest)
pick-Keeps P true first rest h k = h refl
pick-Keeps P false first rest h k = k

-- The handler of the method, or status 405.
unfoldable pub by_method : List (Str × Handler) → Handler
by_method [] r = return (reply 405)
by_method ((method, h) ∷ handlers) r = pick (str_eq method r.method) (h r) (by_method handlers r)

by_method-Keeps :
    (P : Log → Type 0) (handlers : List (Str × Handler)) (r : HttpRequest)
    → All (λ (h : Str × Handler). (h.0 ≡ r.method → Keeps P (h.1 r))) handlers
    → Keeps P (by_method handlers r)
unfolding by_method
by_method-Keeps P [] r h = λ log k. k
by_method-Keeps P ((method, f) ∷ handlers) r (h, hs) =
    pick-Keeps P (str_eq method r.method) (f r) (by_method handlers r)
      (λ e. h (str_eq→eq method r.method e)) (by_method-Keeps P handlers r hs)

abbrev pub by_match :
    Template → Handler → HttpRequest → M Response → Option (Str × Str) → M Response
by_match t h r rest none = rest
by_match t h r rest (some (u, _)) =
    pick (str_eq r.path (t.before ++ (u ++ t.after))) (h (record r { uuid = u })) rest

-- The handler of the first template that matches, or status 404.
unfoldable pub first_match : List (Template × Handler) → Handler
first_match [] r = return (reply 404)
first_match ((t, h) ∷ routes) r =
    by_match t h r (first_match routes r) (match_here t.pattern (drop (length t.before) r.path))

by_match-Keeps :
    (P : Log → Type 0) (t : Template) (h : Handler) (r : HttpRequest) (rest : M Response)
    (found : Option (Str × Str))
    → ((uuid after : Str)
        → found ≡ some (uuid, after)
        → match_here t.pattern uuid ≡ some (uuid, []))
    → ((uuid : Str) → Matches t r.path uuid → Keeps P (h (record r { uuid = uuid })))
    → Keeps P rest
    → Keeps P (by_match t h r rest found)
by_match-Keeps P t h r rest none self k other = other
by_match-Keeps P t h r rest (some (u, after)) self k other =
    pick-Keeps P (str_eq r.path (t.before ++ (u ++ t.after))) (h (record r { uuid = u })) rest
      (λ e. k u (str_eq→eq r.path (t.before ++ (u ++ t.after)) e, self u after refl)) other

first_match-Keeps :
    (P : Log → Type 0) (routes : List (Template × Handler)) (r : HttpRequest)
    → All
        (λ (h : Template × Handler).
          ((uuid : Str) → Matches h.0 r.path uuid → Keeps P (h.1 (record r { uuid = uuid }))))
        routes
    → Keeps P (first_match routes r)
unfolding first_match
first_match-Keeps P [] r h = λ log k. k
first_match-Keeps P ((t, f) ∷ routes) r (h, hs) =
    by_match-Keeps P t f r (first_match routes r)
      (match_here t.pattern (drop (length t.before) r.path))
      (λ uuid after e. match_here_self t.pattern (drop (length t.before) r.path) e) h
      (first_match-Keeps P routes r hs)

-- The handler of the first pattern that is the path, or "/".
unfoldable pub last_handler : List (Str × Handler) → Handler
last_handler [] r = return (reply 404)
last_handler ((pattern, h) ∷ handlers) r =
    pick (str_eq pattern r.path) (h r)
      (pick (str_eq pattern (codes "/")) (h r) (last_handler handlers r))

last_handler-Keeps :
    (P : Log → Type 0) (handlers : List (Str × Handler)) (r : HttpRequest)
    → All (λ (h : Str × Handler). Keeps P (h.1 r)) handlers
    → Keeps P (last_handler handlers r)
unfolding last_handler
last_handler-Keeps P [] r h = λ log k. k
last_handler-Keeps P ((pattern, f) ∷ handlers) r (h, hs) =
    pick-Keeps P (str_eq pattern r.path) (f r) _ (λ e. h)
      (pick-Keeps P (str_eq pattern (codes "/")) (f r) _ (λ e. h)
        (last_handler-Keeps P handlers r hs))

abbrev pub libraries : Libraries
libraries = record {
  method_handler = by_method;
  router = first_match;
  transaction_logging = λ h. h;
  http_metrics = λ h. h;
  serve_mux = last_handler;
  health_handler = λ page checkers r. return (reply 200);
  good_to_go_handler = λ checker r. return (reply 200);
  build_info_handler = λ r. return (reply 200);
  fail_fast_parallel_check = λ checkers. return (record { good_to_go = true; message = [] });
  gtg_path = codes "/__gtg";
  build_info_path = codes "/__build-info";
}

pub libraries-Documented : Documented libraries
libraries-Documented = record {
  method_handler_keeps = by_method-Keeps;
  router_keeps = first_match-Keeps;
  transaction_logging_keeps = λ P h r k. k;
  http_metrics_keeps = λ P h r k. k;
  serve_mux_keeps = last_handler-Keeps;
  health_handler_keeps = λ P page checkers r h log k. k;
  good_to_go_handler_keeps = λ P checker r h log k. k;
  build_info_handler_keeps = λ P r log k. k;
  fail_fast_parallel_check_keeps = λ P checkers h log k. k;
}

-- GET /concept/UUID
abbrev pub request : HttpRequest
request = record {
  method = codes "GET";
  path = codes "/concept/28090964-9997-4bc2-9638-7a11135aaff9";
  publication = [];
  uuid = [];
}

register_handlers-IsSend_example :
    writes
      (register_handlers world service libraries
        (new_health_service service (codes "act") (codes "ACT") 8080 [])
        true
        request
        []).1
    ≡ writes []
register_handlers-IsSend_example =
    register_handlers-IsSend world service libraries libraries-Documented []
      (new_health_service service (codes "act") (codes "ACT") 8080 []) true request λ (e, _). cc
