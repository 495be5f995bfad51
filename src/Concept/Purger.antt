-- ===== src/Concept/Purger.antt =====
-- sendToPurger and contains of concept/service.go: the cache invalidation of concepts.
pub mod Targets
use aggregate_concept_transf.Common.{List, [], ◌∷◌, ◌++◌, Bool, false, ◌==◌, ◌||◌, if◌then◌else◌}
use aggregate_concept_transf.Text.{Str, codes, str_eq, trim_right}
use aggregate_concept_transf.Text.Itoa.{itoa}
use aggregate_concept_transf.Effects.{Res, ok, err, Request, Call, M, ◌>>=◌, lift, perform}
use aggregate_concept_transf.World.{HttpReply, failed, response, World}
use aggregate_concept_transf.Concept.Paths.{resolve_concept_type}

unfoldable pub contains : Str → List Str → Bool
contains element [] = false
contains element (t ∷ types) = str_eq element t || contains element types

-- queryParams.Add("target", endpoint + "/" + uuid)
abbrev pub target : (endpoint uuid : Str) → Str × Str
target endpoint uuid = (codes "target", endpoint ++ b'/' ∷ uuid)

-- thingsAPIEndpoint and conceptsAPIEnpoint, for each concept
unfoldable pub always_purged : List Str → List (Str × Str)
always_purged [] = []
always_purged (uuid ∷ uuids) =
    target (codes "/things") uuid ∷ target (codes "/concepts") uuid ∷ always_purged uuids

unfoldable pub typed_targets : (url_param : Str) → List Str → List (Str × Str)
typed_targets url_param [] = []
typed_targets url_param (uuid ∷ uuids) =
    target (b'/' ∷ url_param) uuid ∷ typed_targets url_param uuids

-- All the targets, in the order in which they are added.
unfoldable pub purge_targets :
    (uuids : List Str) → (concept_type : Str) → List Str → List (Str × Str)
unfolding always_purged typed_targets
purge_targets uuids concept_type types =
    if contains concept_type types
    then always_purged uuids ++ typed_targets (resolve_concept_type concept_type) uuids
    else always_purged uuids

unfoldable pub purge_result : HttpReply → Res (Unit {0})
purge_result (failed e) = err e
purge_result (response status _) =
    if status == 200
    then ok tt
    else err (codes "request was not successful, status code: " ++ itoa status)

module _ {R : Type 0} (w : World R) where
  -- sendToPurger
  unfoldable pub send_to_purger :
      (base_url : Str) → (uuids : List Str) → (concept_type : Str) → List Str → M (Unit {0})
  unfolding purge_result
  send_to_purger base_url uuids concept_type types = do
    let url = trim_right base_url (codes "/") ++ codes "/purge"
    query ← lift (w.new_request (codes "POST") url)
    let request : Request = record {
      method = codes "POST";
      url = url;
      query = query ++ purge_targets uuids concept_type types;
      headers = [];
      body = [];
    }
    reply ← perform (Call.http request) (λ log. w.http_do log request)
    lift (purge_result reply)
