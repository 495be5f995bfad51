-- ===== src/Concept/Writer.antt =====
-- sendToWriter and createWriteRequest of concept/service.go: writing a concept to Neo4j or to
-- Elasticsearch.
pub mod Replies
use aggregate_concept_transf.Common.{ℕ, [], ◌∷◌, ◌++◌, ◌/◌, not, ◌&&◌, ◌==◌, if◌then◌else◌}
use aggregate_concept_transf.Text.{Str, codes, contains_text, trim_right}
use aggregate_concept_transf.Text.Itoa.{itoa}
use aggregate_concept_transf.Effects.{Res, ok, err, panic, Request, Call, M, ◌>>=◌, lift, perform}
use aggregate_concept_transf.Effects
use aggregate_concept_transf.World.{
  CanonicalConcept, ConceptChanges, HttpReply, failed, response, World,
}

-- reqURL of createWriteRequest
unfoldable pub write_url : (base_url url_param uuid : Str) → Str
write_url base_url url_param uuid =
    trim_right base_url (codes "/") ++ b'/' ∷ (url_param ++ b'/' ∷ uuid)

module _ {R : Type 0} (w : World R) where
  -- sns.ConceptChanges{}
  abbrev pub no_changes : ConceptChanges R
  no_changes = record { changed_records = []; updated_ids = [] }

  -- createWriteRequest, with the error that sendToWriter puts in place of its own
  unfoldable pub create_write_request : (url body transaction_id : Str) → Res Request
  create_write_request url body transaction_id = elim (w.new_request (codes "PUT") url) [
    | ok query ↦ ok (record {
      method = codes "PUT";
      url = url;
      query = query;
      headers = (codes "X-Request-Id", transaction_id) ∷ [];
      body = body;
    })
    | err _ ↦ err (codes "Failed to create request to " ++ (url ++ (codes " with body " ++ body)))
    | panic ↦ panic
  ]

  -- The changes are read from the body of a writer whose address names neo4j, at a status 2xx.
  unfoldable pub read_changes : (base_url : Str) → ℕ → Res Str → Res (ConceptChanges R)
  read_changes base_url status body =
      if contains_text base_url (codes "neo4j") && status / 100 == 2
      then w.decode_changes body
      else ok no_changes

  unfoldable pub check_status :
      (base_url url uuid : Str) → ℕ → ConceptChanges R → Res (ConceptChanges R)
  check_status base_url url uuid status changes =
      if status == 404 && contains_text base_url (codes "elastic")
      then ok changes
      else if not (status == 200) && not (status == 304)
      then err (
          codes "Request to "
          ++ (url
              ++ (codes " returned status: " ++ (itoa status ++ (codes "; skipping " ++ uuid)))))
      else ok changes

  unfoldable pub write_result : (base_url url uuid : Str) → HttpReply → Res (ConceptChanges R)
  unfolding read_changes check_status
  write_result base_url url uuid (failed e) = err e
  write_result base_url url uuid (response status body) =
      Effects.bind (read_changes base_url status body)
        λ changes. check_status base_url url uuid status changes

  -- sendToWriter
  unfoldable pub send_to_writer :
      (base_url url_param concept_uuid transaction_id : Str)
      → CanonicalConcept R
      → M (ConceptChanges R)
  unfolding create_write_request write_result
  send_to_writer base_url url_param concept_uuid transaction_id concept = do
    body ← lift (w.marshal_concept concept)
    let url = write_url base_url url_param concept_uuid
    request ← lift (create_write_request url body transaction_id)
    reply ← perform (Call.http request) (λ log. w.http_do log request)
    lift (write_result base_url url concept_uuid reply)
