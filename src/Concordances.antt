-- ===== src/Concordances.antt =====
-- Package concordances (concordances/client.go): the client of concordances-rw-neo4j.
use aggregate_concept_transf.Common.{none, some, ℕ, List, [], ◌∷◌, ◌++◌, ◌==◌, if◌then◌else◌}
use aggregate_concept_transf.Text.{Str, codes, is_empty}
use aggregate_concept_transf.Effects.{
  Res, ok, err, Request, Call, Log, M, ◌>>=◌, return, fail, lift, perform,
}
use aggregate_concept_transf.Effects
use aggregate_concept_transf.World.{ConcordanceRecord, HttpReply, failed, response, Setup, World}

-- RWClient: the parsed address is kept as its text.
pub record RwClient : Type 0 where
  pub address : Str

-- if bookmark != "" { req.Header.Add("bookmark", bookmark) }
unfoldable pub bookmark_header : Str → List (Str × Str)
bookmark_header bookmark = if is_empty bookmark then [] else (codes "bookmark", bookmark) ∷ []

unfoldable pub read_response : HttpReply → Res (Str × ℕ)
read_response (failed e) = err e
read_response (response status body) = Effects.bind body (λ b. ok (b, status))

-- NewClient; the timeout of its HTTP client is the world's.
unfoldable pub new_client : Setup → (address : Str) → Res RwClient
new_client setup address = elim (setup.parse_url address) [
  | none ↦ ok (record { address = address })
  | some e ↦ err e
]

module _ {R : Type 0} (w : World R) (c : RwClient) where
  -- (*RWClient).makeRequest: the body and the status of the reply.
  unfoldable pub make_request : (method path body bookmark : Str) → M (Str × ℕ)
  unfolding read_response bookmark_header is_empty
  make_request method path body bookmark = do
    let url = w.extend_path c.address path
    query ← lift (w.new_request method url)
    let req : Request = record {
      method = method;
      url = url;
      query = query;
      headers = bookmark_header bookmark;
      body = body;
    }
    reply ← perform (Call.http req) (λ log. w.http_do log req)
    lift (read_response reply)

  -- The record that stands for a concept without concordances.
  abbrev pub solo_record : Str → ConcordanceRecord
  solo_record uuid = record { uuid = uuid; authority = codes "Smartlogic"; authority_value = [] }

  by_status : Str → Str × ℕ → Res (List ConcordanceRecord)
  by_status uuid (body, status) =
      if status == 404
      then ok (solo_record uuid ∷ [])
      else if status == 200
      then w.unmarshal_concordances body
      else err (codes "invalid status response")

  -- (*RWClient).GetConcordance
  unfoldable pub get_concordance : (uuid bookmark : Str) → M (List ConcordanceRecord)
  unfolding make_request by_status
  get_concordance uuid bookmark = do
    reply ← make_request (codes "GET") (codes "/concordances/" ++ uuid) [] bookmark
    lift (by_status uuid reply)

  unfoldable pub gtg_result : Res (Str × ℕ) → Res (Unit {0})
  gtg_result (ok (body, status)) =
      if status == 200 then ok tt else err (codes "bad status from gtg for concordances-rw-neo4j")
  gtg_result (err e) = err (codes "failed to request gtg from concordances-rw-neo4j")
  gtg_result Res.panic = Res.panic

  -- The Checker of (*RWClient).Healthcheck.
  unfoldable pub check_concordances : M (Unit {0})
  unfolding make_request gtg_result
  check_concordances log =
      let (r, log') = make_request (codes "GET") (codes "/__gtg") [] [] log in (gtg_result r, log')
