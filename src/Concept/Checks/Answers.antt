-- ===== src/Concept/Checks/Answers.antt =====
-- When a health check passes: what the system that it looks at has answered.
use aggregate_concept_transf.Common.{
  ℕ, List, [], false≢true, ap, ◌∙◌, Bool, true, false, ◌==◌, ==_iff, Option, none, some, ◌≡◌, refl,
  sym, subst, ◌↔◌, if◌then◌else◌,
}
use aggregate_concept_transf.Text.{Str, codes}
use aggregate_concept_transf.Effects.{
  Res, ok, err, panic, Request, Log, M, continue, ok-injective, nil_or_error,
}
use aggregate_concept_transf.World.{HttpReply, failed, response, World}
use aggregate_concept_transf.Concordances.{
  RwClient, check_concordances, make_request, gtg_result, read_response,
}
use aggregate_concept_transf.Concept.Service.{AggregateService}
use aggregate_concept_transf.Concept.Checks.{
  Check, s3_bucket, concordance_store, sqs_queue, elasticsearch_writer, neo4j_writer,
  varnish_purger, kinesis_stream, gtg_reply, neo_gtg_url, varnish_gtg_url, elasticsearch_gtg_url,
  check_gtg, check_call, run_check,
}

-- A GET of the URL without headers and body.
abbrev pub gtg_request : (url : Str) → List (Str × Str) → Request
gtg_request url query = record {
  method = codes "GET";
  url = url;
  query = query;
  headers = [];
  body = [];
}

module _ {R : Type 0} (w : World R) (log : Log) where
  -- The URL is well formed, and a GET of it is answered with status 200.
  abbrev pub Answers200 : (url : Str) → Type 0
  Answers200 url =
      (query : List (Str × Str)) × ((w.new_request (codes "GET") url ≡ ok query)
        × ((body : Res Str) × (w.http_do log (gtg_request url query) ≡ response 200 body)))

  -- So it is, and the body can be read.
  abbrev pub AnswersText200 : (url : Str) → Type 0
  AnswersText200 url =
      (query : List (Str × Str)) × ((w.new_request (codes "GET") url ≡ ok query)
        × ((text : Str) × (w.http_do log (gtg_request url query) ≡ response 200 (ok text))))

  -- What each check is there for.
  abbrev pub Passes : AggregateService → Check → Type 0
  Passes s (s3_bucket c) = w.s3_head_bucket_error log c.bucket_name ≡ none
  Passes s concordance_store =
      AnswersText200 (w.extend_path s.concordances.address (codes "/__gtg"))
  Passes s sqs_queue = w.sqs_attributes_error log s.concept_updates_sqs.queue_url ≡ none
  Passes s elasticsearch_writer = Answers200 (elasticsearch_gtg_url s.elasticsearch_writer_address)
  Passes s neo4j_writer = Answers200 (neo_gtg_url s.neo_writer_address)
  Passes s varnish_purger = Answers200 (varnish_gtg_url s.varnish_purger_address)
  Passes s kinesis_stream = w.kinesis_describe_error log s.kinesis.stream_name ≡ none

nil_or_error_iff : (reply : Option Str) → (nil_or_error reply ≡ ok tt) ↔ (reply ≡ none)
unfolding nil_or_error
nil_or_error_iff none = (λ h. refl, λ h. refl)
nil_or_error_iff (some e) = (λ h. cc, λ h. cc)

by_status_iff :
    (status : ℕ) (b : Bool) (e : Str)
    → (status == 200) ≡ b
    → (◌≡◌ {A = Res (Unit {0})} (if b then ok tt else err e) (ok tt)) ↔ (status ≡ 200)
by_status_iff status true e h = (λ _. (==_iff status 200).0 h, λ _. refl)
by_status_iff status false e h =
    (λ bad. cc, λ k. absurd (false≢true (sym h ∙ (==_iff status 200).1 k)))

response_status :
    (status : ℕ) (body b : Res Str) → response status body ≡ response 200 b → status ≡ 200
response_status status body b h = cc

gtg_reply_iff :
    (who url : Str) (reply : HttpReply)
    → (gtg_reply who url reply ≡ ok tt) ↔ ((body : Res Str) × (reply ≡ response 200 body))
unfolding gtg_reply
gtg_reply_iff who url (failed e) = (λ h. cc, λ (body, h). cc)
gtg_reply_iff who url (response status body) =
    let (forth, back) = by_status_iff status (status == 200) _ refl in
    (
      λ h. (body, ap (λ n. response n body) (forth h)),
      λ (b, h). back (response_status status body b h),
    )

continue_iff :
    {A B : Type 0} (r : Res A) (f : A → M B) (log : Log) (b : B)
    → ((continue r f log).0 ≡ ok b) ↔ ((a : A) × ((r ≡ ok a) × ((f a log).0 ≡ ok b)))
continue_iff (ok a) f log b =
    (λ h. (a, (refl, h)), λ (a', (e, h)). subst (λ x. (f x log).0 ≡ ok b) (sym (ok-injective e)) h)
continue_iff (err e) f log b = (λ h. cc, λ (a, (h, _)). cc)
continue_iff panic f log b = (λ h. cc, λ (a, (h, _)). cc)

module _ {R : Type 0} (w : World R) (log : Log) where
  check_gtg-Answers200 :
      (s : AggregateService) (who url : Str)
      → ((check_gtg w s who url log).0 ≡ ok tt) ↔ Answers200 w log url
  unfolding check_gtg
  check_gtg-Answers200 s who url =
      let (forth, back) = continue_iff (w.new_request (codes "GET") url) _ log tt in
      (
        λ h. let (query, (e, k)) = forth h in (query, (e, (gtg_reply_iff who url _).0 k)),
        λ (query, (e, k)). back (query, (e, (gtg_reply_iff who url _).1 k)),
      )

  read_response_iff :
      (c : RwClient) (reply : HttpReply)
      → (gtg_result w c (read_response reply) ≡ ok tt)
        ↔ ((text : Str) × (reply ≡ response 200 (ok text)))
  unfolding gtg_result read_response
  read_response_iff c (failed e) = (λ h. cc, λ (text, h). cc)
  read_response_iff c (response status (ok text)) =
      let (forth, back) = by_status_iff status (status == 200) _ refl in
      (
        λ h. (text, ap (λ n. response n (ok text)) (forth h)),
        λ (t, h). back (response_status status _ _ h),
      )
  read_response_iff c (response status (err e)) = (λ h. cc, λ (text, h). cc)
  read_response_iff c (response status panic) = (λ h. cc, λ (text, h). cc)

  query_iff :
      (c : RwClient) (query : Res (List (Str × Str))) (f : List (Str × Str) → M (Str × ℕ))
      (reply : List (Str × Str) → HttpReply)
      → ((q : List (Str × Str)) → (f q log).0 ≡ read_response (reply q))
      → (gtg_result w c (continue query f log).0 ≡ ok tt) ↔ (
          (q : List (Str × Str)) × ((query ≡ ok q)
            × ((text : Str) × (reply q ≡ response 200 (ok text)))))
  unfolding gtg_result
  query_iff c (ok q) f reply e =
      let (forth, back) = read_response_iff c (reply q) in
      (
        λ h. (q, (refl, forth (ap (gtg_result w c) (sym (e q)) ∙ h))),
        λ (q', (k, t)).
            ap (gtg_result w c) (e q)
            ∙ back (
                subst (λ x. (text : Str) × (reply x ≡ response 200 (ok text)))
                  (sym (ok-injective k)) t),
      )
  query_iff c (err x) f reply e = (λ h. cc, λ (q, (k, _)). cc)
  query_iff c panic f reply e = (λ h. cc, λ (q, (k, _)). cc)

  check_concordances-AnswersText200 :
      (c : RwClient)
      → ((check_concordances w c log).0 ≡ ok tt)
        ↔ AnswersText200 w log (w.extend_path c.address (codes "/__gtg"))
  unfolding check_concordances make_request
  check_concordances-AnswersText200 c =
      query_iff c (w.new_request (codes "GET") (w.extend_path c.address (codes "/__gtg"))) _
        (λ q. w.http_do log (gtg_request (w.extend_path c.address (codes "/__gtg")) q)) (λ q. refl)

  -- A health check succeeds exactly where the system that it is for has answered: a bucket, a queue
  -- or a stream without an error; a writer, the purger or the concordances reader with status 200
  -- to a GET of the check's URL, that of the concordances reader with a body that can be read.
  pub run_check-Passes :
      (s : AggregateService) (check : Check)
      → ((run_check w s check log).0 ≡ ok tt) ↔ Passes w log s check
  unfolding run_check check_call
  run_check-Passes s (s3_bucket c) = nil_or_error_iff (w.s3_head_bucket_error log c.bucket_name)
  run_check-Passes s concordance_store = check_concordances-AnswersText200 s.concordances
  run_check-Passes s sqs_queue =
      nil_or_error_iff (w.sqs_attributes_error log s.concept_updates_sqs.queue_url)
  run_check-Passes s elasticsearch_writer = check_gtg-Answers200 s (codes "writer") _
  run_check-Passes s neo4j_writer = check_gtg-Answers200 s (codes "writer") _
  run_check-Passes s varnish_purger = check_gtg-Answers200 s (codes "purger") _
  run_check-Passes s kinesis_stream =
      nil_or_error_iff (w.kinesis_describe_error log s.kinesis.stream_name)
