-- ===== src/Concept/Process/Steps.antt =====
-- Each operation of ProcessMessage carries out its step of the plan (concept/service.go,
-- sns/client.go, kinesis/client.go).
use aggregate_concept_transf.Common.{
  List, [], ◌∷◌, ◌++◌, Bool, true, false, ◌≡◌, refl, inl, inr, subst, sym, ap, ◌∙◌,
}
use aggregate_concept_transf.Text.{Str, codes, trim_right}
use aggregate_concept_transf.Effects.{Res, ok, Log, ◌>>=◌, lift, Res-cases, Request, ok-injective}
use aggregate_concept_transf.World.{CanonicalConcept, Event, World}
use aggregate_concept_transf.Kinesis.{add_record_to_stream}
use aggregate_concept_transf.Sns.{publish_events, batch_entries}
use aggregate_concept_transf.Concept.Service.{AggregateService}
use aggregate_concept_transf.Concept.Paths.{resolve_concept_type}
use aggregate_concept_transf.Concept.Writer.{send_to_writer, create_write_request, write_url}
use aggregate_concept_transf.Concept.Purger.{send_to_purger}
use aggregate_concept_transf.Concept.Process
use aggregate_concept_transf.Concept.Process.{
  ignore, write, write_to_elastic, is_type_allowed_in_elastic, person_of, purge_person, purge_all,
  propagate,
}
use aggregate_concept_transf.Concept.Process.Plan.{
  Step, put, purge, publish, notify, puts, purges, publishes, notifies, Runs, complete, stopped,
  performed, unsent, Follows, is_ok,
}

module _ {R : Type 0} (w : World R) (s : AggregateService) where
  Runs-last : (b : Bool) → Runs w s [] [] b
  Runs-last true = complete
  Runs-last false = stopped

  pub nothing_done :
      {A : Type 0} {plan : List (Step R)} {log : Log} (r : Res A)
      → is_ok r ≡ false
      → Follows w s plan log (r, log)
  nothing_done r h = record { calls = []; logged = refl; runs = rw h stopped }

  create_write_request-ok :
      (url body tid : Str) (req : Request)
      → create_write_request w url body tid ≡ ok req
      → (req.method ≡ codes "PUT")
        × (req.url ≡ url)
        × (req.headers ≡ (codes "X-Request-Id", tid) ∷ [])
        × (req.body ≡ body)
  unfolding create_write_request
  create_write_request-ok url body tid req h = elim (Res-cases (w.new_request (codes "PUT") url)) [
    | inl (query, f) ↦ made query (rw (f, create_write_request) at h)
    | inr (inl (_, f)) ↦ cc
    | inr (inr f) ↦ cc
  ]
    where
      made :
          (query : List (Str × Str))
          → ok (record {
            method = codes "PUT";
            url = url;
            query = query;
            headers = (codes "X-Request-Id", tid) ∷ [];
            body = body;
          })
            ≡ ok req
          → (req.method ≡ codes "PUT")
            × (req.url ≡ url)
            × (req.headers ≡ (codes "X-Request-Id", tid) ∷ [])
            × (req.body ≡ body)
      made query e =
          subst
            (λ r.
              (r.method ≡ codes "PUT")
              × (r.url ≡ url)
              × (r.headers ≡ (codes "X-Request-Id", tid) ∷ [])
              × (r.body ≡ body))
            (ok-injective e) (refl, refl, refl, refl)

  pub write-Follows :
      (address : Str) (concept : CanonicalConcept R) (tid : Str) (log : Log)
      → Follows w s (put address concept tid ∷ []) log (write w s address concept tid log)
  unfolding write send_to_writer
  write-Follows address concept tid log = elim (Res-cases (w.marshal_concept concept)) [
    | inl (body, e) ↦
        let url = write_url address (resolve_concept_type concept.concept_type) concept.pref_uuid in
        elim (Res-cases (create_write_request w url body tid)) [
          | inl (req, f) ↦
              let (method, path, headers, content) = create_write_request-ok url body tid req f in
              rw (e, f)
                (record {
                  calls = _ ∷ [];
                  logged = refl;
                  runs =
                      performed (puts method path headers (e ∙ ap ok (sym content))) (Runs-last _);
                })
          | inr (inl (_, f)) ↦ rw (e, f) (nothing_done _ refl)
          | inr (inr f) ↦ rw (e, f) (nothing_done _ refl)
        ]
    | inr (inl (_, e)) ↦ rw e (nothing_done _ refl)
    | inr (inr e) ↦ rw e (nothing_done _ refl)
  ]

  -- A purge makes its call, or none where no request can be made; its error is dropped.
  pub purge-Follows :
      (uuids : List Str) (concept_type : Str) (log : Log)
      → Follows w s
          (purge uuids concept_type ∷ [])
          log
          (ignore (Process.purge w s uuids concept_type) log)
  unfolding Process.purge send_to_purger
  purge-Follows uuids concept_type log = elim (Res-cases (w.new_request (codes "POST") url)) [
    | inl (query, e) ↦ rw e (record {
      calls = _ ∷ [];
      logged = refl;
      runs = performed (purges query refl refl refl) (Runs-last _);
    })
    | inr (inl (_, e)) ↦ rw e (record { calls = []; logged = refl; runs = unsent complete })
    | inr (inr e) ↦ rw e (nothing_done _ refl)
  ]
    where
      url : Str
      url = trim_right s.varnish_purger_address (codes "/") ++ codes "/purge"

  pub publish-Follows :
      (events : List (Event R)) (log : Log)
      → Follows w s (publish events ∷ []) log (publish_events w s.events_sns events log)
  unfolding publish_events
  publish-Follows events log = elim (Res-cases (batch_entries w 0 events)) [
    | inl (entries, e) ↦
        rw e
          (record { calls = _ ∷ []; logged = refl; runs = performed (publishes e) (Runs-last _) })
    | inr (inl (_, e)) ↦ rw e (nothing_done _ refl)
    | inr (inr e) ↦ rw e (nothing_done _ refl)
  ]

  pub notify-Follows :
      (ids : List Str) (concept_type : Str) (log : Log)
      → Follows w s (notify ids concept_type ∷ []) log (
          (lift (w.marshal_ids ids) >>= λ raw_ids.
          add_record_to_stream w s.kinesis raw_ids concept_type)
            log)
  unfolding add_record_to_stream
  notify-Follows ids concept_type log = elim (Res-cases (w.marshal_ids ids)) [
    | inl (bytes, e) ↦
        rw e (record { calls = _ ∷ []; logged = refl; runs = performed (notifies e) (Runs-last _) })
    | inr (inl (_, e)) ↦ rw e (nothing_done _ refl)
    | inr (inr e) ↦ rw e (nothing_done _ refl)
  ]
