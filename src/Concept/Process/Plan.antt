-- ===== src/Concept/Process/Plan.antt =====
-- The calls that an update makes, as a plan of steps and runs of it (ProcessMessage of
-- concept/service.go). A run is complete, or it stops somewhere; a purge alone may be left out,
-- where no request can be made for it.
use aggregate_concept_transf.Common.{
  List, [], ◌∷◌, ◌++◌, append-nil, Bool, true, false, ◌≡◌, refl, ap, sym, ◌∙◌,
}
use aggregate_concept_transf.Text.{Str, codes, trim_right}
use aggregate_concept_transf.Effects.{
  Res, ok, err, panic, Request, BatchEntry, Call, Log, M, continue, ◌>>=◌,
}
use aggregate_concept_transf.World.{CanonicalConcept, Event, World}
use aggregate_concept_transf.Sns.{batch_entries}
use aggregate_concept_transf.Concept.Service.{AggregateService}
use aggregate_concept_transf.Concept.Paths.{resolve_concept_type}
use aggregate_concept_transf.Concept.Writer.{write_url}
use aggregate_concept_transf.Concept.Purger.{purge_targets}
use aggregate_concept_transf.Concept.Gather.Reads.{rev_onto, rev_onto-append}

-- A step of an update: a write to one of the writers, the purge of some concepts, the publication
-- of events, the notification of the stream.
pub data Step (R : Type 0) : Type 0 where
  put : (address : Str) → CanonicalConcept R → (transaction_id : Str) → Step R
  purge : (uuids : List Str) → (concept_type : Str) → Step R
  publish : List (Event R) → Step R
  notify : (ids : List Str) → (concept_type : Str) → Step R

abbrev pub is_ok {ℓ} : {A : Type ℓ} → Res A → Bool
is_ok (ok _) = true
is_ok (err _) = false
is_ok panic = false

module _ {R : Type 0} (w : World R) (s : AggregateService) where
  -- The call that carries out a step.
  pub data Performs : Step R → Call → Type 0 where
    puts :
        {address : Str} {concept : CanonicalConcept R} {transaction_id : Str} {req : Request}
        → req.method ≡ codes "PUT"
        → req.url ≡ write_url address (resolve_concept_type concept.concept_type) concept.pref_uuid
        → req.headers ≡ (codes "X-Request-Id", transaction_id) ∷ []
        → w.marshal_concept concept ≡ ok req.body
        → Performs (put address concept transaction_id) (Call.http req)
    purges :
        {uuids : List Str} {concept_type : Str} {req : Request} (query : List (Str × Str))
        → req.method ≡ codes "POST"
        → req.url ≡ trim_right s.varnish_purger_address (codes "/") ++ codes "/purge"
        → req.query
          ≡ query ++ purge_targets uuids concept_type s.types_to_purge_from_public_endpoints
        → Performs (purge uuids concept_type) (Call.http req)
    publishes :
        {events : List (Event R)} {entries : List BatchEntry}
        → batch_entries w 0 events ≡ ok entries
        → Performs (publish events) (Call.sns_publish_batch s.events_sns.topic_arn entries)
    notifies :
        {ids : List Str} {concept_type bytes : Str}
        → w.marshal_ids ids ≡ ok bytes
        → Performs
            (notify ids concept_type)
            (Call.kinesis_put s.kinesis.stream_name concept_type bytes)

  -- Calls, in the order in which they are made, that follow a plan: to its end (`true`), or up to
  -- some step (`false`).
  pub data Runs : List (Step R) → List Call → Bool → Type 0 where
    complete : Runs [] [] true
    stopped : {plan : List (Step R)} → Runs plan [] false
    performed :
        {step : Step R} {call : Call} {plan : List (Step R)} {calls : List Call} {b : Bool}
        → Performs step call
        → Runs plan calls b
        → Runs (step ∷ plan) (call ∷ calls) b
    unsent :
        {uuids : List Str} {concept_type : Str} {plan : List (Step R)} {calls : List Call}
        {b : Bool}
        → Runs plan calls b
        → Runs (purge uuids concept_type ∷ plan) calls b

  Runs-append :
      {p q : List (Step R)} {xs ys : List Call} {b : Bool}
      → Runs p xs true
      → Runs q ys b
      → Runs (p ++ q) (xs ++ ys) b
  Runs-append complete r = r
  Runs-append (performed h p) r = performed h (Runs-append p r)
  Runs-append (unsent p) r = unsent (Runs-append p r)

  Runs-prefix :
      {p : List (Step R)} (q : List (Step R)) {xs : List Call}
      → Runs p xs false
      → Runs (p ++ q) xs false
  Runs-prefix q stopped = stopped
  Runs-prefix q (performed h p) = performed h (Runs-prefix q p)
  Runs-prefix q (unsent p) = unsent (Runs-prefix q p)

  -- From `log`, the outcome has made calls that follow the plan, to its end if it is no error.
  pub record Follows {A : Type 0} (plan : List (Step R)) (log : Log) (outcome : Res A × Log)
      : Type 0 where
    pub calls : List Call
    pub logged : outcome.1 ≡ rev_onto calls log
    pub runs : Runs plan calls (is_ok outcome.0)

  pub Follows-lift : {A : Type 0} (r : Res A) (log : Log) → Follows [] log (r, log)
  Follows-lift (ok a) log = record { calls = []; logged = refl; runs = complete }
  Follows-lift (err e) log = record { calls = []; logged = refl; runs = stopped }
  Follows-lift panic log = record { calls = []; logged = refl; runs = stopped }

  -- The plan that a result calls for: none after an error.
  abbrev pub then_plan : {A : Type 0} → (A → List (Step R)) → Res A → List (Step R)
  then_plan q (ok a) = q a
  then_plan q (err _) = []
  then_plan q panic = []

  Follows-continue :
      {A B : Type 0} {p : List (Step R)} {log : Log} (q : A → List (Step R)) (r : Res A)
      (log' : Log) (f : A → M B)
      → Follows p log (r, log')
      → ((a : A) → Follows (q a) log' (f a log'))
      → Follows (p ++ then_plan q r) log (continue r f log')
  Follows-continue {log} q (ok a) log' f m k =
      let n = k a in
      record {
        calls = m.calls ++ n.calls;
        logged =
            n.logged ∙ ap (rev_onto n.calls) m.logged ∙ sym (rev_onto-append m.calls n.calls log);
        runs = Runs-append m.runs n.runs;
      }
  Follows-continue q (err e) log' f m k = record {
    calls = m.calls;
    logged = m.logged;
    runs = Runs-prefix [] m.runs;
  }
  Follows-continue q panic log' f m k = record {
    calls = m.calls;
    logged = m.logged;
    runs = Runs-prefix [] m.runs;
  }

  -- One step after another, where the second plan depends on what the first step gives.
  pub Follows->>=_then :
      {A B : Type 0} {p : List (Step R)} (q : A → List (Step R)) (log : Log) (m : M A) (f : A → M B)
      → Follows p log (m log)
      → ((a : A) (log' : Log) → Follows (q a) log' (f a log'))
      → Follows (p ++ then_plan q (m log).0) log ((m >>= f) log)
  Follows->>=_then q log m f h k = Follows-continue q (m log).0 (m log).1 f h (λ a. k a (m log).1)

  Follows-extend :
      {A B : Type 0} (p q : List (Step R)) {log : Log} (r : Res A) (log' : Log) (f : A → M B)
      → Follows (p ++ then_plan (λ _. q) r) log (continue r f log')
      → Follows (p ++ q) log (continue r f log')
  Follows-extend p q (ok a) log' f h = h
  Follows-extend p q (err e) log' f h = record {
    calls = h.calls;
    logged = h.logged;
    runs = Runs-prefix q (rw append-nil at h.runs);
  }
  Follows-extend p q panic log' f h = record {
    calls = h.calls;
    logged = h.logged;
    runs = Runs-prefix q (rw append-nil at h.runs);
  }

  -- One step after another: the plans follow one another.
  pub Follows->>= :
      {A B : Type 0} {p q : List (Step R)} (log : Log) (m : M A) (f : A → M B)
      → Follows p log (m log)
      → ((a : A) (log' : Log) → Follows q log' (f a log'))
      → Follows (p ++ q) log ((m >>= f) log)
  Follows->>= {p} {q} log m f h k =
      Follows-extend p q (m log).0 (m log).1 f (Follows->>=_then (λ _. q) log m f h k)
