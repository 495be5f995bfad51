-- ===== src/Concept/Gather/Calls.antt =====
-- The calls with which a concept is read (concept/service.go, and the clients in
-- concordances/client.go and s3/client.go).
use aggregate_concept_transf.Common.{
  ◌++◌, append_assoc, All, All-append, All-imp, ◌⊎◌, ◌≡◌, sym, ap, ◌∙◌,
}
use aggregate_concept_transf.Text.{Str, codes}
use aggregate_concept_transf.Effects.{Res, ok, err, panic, Call, Log, M, continue}
use aggregate_concept_transf.World.{World}
use aggregate_concept_transf.Concept.Service.{AggregateService}

-- A GET request, or a read of an object or of its metadata.
abbrev pub IsRead : Call → Type 0
IsRead (Call.http req) = req.method ≡ codes "GET"
IsRead (Call.s3_get bucket key) = Unit {0}
IsRead (Call.s3_head bucket key) = Unit {0}
IsRead (Call.s3_head_bucket bucket) = ⊥
IsRead (Call.sqs_receive url max_number) = ⊥
IsRead (Call.sqs_delete url handle) = ⊥
IsRead (Call.sqs_attributes url) = ⊥
IsRead (Call.sns_publish_batch topic entries) = ⊥
IsRead (Call.kinesis_put stream key bytes) = ⊥
IsRead (Call.kinesis_describe stream) = ⊥

-- From one log to another there are only calls with the property.
abbrev pub OnlyCalls : (Call → Type 0) → (log log' : Log) → Type 0
OnlyCalls P log log' = (calls : Log) × All P calls × (log' ≡ calls ++ log)

-- From one log to another there are reads only.
abbrev pub OnlyReads : (log log' : Log) → Type 0
OnlyReads = OnlyCalls IsRead

-- A call that reads a concept: a GET of concordances from their service, or a read of an object or
-- of its metadata in one of the two stores.
abbrev pub IsConceptRead : {R : Type 0} → World R → AggregateService → Call → Type 0
IsConceptRead w s (Call.http req) =
    (req.method ≡ codes "GET")
    × ((uuid : Str) × (req.url
          ≡ w.extend_path s.concordances.address (codes "/concordances/" ++ uuid)))
IsConceptRead w s (Call.s3_get bucket key) =
    (bucket ≡ s.n_store.bucket_name) ⊎ (bucket ≡ s.external_normalised_store.bucket_name)
IsConceptRead w s (Call.s3_head bucket key) =
    (bucket ≡ s.n_store.bucket_name) ⊎ (bucket ≡ s.external_normalised_store.bucket_name)
IsConceptRead w s (Call.s3_head_bucket bucket) = ⊥
IsConceptRead w s (Call.sqs_receive url max_number) = ⊥
IsConceptRead w s (Call.sqs_delete url handle) = ⊥
IsConceptRead w s (Call.sqs_attributes url) = ⊥
IsConceptRead w s (Call.sns_publish_batch topic entries) = ⊥
IsConceptRead w s (Call.kinesis_put stream key bytes) = ⊥
IsConceptRead w s (Call.kinesis_describe stream) = ⊥

IsConceptRead-IsRead :
    {R : Type 0} (w : World R) (s : AggregateService) (call : Call)
    → IsConceptRead w s call
    → IsRead call
IsConceptRead-IsRead w s (Call.http req) (get, _) = get
IsConceptRead-IsRead w s (Call.s3_get bucket key) h = tt
IsConceptRead-IsRead w s (Call.s3_head bucket key) h = tt
IsConceptRead-IsRead w s (Call.s3_head_bucket bucket) h = h
IsConceptRead-IsRead w s (Call.sqs_receive url max_number) h = h
IsConceptRead-IsRead w s (Call.sqs_delete url handle) h = h
IsConceptRead-IsRead w s (Call.sqs_attributes url) h = h
IsConceptRead-IsRead w s (Call.sns_publish_batch topic entries) h = h
IsConceptRead-IsRead w s (Call.kinesis_put stream key bytes) h = h
IsConceptRead-IsRead w s (Call.kinesis_describe stream) h = h

pub OnlyCalls-OnlyReads :
    {R : Type 0} (w : World R) (s : AggregateService) (log log' : Log)
    → OnlyCalls (IsConceptRead w s) log log'
    → OnlyReads log log'
OnlyCalls-OnlyReads w s log log' (calls, h, e) =
    (calls, All-imp (IsConceptRead-IsRead w s) calls h, e)

module _ (P : Call → Type 0) where
  -- Every run makes only calls with the property.
  abbrev pub IsQuiet : {A : Type 0} → M A → Type 0
  IsQuiet m = (log : Log) → OnlyCalls P log (m log).1

  pub continue-OnlyCalls :
      {A B : Type 0} (r : Res A) (f : A → M B) (log log' : Log)
      → OnlyCalls P log log'
      → ((a : A) → IsQuiet (f a))
      → OnlyCalls P log (continue r f log').1
  continue-OnlyCalls (ok a) f log log' (calls, h, e) k =
      let (more, h', e') = k a log' in
      (
        more ++ calls,
        All-append P more calls h' h,
        e' ∙ ap (λ l. more ++ l) e ∙ sym (append_assoc more calls log),
      )
  continue-OnlyCalls (err t) f log log' h k = h
  continue-OnlyCalls panic f log log' h k = h
