-- ===== src/Concept/Gather/Steady.antt =====
-- The reads of getConcordedConcept from stores that do not change meanwhile (concept/service.go).
use mathlib.Core.Path.{fun_ext}
use aggregate_concept_transf.Common.{
  List, [], ◌∷◌, ◌++◌, ◌≡◌, refl, sym, ap, ◌∙◌, Bool-cases, inl, inr, arith,
}
use aggregate_concept_transf.Text.{Str, codes, str_eq, is_empty}
use aggregate_concept_transf.Effects.{
  Res, ok, err, panic, Log, Request, Call, Res-cases, bind, perform,
}
use aggregate_concept_transf.Effects.Gives.{Gives, >>=-Gives, perform-Gives, Gives-same}
use aggregate_concept_transf.World.{
  SourceConcept, ConcordanceRecord, World, S3Reply, aws_error, other_error, object,
}
use aggregate_concept_transf.S3.{by_reply, get_concept_and_transaction_id}
use aggregate_concept_transf.S3
use aggregate_concept_transf.Concordances.{RwClient, make_request, get_concordance}
use aggregate_concept_transf.Concept.Buckets.{Buckets}
use aggregate_concept_transf.Concept.Service.{AggregateService}
use aggregate_concept_transf.Concept.Gather.{
  fetch, Gathered, source_or_thing, gather_record, gather_records, gather_buckets,
}
use aggregate_concept_transf.Concept.Gather.Reads.{gather_buckets-skip, gather_buckets-keep}
use aggregate_concept_transf.Concept.Gather.Contents.{with_authority, tagged}

-- The concordances and the stores answer a request in the same way whatever was asked before.
pub record Steady {R : Type 0} (w : World R) : Type 0 where
  pub http_steady : (log : Log) (req : Request) → w.http_do log req ≡ w.http_do [] req
  pub get_steady :
      (log : Log) (bucket key : Str)
      → w.s3_get_object log bucket key ≡ w.s3_get_object [] bucket key
  pub head_steady :
      (log : Log) (bucket key : Str)
      → w.s3_head_object log bucket key ≡ w.s3_head_object [] bucket key

bind_assoc {ℓ} :
    {A B C : Type ℓ} (r : Res A) (f : A → Res B) (g : B → Res C)
    → bind (bind r f) g ≡ bind r λ a. bind (f a) g
bind_assoc (ok a) f g = refl
bind_assoc (err e) f g = refl
bind_assoc panic f g = refl

module _ {R : Type 0} (w : World R) (steady : Steady w) where
  by_reply-Gives :
      (bucket key : Str) (reply : S3Reply)
      → Gives (by_reply w bucket key reply) (by_reply w bucket key reply []).0
  unfolding by_reply
  by_reply-Gives bucket key (aws_error code text) log = ground arith
  by_reply-Gives bucket key (other_error text) log = refl
  by_reply-Gives bucket key (object body) log = rw steady.head_steady refl

  get_concept-Gives :
      (c : S3.Client) (publication uuid : Str) (log : Log)
      → Gives
          (get_concept_and_transaction_id w c publication uuid)
          (get_concept_and_transaction_id w c publication uuid log).0
  unfolding get_concept_and_transaction_id
  get_concept-Gives c publication uuid log =
      let key = S3.object_key publication uuid in
      let bucket = c.bucket_name in
      Gives-same (get_concept_and_transaction_id w c publication uuid) _ log (
        >>=-Gives (perform (Call.s3_get bucket key) (λ log. w.s3_get_object log bucket key))
          (by_reply w bucket key) (ok (w.s3_get_object [] bucket key))
          (λ reply. (by_reply w bucket key reply []).0)
          (perform-Gives (Call.s3_get bucket key) _ _ (λ log. steady.get_steady log bucket key))
          (by_reply-Gives bucket key))

  make_request-Gives :
      (c : RwClient) (method path body bookmark : Str) (log : Log)
      → Gives
          (make_request w c method path body bookmark)
          (make_request w c method path body bookmark log).0
  unfolding make_request
  make_request-Gives c method path body bookmark log log' =
      elim (Res-cases (w.new_request method (w.extend_path c.address path))) [
        | inl (query, e) ↦ rw (e, steady.http_steady log', steady.http_steady log) refl
        | inr rest ↦ elim rest [ inl (_, e) ↦ rw e refl | inr e ↦ rw e refl ]
      ]

  pub get_concordance-Gives :
      (c : RwClient) (uuid bookmark : Str) (log : Log)
      → Gives (get_concordance w c uuid bookmark) (get_concordance w c uuid bookmark log).0
  unfolding get_concordance
  get_concordance-Gives c uuid bookmark log = Gives-same (get_concordance w c uuid bookmark) _ log (
      >>=-Gives (make_request w c (codes "GET") (codes "/concordances/" ++ uuid) [] bookmark) _ _ _
        (make_request-Gives c (codes "GET") (codes "/concordances/" ++ uuid) [] bookmark log)
        (λ reply log. refl))

  module _ (s : AggregateService) where
    pub fetch-Gives :
        (publication uuid : Str) (log : Log)
        → Gives (fetch w s publication uuid) (fetch w s publication uuid log).0
    unfolding fetch
    fetch-Gives publication uuid log = elim (Bool-cases (is_empty publication)) [
      | inl e ↦ rw e (get_concept-Gives s.n_store [] uuid log)
      | inr e ↦ rw e (get_concept-Gives s.external_normalised_store publication uuid log)
    ]

    -- The source for a record, and the transaction of its object.
    abbrev pub source_answer :
        (publication : Str) → Str × ConcordanceRecord → Res (SourceConcept R × Str)
    source_answer publication (authority, conc) =
        bind (fetch w s publication conc.uuid []).0
          λ (found, concept, tid). ok (source_or_thing w s authority conc found concept, tid)

    -- The loops over the buckets without their log.
    abbrev pub gather_entries :
        (publication : Str) → List (Str × ConcordanceRecord) → Gathered w s → Res (Gathered w s)
    gather_entries publication [] gathered = ok gathered
    gather_entries publication (entry ∷ entries) gathered =
        bind (source_answer publication entry)
          λ (source, tid). gather_entries publication entries (gathered.0 ++ source ∷ [], tid)

    gather_entries-append :
        (publication : Str) (xs ys : List (Str × ConcordanceRecord)) (gathered : Gathered w s)
        → gather_entries publication (xs ++ ys) gathered
          ≡ bind (gather_entries publication xs gathered) (gather_entries publication ys)
    gather_entries-append publication [] ys gathered = refl
    gather_entries-append publication (x ∷ xs) ys gathered =
        ap (bind (source_answer publication x))
          (fun_ext λ a. gather_entries-append publication xs ys (gathered.0 ++ a.0 ∷ [], a.1))
        ∙ sym (bind_assoc (source_answer publication x) _ _)

    gather_record-Gives :
        (authority publication : Str) (conc : ConcordanceRecord) (gathered : Gathered w s)
        → Gives
            (gather_record w s authority publication conc gathered)
            (gather_entries publication ((authority, conc) ∷ []) gathered)
    unfolding gather_record
    gather_record-Gives authority publication conc gathered log =
        >>=-Gives (fetch w s publication conc.uuid) _ _
          (λ reply.
            ok (gathered.0 ++ source_or_thing w s authority conc reply.0 reply.1 ∷ [], reply.2))
          (fetch-Gives publication conc.uuid []) (λ reply log. refl) log
        ∙ sym (bind_assoc (fetch w s publication conc.uuid []).0 _ _)

    gather_records-Gives :
        (authority publication : Str) (records : List ConcordanceRecord) (gathered : Gathered w s)
        → Gives
            (gather_records w s authority publication records gathered)
            (gather_entries publication (with_authority authority records) gathered)
    unfolding gather_records
    gather_records-Gives authority publication [] gathered log = refl
    gather_records-Gives authority publication (conc ∷ records) gathered log =
        >>=-Gives (gather_record w s authority publication conc gathered) _ _ _
          (gather_record-Gives authority publication conc gathered)
          (gather_records-Gives authority publication records) log
        ∙ sym (
            gather_entries-append publication ((authority, conc) ∷ [])
              (with_authority authority records) gathered)

    -- In a steady world the loop over the buckets is the loop without a log.
    pub gather_buckets-Gives :
        (primary publication : Str) (buckets : Buckets) (gathered : Gathered w s)
        → Gives
            (gather_buckets w s primary publication buckets gathered)
            (gather_entries publication (tagged primary buckets) gathered)
    unfolding gather_buckets
    gather_buckets-Gives primary publication [] gathered log = refl
    gather_buckets-Gives primary publication ((authority, records) ∷ buckets) gathered log =
        elim (Bool-cases (str_eq authority primary)) [
          | inl e ↦
              let skip =
                gather_buckets-skip w s primary publication authority records buckets gathered e in
              rw (e, skip) (gather_buckets-Gives primary publication buckets gathered log)
          | inr e ↦
              let keep =
                gather_buckets-keep w s primary publication authority records buckets gathered e in
              rw (e, keep)
                (>>=-Gives (gather_records w s authority publication records gathered) _ _ _
                    (gather_records-Gives authority publication records gathered)
                    (gather_buckets-Gives primary publication buckets) log
                  ∙ sym (
                      gather_entries-append publication (with_authority authority records)
                        (tagged primary buckets) gathered))
        ]
