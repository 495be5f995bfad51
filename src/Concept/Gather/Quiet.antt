-- ===== src/Concept/Gather/Quiet.antt =====
-- The reading of a concept makes no call that changes anything (concept/service.go, and the clients
-- in concordances/client.go and s3/client.go).
use aggregate_concept_transf.Common.{
  List, [], ◌∷◌, ◌++◌, Option, none, some, ◌≡◌, refl, Bool-cases, inl, inr,
}
use aggregate_concept_transf.Text.{Str, codes, is_empty, str_eq}
use aggregate_concept_transf.Effects.{ok, Request, Call, M, Res-cases}
use aggregate_concept_transf.World.{
  S3Reply, aws_error, other_error, object, ConcordanceRecord, World,
}
use aggregate_concept_transf.Concordances.{RwClient, make_request, get_concordance}
use aggregate_concept_transf.S3
use aggregate_concept_transf.S3.{object_key, by_reply, get_concept_and_transaction_id}
use aggregate_concept_transf.Concept.Buckets.{Buckets, find_bucket, bucket_concordances}
use aggregate_concept_transf.Concept.Identifiers.{extract_identifiers_from_key}
use aggregate_concept_transf.Concept.Service.{AggregateService}
use aggregate_concept_transf.Concept.Gather.{
  fetch, Gathered, gather_record, gather_records, gather_buckets, gather_sources, primary_of_bucket,
  fetch_primary, get_concorded,
}
use aggregate_concept_transf.Concept.Gather.Reads.{gather_buckets-skip, gather_buckets-keep}
use aggregate_concept_transf.Concept.Gather.Calls.{IsConceptRead, IsQuiet, continue-OnlyCalls}

module _ {R : Type 0} (w : World R) (P : Call → Type 0) where
  pub make_request-IsQuiet :
      (c : RwClient) (path body bookmark : Str)
      → ((req : Request)
          → req.method ≡ codes "GET"
          → req.url ≡ w.extend_path c.address path
          → P (Call.http req))
      → IsQuiet P (make_request w c (codes "GET") path body bookmark)
  unfolding make_request
  make_request-IsQuiet c path body bookmark get log =
      elim (Res-cases (w.new_request (codes "GET") (w.extend_path c.address path))) [
        | inl (query, e) ↦ rw e (_ ∷ [], (get _ refl refl, tt), refl)
        | inr (inl (t, e)) ↦ rw e ([], tt, refl)
        | inr (inr e) ↦ rw e ([], tt, refl)
      ]

  by_reply-IsQuiet :
      (bucket key : Str) (reply : S3Reply)
      → P (Call.s3_head bucket key)
      → IsQuiet P (by_reply w bucket key reply)
  unfolding by_reply
  by_reply-IsQuiet bucket key (aws_error code text) head log =
      elim (Bool-cases (str_eq code (codes "NoSuchKey"))) [
        | inl e ↦ rw e ([], tt, refl)
        | inr e ↦ rw e ([], tt, refl)
      ]
  by_reply-IsQuiet bucket key (other_error text) head log = ([], tt, refl)
  by_reply-IsQuiet bucket key (object body) head log = (_ ∷ [], (head, tt), refl)

  get_concept-IsQuiet :
      (c : S3.Client) (publication uuid : Str)
      → ((key : Str) → P (Call.s3_get c.bucket_name key))
      → ((key : Str) → P (Call.s3_head c.bucket_name key))
      → IsQuiet P (get_concept_and_transaction_id w c publication uuid)
  unfolding get_concept_and_transaction_id
  get_concept-IsQuiet c publication uuid get head log =
      let key = object_key publication uuid in
      continue-OnlyCalls P (ok (w.s3_get_object log c.bucket_name key))
        (by_reply w c.bucket_name key) log (Call.s3_get c.bucket_name key ∷ log)
        (Call.s3_get c.bucket_name key ∷ [], (get key, tt), refl)
        λ reply. by_reply-IsQuiet c.bucket_name key reply (head key)

module _ {R : Type 0} (w : World R) (s : AggregateService) where
  abbrev ReadsConcepts : {A : Type 0} → M A → Type 0
  ReadsConcepts m = IsQuiet (IsConceptRead w s) m

  get_concordance-IsQuiet :
      (uuid bookmark : Str) → ReadsConcepts (get_concordance w s.concordances uuid bookmark)
  unfolding get_concordance
  get_concordance-IsQuiet uuid bookmark log =
      let path = codes "/concordances/" ++ uuid in
      continue-OnlyCalls (IsConceptRead w s)
        (make_request w s.concordances (codes "GET") path [] bookmark log).0 _ log _
        (make_request-IsQuiet w (IsConceptRead w s) s.concordances path [] bookmark
          (λ req get url. (get, (uuid, url))) log)
        λ reply log'. ([], tt, refl)

  fetch-IsQuiet : (publication uuid : Str) → ReadsConcepts (fetch w s publication uuid)
  unfolding fetch
  fetch-IsQuiet publication uuid log = elim (Bool-cases (is_empty publication)) [
    | inl e ↦ rw e (
        get_concept-IsQuiet w (IsConceptRead w s) s.n_store [] uuid (λ key. inl refl)
          (λ key. inl refl) log)
    | inr e ↦ rw e (
        get_concept-IsQuiet w (IsConceptRead w s) s.external_normalised_store publication uuid
          (λ key. inr refl) (λ key. inr refl) log)
  ]

  gather_records-IsQuiet :
      (authority publication : Str) (records : List ConcordanceRecord) (gathered : Gathered w s)
      → ReadsConcepts (gather_records w s authority publication records gathered)
  unfolding gather_records gather_record
  gather_records-IsQuiet authority publication [] gathered log = ([], tt, refl)
  gather_records-IsQuiet authority publication (conc ∷ records) gathered log =
      continue-OnlyCalls (IsConceptRead w s)
        (gather_record w s authority publication conc gathered log).0 _ log _
        (continue-OnlyCalls (IsConceptRead w s) (fetch w s publication conc.uuid log).0 _ log _
          (fetch-IsQuiet publication conc.uuid log) λ reply log'. ([], tt, refl))
        λ next. gather_records-IsQuiet authority publication records next

  gather_buckets-IsQuiet :
      (primary publication : Str) (buckets : Buckets) (gathered : Gathered w s)
      → ReadsConcepts (gather_buckets w s primary publication buckets gathered)
  gather_buckets-IsQuiet primary publication [] gathered log =
      unfold gather_buckets in ([], tt, refl)
  gather_buckets-IsQuiet primary publication ((authority, records) ∷ buckets) gathered log =
      elim (Bool-cases (str_eq authority primary)) [
        | inl e ↦
            rw (gather_buckets-skip w s primary publication authority records buckets gathered e)
              (gather_buckets-IsQuiet primary publication buckets gathered log)
        | inr e ↦
            rw (gather_buckets-keep w s primary publication authority records buckets gathered e) (
              continue-OnlyCalls (IsConceptRead w s)
                (gather_records w s authority publication records gathered log).0 _ log _
                (gather_records-IsQuiet authority publication records gathered log)
                λ next. gather_buckets-IsQuiet primary publication buckets next)
      ]

  primary_of_bucket-IsQuiet :
      (publication : Str) (bucket : Option (List ConcordanceRecord))
      → ReadsConcepts (primary_of_bucket w s publication bucket)
  unfolding primary_of_bucket
  primary_of_bucket-IsQuiet publication none log = ([], tt, refl)
  primary_of_bucket-IsQuiet publication (some []) log = ([], tt, refl)
  primary_of_bucket-IsQuiet publication (some (v ∷ rest)) log =
      continue-OnlyCalls (IsConceptRead w s) (fetch w s publication v.uuid log).0 _ log _
        (fetch-IsQuiet publication v.uuid log) λ reply log'. ([], tt, refl)

  fetch_primary-IsQuiet :
      (primary publication : Str) (buckets : Buckets) (tid : Str)
      → ReadsConcepts (fetch_primary w s primary publication buckets tid)
  unfolding fetch_primary
  fetch_primary-IsQuiet primary publication buckets tid log = elim (Bool-cases (is_empty primary)) [
    | inl e ↦ rw e ([], tt, refl)
    | inr e ↦ rw e (primary_of_bucket-IsQuiet publication (find_bucket primary buckets) log)
  ]

  pub get_concorded-IsQuiet :
      (uuid bookmark : Str) → ReadsConcepts (get_concorded w s uuid bookmark)
  unfolding get_concorded gather_sources
  get_concorded-IsQuiet uuid bookmark log =
      continue-OnlyCalls (IsConceptRead w s) (extract_identifiers_from_key uuid) _ log log
        ([], tt, refl)
        λ key log1.
          continue-OnlyCalls (IsConceptRead w s)
            (get_concordance w s.concordances key.0 bookmark log1).0 _ log1 _
            (get_concordance-IsQuiet key.0 bookmark log1)
            λ records log2.
              continue-OnlyCalls (IsConceptRead w s) (bucket_concordances records) _ log2 log2
                ([], tt, refl)
                λ choice log3.
                  continue-OnlyCalls (IsConceptRead w s)
                    (gather_sources w s choice.1 key.1 choice.0 log3).0 _ log3 _
                    (gather_buckets-IsQuiet choice.1 key.1 (w.map_order log3 choice.0) ([], [])
                      log3)
                    λ gathered log4.
                      continue-OnlyCalls (IsConceptRead w s)
                        (fetch_primary w s choice.1 key.1 choice.0 gathered.1 log4).0 _ log4 _
                        (fetch_primary-IsQuiet choice.1 key.1 choice.0 gathered.1 log4)
                        λ primary log5. ([], tt, refl)
