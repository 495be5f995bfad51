-- ===== src/Concept/Gather/Reads.antt =====
-- Which objects of the stores the loops of getConcordedConcept read (concept/service.go).
use aggregate_concept_transf.Common.{
  List, [], ◌∷◌, ◌++◌, map, true, false, if◌then◌else◌, ◌≡◌, refl, ap, sym, ◌∙◌, inl, inr,
  Bool-cases, arith,
}
use aggregate_concept_transf.Text.{Str, str_eq, is_empty}
use aggregate_concept_transf.Effects.{ok, Call, Log, ◌>>=◌, >>=-ok}
use aggregate_concept_transf.World.{
  ConcordanceRecord, World, S3Reply, aws_error, other_error, object,
}
use aggregate_concept_transf.S3.{get_concept_and_transaction_id, by_reply, object_key}
use aggregate_concept_transf.S3
use aggregate_concept_transf.Concept.Buckets.{Buckets}
use aggregate_concept_transf.Concept.Service.{AggregateService}
use aggregate_concept_transf.Concept.Gather.{
  fetch, Gathered, gather_record, gather_records, gather_buckets,
}

-- The objects read, by bucket and key, the latest first.
abbrev pub reads : Log → List (Str × Str)
reads [] = []
reads (Call.s3_get bucket key ∷ log) = (bucket, key) ∷ reads log
reads (_ ∷ log) = reads log

-- A list in front of another, in reverse.
abbrev pub rev_onto {ℓ} : {A : Type ℓ} → List A → List A → List A
rev_onto [] later = later
rev_onto (x ∷ xs) later = rev_onto xs (x ∷ later)

pub rev_onto-append {ℓ} :
    {A : Type ℓ} (xs ys later : List A)
    → rev_onto (xs ++ ys) later ≡ rev_onto ys (rev_onto xs later)
rev_onto-append [] ys later = refl
rev_onto-append (x ∷ xs) ys later = rev_onto-append xs ys (x ∷ later)

module _ {R : Type 0} (w : World R) where
  by_reply-reads :
      (bucket key : Str) (reply : S3Reply) (log : Log)
      → reads (by_reply w bucket key reply log).1 ≡ reads log
  unfolding by_reply
  by_reply-reads bucket key (aws_error code text) log = ground arith
  by_reply-reads bucket key (other_error text) log = refl
  by_reply-reads bucket key (object body) log = refl

  -- Whatever the store answers, one object is read.
  pub get_concept-reads :
      (c : S3.Client) (publication uuid : Str) (log : Log)
      → reads (get_concept_and_transaction_id w c publication uuid log).1
        ≡ (c.bucket_name, object_key publication uuid) ∷ reads log
  unfolding get_concept_and_transaction_id
  get_concept-reads c publication uuid log =
      let key = object_key publication uuid in
      by_reply-reads c.bucket_name key (w.s3_get_object log c.bucket_name key)
        (Call.s3_get c.bucket_name key ∷ log)

module _ {R : Type 0} (w : World R) (s : AggregateService) where
  -- The object that holds a concept of a publication, or of none.
  abbrev pub place : (publication uuid : Str) → Str × Str
  place publication uuid =
      if is_empty publication
      then (s.n_store.bucket_name, object_key [] uuid)
      else (s.external_normalised_store.bucket_name, object_key publication uuid)

  abbrev pub places : (publication : Str) → List ConcordanceRecord → List (Str × Str)
  places publication = map (λ v. place publication v.uuid)

  pub fetch-reads :
      (publication uuid : Str) (log : Log)
      → reads (fetch w s publication uuid log).1 ≡ place publication uuid ∷ reads log
  unfolding fetch
  fetch-reads publication uuid log = elim (Bool-cases (is_empty publication)) [
    | inl e ↦ rw e (get_concept-reads w s.n_store [] uuid log)
    | inr e ↦ rw e (get_concept-reads w s.external_normalised_store publication uuid log)
  ]

  gather_record-reads :
      (authority publication : Str) (conc : ConcordanceRecord) (gathered next : Gathered w s)
      (log : Log)
      → (gather_record w s authority publication conc gathered log).0 ≡ ok next
      → reads (gather_record w s authority publication conc gathered log).1
        ≡ place publication conc.uuid ∷ reads log
  unfolding gather_record
  gather_record-reads authority publication conc gathered next log h =
      let (a, _, _, run) = >>=-ok (fetch w s publication conc.uuid) _ log h in
      ap (λ r. reads r.1) run ∙ fetch-reads publication conc.uuid log

  gather_records-reads :
      (authority publication : Str) (records : List ConcordanceRecord)
      (gathered next : Gathered w s) (log : Log)
      → (gather_records w s authority publication records gathered log).0 ≡ ok next
      → reads (gather_records w s authority publication records gathered log).1
        ≡ rev_onto (places publication records) (reads log)
  unfolding gather_records
  gather_records-reads authority publication [] gathered next log h = refl
  gather_records-reads authority publication (conc ∷ records) gathered next log h =
      let (now, first, more, run) =
        >>=-ok (gather_record w s authority publication conc gathered) _ log h in
      ap (λ r. reads r.1) run
      ∙ gather_records-reads authority publication records now next _ more
      ∙ ap (rev_onto (places publication records))
          (gather_record-reads authority publication conc gathered now log first)

-- The records of a bucket that the loop gathers.
abbrev pub piece : (primary : Str) → Str × List ConcordanceRecord → List ConcordanceRecord
piece primary (authority, records) = if str_eq authority primary then [] else records

abbrev pub unskipped : (primary : Str) → Buckets → List ConcordanceRecord
unskipped primary [] = []
unskipped primary (bucket ∷ buckets) = piece primary bucket ++ unskipped primary buckets

module _ {R : Type 0} (w : World R) (s : AggregateService) where
  places-append :
      (publication : Str) (xs ys : List ConcordanceRecord)
      → places w s publication (xs ++ ys) ≡ places w s publication xs ++ places w s publication ys
  places-append publication [] ys = refl
  places-append publication (x ∷ xs) ys =
      ap (λ l. place w s publication x.uuid ∷ l) (places-append publication xs ys)

  pub gather_buckets-skip :
      (primary publication authority : Str) (records : List ConcordanceRecord) (buckets : Buckets)
      (gathered : Gathered w s)
      → str_eq authority primary ≡ true
      → gather_buckets w s primary publication ((authority, records) ∷ buckets) gathered
        ≡ gather_buckets w s primary publication buckets gathered
  unfolding gather_buckets
  gather_buckets-skip primary publication authority records buckets gathered e =
      rw (e, gather_buckets) refl

  pub gather_buckets-keep :
      (primary publication authority : Str) (records : List ConcordanceRecord) (buckets : Buckets)
      (gathered : Gathered w s)
      → str_eq authority primary ≡ false
      → gather_buckets w s primary publication ((authority, records) ∷ buckets) gathered ≡ (
          gather_records w s authority publication records gathered
          >>= gather_buckets w s primary publication buckets)
  unfolding gather_buckets
  gather_buckets-keep primary publication authority records buckets gathered e =
      rw (e, gather_buckets) refl

  -- The loop reads the object of every record outside the primary authority's bucket, in order.
  pub gather_buckets-reads :
      (primary publication : Str) (buckets : Buckets) (gathered next : Gathered w s) (log : Log)
      → (gather_buckets w s primary publication buckets gathered log).0 ≡ ok next
      → reads (gather_buckets w s primary publication buckets gathered log).1
        ≡ rev_onto (places w s publication (unskipped primary buckets)) (reads log)
  gather_buckets-reads primary publication [] gathered next log h = unfold gather_buckets in refl
  gather_buckets-reads primary publication ((authority, records) ∷ buckets) gathered next log h =
      elim (Bool-cases (str_eq authority primary)) [
        | inl e ↦
            let skip =
              gather_buckets-skip primary publication authority records buckets gathered e in
            rw (e, skip)
              (gather_buckets-reads primary publication buckets gathered next log (rw skip at h))
        | inr e ↦
            let keep =
              gather_buckets-keep primary publication authority records buckets gathered e in
            let (now, first, more, run) =
              >>=-ok (gather_records w s authority publication records gathered) _ log
                (rw keep at h) in
            ap (λ m. reads (m log).1) keep
            ∙ ap (λ r. reads r.1) run
            ∙ gather_buckets-reads primary publication buckets now next _ more
            ∙ ap (rev_onto (places w s publication (unskipped primary buckets)))
                (gather_records-reads w s authority publication records gathered now log first)
            ∙ rw (e, places-append publication records (unskipped primary buckets))
                (sym (
                  rev_onto-append (places w s publication records)
                    (places w s publication (unskipped primary buckets)) (reads log)))
      ]
