-- ===== src/Concept/Gather/Results.antt =====
-- The concept that getConcordedConcept returns, by the records that it read (concept/service.go).
use aggregate_concept_transf.Common.{
  List, [], ◌∷◌, ◌++◌, Bool, true, false, ◌≡◌, refl, sym, ap, ◌∙◌, Bool-cases, inl, inr, ◌⊎◌, ◌≢◌,
  false≢true,
}
use aggregate_concept_transf.Text.{Str, is_empty}
use aggregate_concept_transf.S3.{empty_source}
use aggregate_concept_transf.Effects.{ok, Log, >>=-ok, ok-injective}
use aggregate_concept_transf.World.{SourceConcept, ConcordanceRecord, CanonicalConcept, World}
use aggregate_concept_transf.Concordances.{get_concordance}
use aggregate_concept_transf.Concept.Identifiers.{extract_identifiers_from_key}
use aggregate_concept_transf.Concept.Buckets.{Buckets, bucket_concordances, fill_buckets}
use aggregate_concept_transf.Concept.Buckets.Grouping.{
  of_authority, bucket_concordances-buckets, primary_bucket-single,
}
use aggregate_concept_transf.Concept.Service.{AggregateService}
use aggregate_concept_transf.Concept.Gather.{
  fetch, gather_sources, primary_or_missing, primary_of_bucket, fetch_primary, aggregate,
  get_concorded,
}
use aggregate_concept_transf.Concept.Gather.Stages.{get_concorded-Stages}
use aggregate_concept_transf.Concept.Gather.Contents.{tagged, SourcesOf, gather_buckets-Adds}
use aggregate_concept_transf.Concept.Gather.{split_last, empty_canonical, without_primary}

pub nil_of_empty : (t : Str) → is_empty t ≡ true → t ≡ []
unfolding is_empty
nil_of_empty [] h = refl
nil_of_empty (x ∷ t) h = cc

pub not_nil : (t : Str) → is_empty t ≡ false → t ≢ []
unfolding is_empty
not_nil t h bad = false≢true (sym h ∙ ap is_empty bad)

module _ {R : Type 0} (w : World R) (s : AggregateService) (publication : Str) where
  -- The primary concept: empty without a primary authority, else what the store gave for the one
  -- record of that authority.
  abbrev pub PrimaryOf : (primary : Str) → List ConcordanceRecord → SourceConcept R → Type 0
  PrimaryOf primary records concept =
      (primary ≡ []) × (concept ≡ empty_source w)
      ⊎ (v : ConcordanceRecord) × (tid : Str) × (log : Log) × (of_authority primary records
          ≡ v ∷ [])
        × ((fetch w s publication v.uuid log).0 ≡ ok (true, concept, tid))

  found_primary :
      (uuid : Str) (reply : Bool × SourceConcept R × Str) (r : SourceConcept R × Str)
      → primary_or_missing w s uuid reply ≡ ok r
      → reply ≡ (true, r.0, r.1)
  unfolding primary_or_missing
  found_primary uuid (true, concept, tid) r h = ap (λ p. (true, p.0, p.1)) (ok-injective h)
  found_primary uuid (false, concept, tid) r h = cc

  pub fetch_primary-PrimaryOf :
      (primary tid : Str) (records : List ConcordanceRecord) (buckets : Buckets) (log : Log)
      (r : SourceConcept R × Str)
      → bucket_concordances records ≡ ok (buckets, primary)
      → (fetch_primary w s primary publication buckets tid log).0 ≡ ok r
      → PrimaryOf primary records r.0
  unfolding fetch_primary primary_of_bucket
  fetch_primary-PrimaryOf primary tid records buckets log r grouped h =
      elim (Bool-cases (is_empty primary)) [
        | inl e ↦ inl (nil_of_empty primary e, ap (λ p. p.0) (sym (ok-injective (rw e at h))))
        | inr e ↦
            let (v, found, only) =
              primary_bucket-single records buckets primary grouped (not_nil primary e) in
            let (reply, h1, h2, _) =
              >>=-ok (fetch w s publication v.uuid) _ log (rw (e, found) at h) in
            inr (v, r.1, log, only, h1 ∙ ap (λ t. ok t) (found_primary v.uuid reply r h2))
      ]

-- The last element of a list, and those before it.
pub split_last-append {ℓ} :
    {A : Type ℓ} (a : A) (rest : List A)
    → a ∷ rest ≡ (split_last a rest).0 ++ (split_last a rest).1 ∷ []
unfolding split_last
split_last-append a [] = refl
split_last-append a (b ∷ rest) = ap (λ l. a ∷ l) (split_last-append b rest)

module _ {R : Type 0} (w : World R) (s : AggregateService) where
  -- The concept is made of the primary concept and the sources, or where the primary concept has no
  -- UUID of the last source and those before it; it is empty where there is no source either.
  abbrev pub Combined : SourceConcept R → List (SourceConcept R) → CanonicalConcept R → Type 0
  Combined primary sources concept =
      (primary.uuid ≢ []) × (concept ≡ w.create_canonical_concept primary sources)
      ⊎ (primary.uuid ≡ []) × (sources ≡ []) × (concept ≡ empty_canonical w s)
      ⊎ (before : List (SourceConcept R)) × (last : SourceConcept R) × (primary.uuid ≡ [])
        × (sources ≡ before ++ last ∷ [])
        × (concept ≡ w.create_canonical_concept last before)

  aggregate-Combined :
      (primary : SourceConcept R) (sources : List (SourceConcept R)) (tid : Str)
      → Combined primary sources (aggregate w s primary sources tid).0
  unfolding aggregate without_primary
  aggregate-Combined primary sources tid = elim (Bool-cases (is_empty primary.uuid)) [
    | inl e ↦ rw e (by_sources sources (nil_of_empty primary.uuid e))
    | inr e ↦ rw e (inl (not_nil primary.uuid e, refl))
  ]
    where
      by_sources :
          (sources : List (SourceConcept R))
          → primary.uuid ≡ []
          → Combined primary sources (without_primary w s sources tid).0
      by_sources [] e = inr (inl (e, refl, refl))
      by_sources (a ∷ rest) e =
          inr
            (inr ((split_last a rest).0, (split_last a rest).1, e, split_last-append a rest, refl))

  -- How a successful getConcordedConcept has made its concept: a source for each record of the
  -- buckets outside the primary authority, in the order in which the map was walked, and the primary
  -- concept from the record of the primary authority.
  pub record Made (uuid bookmark : Str) (log : Log) (concept : CanonicalConcept R) : Type 0 where
    pub cleaned : Str
    pub publication : Str
    pub extracted : extract_identifiers_from_key uuid ≡ ok (cleaned, publication)
    pub records : List ConcordanceRecord
    pub log_answered : Log
    pub answered :
        get_concordance w s.concordances cleaned bookmark log ≡ (ok records, log_answered)
    pub primary_authority : Str
    pub grouped : bucket_concordances records ≡ ok (fill_buckets [] records, primary_authority)
    pub sources : List (SourceConcept R)
    pub each_source :
        SourcesOf w s publication
          (tagged primary_authority (w.map_order log_answered (fill_buckets [] records)))
          sources
    pub primary : SourceConcept R
    pub primary_from : PrimaryOf w s publication primary_authority records primary
    pub combined : Combined primary sources concept

  -- A getConcordedConcept that succeeds has made one source for each record outside the primary
  -- authority, in the order in which the map was walked: what the store gave for the record, or a
  -- "Thing" with the record's identifiers where the store has no such object. The primary concept
  -- is that of the primary authority's one record, which the store has, and the result is the
  -- canonical concept of these; without a UUID in the primary concept the last source takes its
  -- place, and without any source the result is empty.
  pub get_concorded-Made :
      (uuid bookmark : Str) (log : Log) (r : CanonicalConcept R × Str)
      → (get_concorded w s uuid bookmark log).0 ≡ ok r
      → Made uuid bookmark log r.0
  unfolding gather_sources
  get_concorded-Made uuid bookmark log r h =
      let st = get_concorded-Stages w s uuid bookmark log r h in
      let same =
        bucket_concordances-buckets st.records st.buckets st.primary_authority st.grouped in
      let (sources, made, gathered) =
        gather_buckets-Adds w s st.publication st.primary_authority
          (w.map_order st.log_answered st.buckets) ([], []) st.gathered st.log_answered
          (ap (λ t. t.0) st.collected) in
      record {
        cleaned = st.cleaned;
        publication = st.publication;
        extracted = st.extracted;
        records = st.records;
        log_answered = st.log_answered;
        answered = st.answered;
        primary_authority = st.primary_authority;
        grouped = rw (← same) st.grouped;
        sources = sources;
        each_source = rw (← same) made;
        primary = st.primary.0;
        primary_from =
            fetch_primary-PrimaryOf w s st.publication st.primary_authority st.gathered.1 st.records
              st.buckets st.log_gathered st.primary st.grouped (ap (λ t. t.0) st.fetched);
        combined = rw (st.result, gathered) (aggregate-Combined st.primary.0 sources st.primary.1);
      }
