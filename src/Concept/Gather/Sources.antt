-- ===== src/Concept/Gather/Sources.antt =====
-- getConcordedConcept reads every record that the concordances give (concept/service.go).
use mathlib.Core.List.{Perm}
use mathlib.Core.List.Perm
use aggregate_concept_transf.Common.{
  List, [], ◌++◌, append-nil, if◌then◌else◌, ◌≡◌, refl, ap, sym, ◌∙◌, inl, inr, Bool-cases, arith,
  false≢true,
}
use aggregate_concept_transf.Text.{Str, is_empty}
use aggregate_concept_transf.Effects.{ok, Log, >>=-lift_log}
use aggregate_concept_transf.World.{SourceConcept, ConcordanceRecord, CanonicalConcept, World}
use aggregate_concept_transf.Concordances.{RwClient, get_concordance}
use aggregate_concept_transf.Concept.Identifiers.{extract_identifiers_from_key}
use aggregate_concept_transf.Concept.Buckets.{Buckets, fill_buckets, bucket_concordances}
use aggregate_concept_transf.Concept.Buckets.Grouping.{
  of_authority, primary_bucket-single, bucket_concordances-buckets,
}
use aggregate_concept_transf.Concept.Service.{AggregateService}
use aggregate_concept_transf.Concept.Gather.{
  fetch, fetch_primary, primary_or_missing, Gathered, gather_sources, get_concorded,
}
use aggregate_concept_transf.Concept.Gather.Stages.{Stages, get_concorded-Stages}
use aggregate_concept_transf.Concept.Gather.Order.{
  without_authority, unskipped-perm, unskipped-fill_buckets, rev_onto-perm,
}
use aggregate_concept_transf.Concept.Gather.Reads.{
  reads, rev_onto, place, places, fetch-reads, unskipped, gather_buckets-reads,
}

get_concordance-reads :
    {R : Type 0} (w : World R) (c : RwClient) (uuid bookmark : Str) (log : Log)
    → reads (get_concordance w c uuid bookmark log).1 ≡ reads log
unfolding get_concordance
get_concordance-reads w c uuid bookmark log = ground arith

-- The record of the primary authority, where there is one.
abbrev pub primary_records : (primary : Str) → List ConcordanceRecord → List ConcordanceRecord
primary_records primary records = if is_empty primary then [] else of_authority primary records

module _ {R : Type 0} (w : World R) (s : AggregateService) where
  fetch_primary-reads :
      (primary publication tid : Str) (records : List ConcordanceRecord) (buckets : Buckets)
      (log : Log) {r : SourceConcept R × Str}
      → bucket_concordances records ≡ ok (buckets, primary)
      → (fetch_primary w s primary publication buckets tid log).0 ≡ ok r
      → reads (fetch_primary w s primary publication buckets tid log).1
        ≡ places w s publication (primary_records primary records) ++ reads log
  unfolding fetch_primary is_empty
  fetch_primary-reads primary publication tid records buckets log grouped h =
      elim (Bool-cases (is_empty primary)) [
        | inl e ↦ rw e refl
        | inr e ↦
            let (v, found, only) =
              primary_bucket-single records buckets primary grouped
                (λ bad. false≢true (sym e ∙ ap is_empty bad)) in
            rw (e, found, only)
              (ap reads
                  (>>=-lift_log (fetch w s publication v.uuid) (primary_or_missing w s v.uuid) log)
                ∙ fetch-reads w s publication v.uuid log)
      ]

  -- How a successful getConcordedConcept has read the stores: `sources` are the objects of all the
  -- records but those of the primary authority, in some order, and the object of the primary
  -- authority's record comes last.
  pub record ReadsAll (uuid bookmark : Str) (log log' : Log) : Type 0 where
    pub cleaned : Str
    pub publication : Str
    pub extracted : extract_identifiers_from_key uuid ≡ ok (cleaned, publication)
    pub records : List ConcordanceRecord
    pub answered : (get_concordance w s.concordances cleaned bookmark log).0 ≡ ok records
    pub primary : Str
    pub grouped : bucket_concordances records ≡ ok (fill_buckets [] records, primary)
    pub sources : List (Str × Str)
    pub each_source : Perm sources (places w s publication (without_authority primary records))
    pub all_reads :
        reads log'
        ≡ places w s publication (primary_records primary records) ++ (sources ++ reads log)

  -- The order in which Go walks a map is an order of its entries.
  abbrev pub MapOrder : Type 0
  MapOrder = (log : Log) (buckets : Buckets) → Perm (w.map_order log buckets) buckets

  gather_sources-reads :
      (primary publication : Str) (buckets : Buckets) (log : Log) {r : Gathered w s}
      → (gather_sources w s primary publication buckets log).0 ≡ ok r
      → reads (gather_sources w s primary publication buckets log).1
        ≡ rev_onto
            (places w s publication (unskipped primary (w.map_order log buckets)))
            (reads log)
  unfolding gather_sources
  gather_sources-reads primary publication buckets log {r} h =
      gather_buckets-reads w s primary publication (w.map_order log buckets) ([], []) r log h

  gathered-perm :
      (primary : Str) (records : List ConcordanceRecord) (buckets : Buckets) (log : Log)
      → MapOrder
      → buckets ≡ fill_buckets [] records
      → Perm (unskipped primary (w.map_order log buckets)) (without_authority primary records)
  gathered-perm primary records buckets log order same =
      Perm.trans (unskipped-perm primary _ _ (order log buckets)) (
        rw (same, ← append-nil (without_authority primary records))
          (unskipped-fill_buckets primary [] records))

  Stages-ReadsAll :
      (uuid bookmark : Str) (log log' : Log) (r : CanonicalConcept R × Str)
      → MapOrder
      → Stages w s uuid bookmark log r log'
      → ReadsAll uuid bookmark log log'
  Stages-ReadsAll uuid bookmark log log' r order st =
      let same =
        bucket_concordances-buckets st.records st.buckets st.primary_authority st.grouped in
      let gathered = unskipped st.primary_authority (w.map_order st.log_answered st.buckets) in
      let (sources, reversed, perm) =
        rev_onto-perm (places w s st.publication gathered) (reads st.log_answered) in
      let asked =
        ap (λ t. reads t.1) (sym st.answered)
        ∙ get_concordance-reads w s.concordances st.cleaned bookmark log in
      let collected =
        ap (λ t. reads t.1) (sym st.collected)
        ∙ gather_sources-reads st.primary_authority st.publication st.buckets st.log_answered
            (ap (λ t. t.0) st.collected) in
      let fetched =
        ap (λ t. reads t.1) (sym st.fetched)
        ∙ fetch_primary-reads st.primary_authority st.publication st.gathered.1 st.records
            st.buckets st.log_gathered st.grouped (ap (λ t. t.0) st.fetched) in
      let before = collected ∙ reversed ∙ ap (λ l. sources ++ l) asked in
      record {
        cleaned = st.cleaned;
        publication = st.publication;
        extracted = st.extracted;
        records = st.records;
        answered = ap (λ t. t.0) st.answered;
        primary = st.primary_authority;
        grouped = rw (← same) st.grouped;
        sources = sources;
        each_source = Perm.trans perm (
            Perm.map (λ (v : ConcordanceRecord). place w s st.publication v.uuid)
              (gathered-perm st.primary_authority st.records st.buckets st.log_answered order
                same));
        all_reads =
            fetched
            ∙ ap
                (λ l.
                  places w s st.publication (primary_records st.primary_authority st.records) ++ l)
                before;
      }

  -- Where a map is walked in some order of its entries, a getConcordedConcept that succeeds has
  -- read, in the store of the key's publication, exactly one object for each record outside the
  -- primary authority that the concordances of the key's UUID give (without a primary authority,
  -- for each record whose authority is not empty), and then the object of the primary authority's
  -- record, if there is a primary authority.
  pub get_concorded-ReadsAll :
      (uuid bookmark : Str) (log : Log) (r : CanonicalConcept R × Str)
      → MapOrder
      → (get_concorded w s uuid bookmark log).0 ≡ ok r
      → ReadsAll uuid bookmark log (get_concorded w s uuid bookmark log).1
  get_concorded-ReadsAll uuid bookmark log r order h =
      Stages-ReadsAll uuid bookmark log _ r order (get_concorded-Stages w s uuid bookmark log r h)
