-- ===== src/Concept/Gather/Stages.antt =====
-- A successful getConcordedConcept, stage by stage (concept/service.go).
use aggregate_concept_transf.Common.{List, ◌≡◌, ap, ◌∙◌, sym}
use aggregate_concept_transf.Text.{Str}
use aggregate_concept_transf.Effects.{Res, ok, Log, lift, ok-injective, >>=-ok}
use aggregate_concept_transf.World.{SourceConcept, ConcordanceRecord, CanonicalConcept, World}
use aggregate_concept_transf.Concordances.{get_concordance}
use aggregate_concept_transf.Concept.Identifiers.{extract_identifiers_from_key}
use aggregate_concept_transf.Concept.Buckets.{Buckets, bucket_concordances}
use aggregate_concept_transf.Concept.Service.{AggregateService}
use aggregate_concept_transf.Concept.Gather.{
  Gathered, gather_sources, fetch_primary, aggregate, get_concorded,
}

module _ {R : Type 0} (w : World R) (s : AggregateService) where
  -- The values that the stages of a run from `log` to `log'` gave.
  pub record Stages (uuid bookmark : Str) (log : Log) (r : CanonicalConcept R × Str) (log' : Log)
      : Type 0 where
    pub cleaned : Str
    pub publication : Str
    pub extracted : extract_identifiers_from_key uuid ≡ ok (cleaned, publication)
    pub records : List ConcordanceRecord
    pub log_answered : Log
    pub answered :
        get_concordance w s.concordances cleaned bookmark log ≡ (ok records, log_answered)
    pub buckets : Buckets
    pub primary_authority : Str
    pub grouped : bucket_concordances records ≡ ok (buckets, primary_authority)
    pub gathered : Gathered w s
    pub log_gathered : Log
    pub collected :
        gather_sources w s primary_authority publication buckets log_answered
        ≡ (ok gathered, log_gathered)
    pub primary : SourceConcept R × Str
    pub fetched :
        fetch_primary w s primary_authority publication buckets gathered.1 log_gathered
        ≡ (ok primary, log')
    pub result : r ≡ aggregate w s primary.0 gathered.0 primary.1

  pair_path : {A : Type 0} (p : Res A × Log) {a : A} → p.0 ≡ ok a → p ≡ (ok a, p.1)
  pair_path p e = λ i. (e i, p.1)

  pub get_concorded-Stages :
      (uuid bookmark : Str) (log : Log) (r : CanonicalConcept R × Str)
      → (get_concorded w s uuid bookmark log).0 ≡ ok r
      → Stages uuid bookmark log r (get_concorded w s uuid bookmark log).1
  unfolding get_concorded
  get_concorded-Stages uuid bookmark log r h =
      let (key, e1, h1, run1) = >>=-ok (lift (extract_identifiers_from_key uuid)) _ log h in
      let asked = get_concordance w s.concordances key.0 bookmark log in
      let (records, e2, h2, run2) =
        >>=-ok (get_concordance w s.concordances key.0 bookmark) _ log h1 in
      let (choice, e3, h3, run3) = >>=-ok (lift (bucket_concordances records)) _ asked.1 h2 in
      let (gathered, e4, h4, run4) =
        >>=-ok (gather_sources w s choice.1 key.1 choice.0) _ asked.1 h3 in
      let read = gather_sources w s choice.1 key.1 choice.0 asked.1 in
      let (primary, e5, h5, run5) =
        >>=-ok (fetch_primary w s choice.1 key.1 choice.0 gathered.1) _ read.1 h4 in
      let last = fetch_primary w s choice.1 key.1 choice.0 gathered.1 read.1 in
      let run = run1 ∙ run2 ∙ run3 ∙ run4 ∙ run5 in
      record {
        cleaned = key.0;
        publication = key.1;
        extracted = e1;
        records = records;
        log_answered = asked.1;
        answered = pair_path asked e2;
        buckets = choice.0;
        primary_authority = choice.1;
        grouped = e3;
        gathered = gathered;
        log_gathered = read.1;
        collected = pair_path read e4;
        primary = primary;
        fetched = pair_path last e5 ∙ ap (λ l. (ok primary, l)) (sym (ap (λ t. t.1) run));
        result = sym (ok-injective h5);
      }
