-- ===== src/Concept/Gather/Repeat.antt =====
-- Two runs of getConcordedConcept on the same stores (concept/service.go).
use mathlib.Core.List.{Perm}
use mathlib.Core.List.Perm
use aggregate_concept_transf.Common.{
  List, [], ◌∷◌, ◌++◌, Option, none, some, ◌≡◌, ◌≢◌, refl, sym, ap, ◌∙◌, Bool-cases, inl, inr,
}
use aggregate_concept_transf.Text.{Str, is_empty}
use aggregate_concept_transf.Effects.{ok, Log, lift, ok-injective}
use aggregate_concept_transf.Effects.Gives.{Gives, >>=-Gives, >>=-run, Gives-same}
use aggregate_concept_transf.World.{SourceConcept, ConcordanceRecord, CanonicalConcept, World}
use aggregate_concept_transf.Concordances.{get_concordance}
use aggregate_concept_transf.Concept.Identifiers.{extract_identifiers_from_key}
use aggregate_concept_transf.Concept.Buckets.{Buckets, find_bucket, bucket_concordances}
use aggregate_concept_transf.Concept.Service.{AggregateService}
use aggregate_concept_transf.Concept.Gather.{
  fetch, Gathered, gather_sources, primary_or_missing, primary_of_bucket, fetch_primary,
  empty_canonical, without_primary, aggregate, get_concorded,
}
use aggregate_concept_transf.Concept.Gather.Stages.{get_concorded-Stages}
use aggregate_concept_transf.Concept.Gather.Contents.{tagged}
use aggregate_concept_transf.Concept.Gather.Sources.{MapOrder}
use aggregate_concept_transf.Concept.Gather.Results.{
  PrimaryOf, fetch_primary-PrimaryOf, split_last-append, nil_of_empty, not_nil,
}
use aggregate_concept_transf.Concept.Gather.Steady.{
  Steady, get_concordance-Gives, fetch-Gives, gather_buckets-Gives,
}
use aggregate_concept_transf.Concept.Gather.Unordered.{tagged-perm, gather_entries-perm}

module _ {R : Type 0} (w : World R) (s : AggregateService) where
  -- The primary concept that getConcordedConcept reads for the key.
  pub record PrimaryRead (uuid bookmark : Str) (log : Log) (primary : SourceConcept R)
      : Type 0 where
    pub cleaned : Str
    pub publication : Str
    pub extracted : extract_identifiers_from_key uuid ≡ ok (cleaned, publication)
    pub records : List ConcordanceRecord
    pub answered : (get_concordance w s.concordances cleaned bookmark log).0 ≡ ok records
    pub buckets : Buckets
    pub primary_authority : Str
    pub grouped : bucket_concordances records ≡ ok (buckets, primary_authority)
    pub primary_from : PrimaryOf w s publication primary_authority records primary

  -- Two results made of the same concepts. Where the primary concept has a UUID they are made of it
  -- and differ at most in the order of the other sources; where it has none, each run may have taken
  -- another source for it.
  pub data SameUpToOrder (primary : SourceConcept R)
      : CanonicalConcept R × Str → CanonicalConcept R × Str → Type 0 where
    with_primary :
        (sources sources' : List (SourceConcept R)) (tid : Str)
        → primary.uuid ≢ []
        → Perm sources sources'
        → SameUpToOrder primary
            (w.create_canonical_concept primary sources, tid)
            (w.create_canonical_concept primary sources', tid)
    without_sources :
        primary.uuid ≡ []
        → SameUpToOrder primary (empty_canonical w s, []) (empty_canonical w s, [])
    last_for_primary :
        (before before' : List (SourceConcept R)) (last last' : SourceConcept R) (tid tid' : Str)
        → primary.uuid ≡ []
        → Perm (before ++ last ∷ []) (before' ++ last' ∷ [])
        → SameUpToOrder primary
            (w.create_canonical_concept last before, tid)
            (w.create_canonical_concept last' before', tid')

  without_primary-SameUpToOrder :
      (primary : SourceConcept R) (sources sources' : List (SourceConcept R)) (tid tid' : Str)
      → primary.uuid ≡ []
      → Perm sources sources'
      → SameUpToOrder primary (without_primary w s sources tid) (without_primary w s sources' tid')
  unfolding without_primary
  without_primary-SameUpToOrder primary [] [] tid tid' e p = without_sources e
  without_primary-SameUpToOrder primary [] (b ∷ rest) tid tid' e p = let bad = Perm.nil-eq p in cc
  without_primary-SameUpToOrder primary (a ∷ rest) [] tid tid' e p = let bad = Perm.eq-nil p in cc
  without_primary-SameUpToOrder primary (a ∷ rest) (b ∷ rest') tid tid' e p =
      last_for_primary _ _ _ _ tid tid' e
        (rw (← split_last-append a rest, ← split_last-append b rest') p)

  aggregate-SameUpToOrder :
      (primary : SourceConcept R) (sources sources' : List (SourceConcept R)) (tid tid' : Str)
      → Perm sources sources'
      → (primary.uuid ≢ [] → tid ≡ tid')
      → SameUpToOrder primary
          (aggregate w s primary sources tid)
          (aggregate w s primary sources' tid')
  unfolding aggregate
  aggregate-SameUpToOrder primary sources sources' tid tid' p same =
      elim (Bool-cases (is_empty primary.uuid)) [
        | inl e ↦ rw e (
            without_primary-SameUpToOrder primary sources sources' tid tid'
              (nil_of_empty primary.uuid e) p)
        | inr e ↦
            let named : primary.uuid ≢ [] = not_nil primary.uuid e in
            rw (e, ← same named) (with_primary sources sources' tid named p)
      ]

  module _ (steady : Steady w) where
    primary_of_bucket-Gives :
        (publication : Str) (bucket : Option (List ConcordanceRecord)) (log : Log)
        → Gives
            (primary_of_bucket w s publication bucket)
            (primary_of_bucket w s publication bucket log).0
    unfolding primary_of_bucket
    primary_of_bucket-Gives publication none log log' = refl
    primary_of_bucket-Gives publication (some []) log log' = refl
    primary_of_bucket-Gives publication (some (canonical ∷ records)) log log' =
        Gives-same (primary_of_bucket w s publication (some (canonical ∷ records))) _ log
          (>>=-Gives (fetch w s publication canonical.uuid)
            (λ reply. lift (primary_or_missing w s canonical.uuid reply)) _
            (primary_or_missing w s canonical.uuid)
            (fetch-Gives w steady s publication canonical.uuid log) (λ reply log. refl))
          log'

    -- The primary concept does not depend on what was read before, and where it has a UUID neither
    -- does its transaction.
    fetch_primary-again :
        (primary publication tid : Str) (buckets : Buckets) (log : Log) (r : SourceConcept R × Str)
        (tid' : Str) (log' : Log)
        → (fetch_primary w s primary publication buckets tid log).0 ≡ ok r
        → (t : Str) × ((fetch_primary w s primary publication buckets tid' log').0 ≡ ok (r.0, t))
          × (r.0.uuid ≢ [] → r.1 ≡ t)
    unfolding fetch_primary
    fetch_primary-again primary publication tid buckets log r tid' log' h =
        elim (Bool-cases (is_empty primary)) [
          | inl e ↦
              let none_read = ok-injective (rw e at h) in
              (
                tid',
                rw e (ap (λ (p : SourceConcept R × Str). ok (p.0, tid')) none_read),
                λ named.
                    absurd (named (ap (λ (p : SourceConcept R × Str). p.0.uuid) (sym none_read))),
              )
          | inr e ↦ (
            r.1,
            rw e (
                primary_of_bucket-Gives publication (find_bucket primary buckets) log log'
                ∙ rw e at h),
            λ named. refl,
          )
        ]

    gather_sources-again :
        (primary publication : Str) (buckets : Buckets) (log : Log) (r : Gathered w s) (log' : Log)
        → MapOrder w s
        → (gather_sources w s primary publication buckets log).0 ≡ ok r
        → (r' : Gathered w s) × ((gather_sources w s primary publication buckets log').0 ≡ ok r')
          × Perm r.0 r'.0
    unfolding gather_sources
    gather_sources-again primary publication buckets log r log' order h =
        let walk = w.map_order log buckets in
        let walk' = w.map_order log' buckets in
        let (r', run, p) =
          gather_entries-perm w steady s publication (tagged primary walk) (tagged primary walk') r
            (tagged-perm primary walk walk'
              (Perm.trans (order log buckets) (Perm.symm (order log' buckets))))
            (sym (gather_buckets-Gives w steady s primary publication walk ([], []) log) ∙ h) in
        (r', gather_buckets-Gives w steady s primary publication walk' ([], []) log' ∙ run, p)

    -- In a world whose concordances and stores do not change and whose maps are walked in some order
    -- of their entries, a getConcordedConcept that has succeeded once succeeds after any other calls
    -- too, whatever the order then is. Where the primary concept, read for the primary authority's
    -- one record or empty without a primary authority, has a UUID, both results have the same
    -- transaction and are the canonical concept of that primary concept and of the same other
    -- sources, in perhaps another order. Where it has none, both are empty, or each is the canonical
    -- concept of the last of the same sources and those before it, in perhaps another order.
    pub get_concorded-SameUpToOrder :
        (uuid bookmark : Str) (log log' : Log) (r : CanonicalConcept R × Str)
        → MapOrder w s
        → (get_concorded w s uuid bookmark log).0 ≡ ok r
        → (primary : SourceConcept R) × (r' : CanonicalConcept R × Str) × PrimaryRead uuid bookmark
            log primary
          × ((get_concorded w s uuid bookmark log').0 ≡ ok r')
          × SameUpToOrder primary r r'
    unfolding get_concorded
    get_concorded-SameUpToOrder uuid bookmark log log' r order h =
        let st = get_concorded-Stages w s uuid bookmark log r h in
        let asked = get_concordance w s.concordances st.cleaned bookmark log' in
        let answered =
          get_concordance-Gives w steady s.concordances st.cleaned bookmark log log'
          ∙ ap (λ t. t.0) st.answered in
        let (gathered, collected, p) =
          gather_sources-again st.primary_authority st.publication st.buckets st.log_answered
            st.gathered asked.1 order (ap (λ t. t.0) st.collected) in
        let read = gather_sources w s st.primary_authority st.publication st.buckets asked.1 in
        let (tid, fetched, same) =
          fetch_primary-again st.primary_authority st.publication st.gathered.1 st.buckets
            st.log_gathered st.primary gathered.1 read.1 (ap (λ t. t.0) st.fetched) in
        let run =
          >>=-run (lift (extract_identifiers_from_key uuid)) _ log' (st.cleaned, st.publication)
            st.extracted
          ∙ >>=-run (get_concordance w s.concordances st.cleaned bookmark) _ log' st.records
              answered
          ∙ >>=-run (lift (bucket_concordances st.records)) _ asked.1
              (st.buckets, st.primary_authority) st.grouped
          ∙ >>=-run (gather_sources w s st.primary_authority st.publication st.buckets) _ asked.1
              gathered collected
          ∙ >>=-run (fetch_primary w s st.primary_authority st.publication st.buckets gathered.1) _
              read.1 (st.primary.0, tid) fetched in
        (
          st.primary.0,
          aggregate w s st.primary.0 gathered.0 tid,
          record {
            cleaned = st.cleaned;
            publication = st.publication;
            extracted = st.extracted;
            records = st.records;
            answered = ap (λ t. t.0) st.answered;
            buckets = st.buckets;
            primary_authority = st.primary_authority;
            grouped = st.grouped;
            primary_from =
                fetch_primary-PrimaryOf w s st.publication st.primary_authority st.gathered.1
                  st.records st.buckets st.log_gathered st.primary st.grouped
                  (ap (λ t. t.0) st.fetched);
          },
          ap (λ t. t.0) run,
          rw st.result (
              aggregate-SameUpToOrder st.primary.0 st.gathered.0 gathered.0 st.primary.1 tid p
                same),
        )
