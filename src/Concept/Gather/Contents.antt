-- ===== src/Concept/Gather/Contents.antt =====
-- The sources that getConcordedConcept gathers: one for each record (concept/service.go).
use aggregate_concept_transf.Common.{
  List, [], ◌∷◌, ◌++◌, Bool, true, false, if◌then◌else◌, ◌≡◌, refl, sym, ap, ◌∙◌, Bool-cases, inl,
  inr, append_assoc, append-nil,
}
use aggregate_concept_transf.Text.{Str, codes, str_eq}
use aggregate_concept_transf.Effects.{ok, Log, >>=-ok, ok-injective}
use aggregate_concept_transf.World.{SourceConcept, ConcordanceRecord, World}
use aggregate_concept_transf.Concept.Buckets.{Buckets}
use aggregate_concept_transf.Concept.Service.{AggregateService}
use aggregate_concept_transf.Concept.Gather.{
  fetch, Gathered, source_or_thing, gather_record, gather_records, gather_buckets,
}
use aggregate_concept_transf.Concept.Gather.Reads.{gather_buckets-skip, gather_buckets-keep}

abbrev pub with_authority : Str → List ConcordanceRecord → List (Str × ConcordanceRecord)
with_authority authority [] = []
with_authority authority (conc ∷ records) = (authority, conc) ∷ with_authority authority records

-- The records of all buckets but the primary authority's, each with its bucket's authority.
abbrev pub tagged : (primary : Str) → Buckets → List (Str × ConcordanceRecord)
tagged primary [] = []
tagged primary ((authority, records) ∷ buckets) =
    (if str_eq authority primary then [] else with_authority authority records)
    ++ tagged primary buckets

module _ {R : Type 0} (w : World R) (s : AggregateService) (publication : Str) where
  -- The source is what the store gave, or a "Thing" with the identifiers of the record.
  abbrev pub Found :
      Str × ConcordanceRecord → (found : Bool) → (concept source : SourceConcept R) → Type 0
  Found (authority, conc) true concept source = source ≡ concept
  Found (authority, conc) false concept source =
      (source.uuid ≡ conc.uuid)
      × (source.concept_type ≡ codes "Thing")
      × (source.authority ≡ authority)
      × (source.authority_value ≡ conc.authority_value)

  source_or_thing-Found :
      (authority : Str) (conc : ConcordanceRecord) (found : Bool) (concept : SourceConcept R)
      → Found (authority, conc) found concept (source_or_thing w s authority conc found concept)
  unfolding source_or_thing
  source_or_thing-Found authority conc true concept = refl
  source_or_thing-Found authority conc false concept = (refl, refl, refl, refl)

  -- The source was made for the record, from what its store gave.
  pub record SourceOf (entry : Str × ConcordanceRecord) (source : SourceConcept R) : Type 0 where
    pub log_before : Log
    pub found : Bool
    pub concept : SourceConcept R
    pub transaction_id : Str
    pub fetched :
        (fetch w s publication entry.1.uuid log_before).0 ≡ ok (found, concept, transaction_id)
    pub made : Found entry found concept source

  -- One source for each record, in the same order.
  abbrev pub SourcesOf : List (Str × ConcordanceRecord) → List (SourceConcept R) → Type 0
  SourcesOf [] [] = Unit {0}
  SourcesOf [] (_ ∷ _) = ⊥
  SourcesOf (_ ∷ _) [] = ⊥
  SourcesOf (entry ∷ entries) (source ∷ sources) = SourceOf entry source × SourcesOf entries sources

  SourcesOf-append :
      (entries : List (Str × ConcordanceRecord)) (sources : List (SourceConcept R))
      (entries' : List (Str × ConcordanceRecord)) (sources' : List (SourceConcept R))
      → SourcesOf entries sources
      → SourcesOf entries' sources'
      → SourcesOf (entries ++ entries') (sources ++ sources')
  SourcesOf-append [] [] entries' sources' h h' = h'
  SourcesOf-append [] (_ ∷ _) entries' sources' h h' = absurd h
  SourcesOf-append (_ ∷ _) [] entries' sources' h h' = absurd h
  SourcesOf-append (entry ∷ entries) (source ∷ sources) entries' sources' (h, hs) h' =
      (h, SourcesOf-append entries sources entries' sources' hs h')

  -- The loop has added sources for the entries.
  abbrev pub Adds :
      List (Str × ConcordanceRecord) → (before after : List (SourceConcept R)) → Type 0
  Adds entries before after =
      (sources : List (SourceConcept R)) × SourcesOf entries sources × (after ≡ before ++ sources)

  Adds-trans :
      (xs ys : List (Str × ConcordanceRecord)) (before middle after : List (SourceConcept R))
      → Adds xs before middle
      → Adds ys middle after
      → Adds (xs ++ ys) before after
  Adds-trans xs ys before middle after (a, ha, ea) (b, hb, eb) =
      (a ++ b, SourcesOf-append xs a ys b ha hb, eb ∙ ap (λ l. l ++ b) ea ∙ append_assoc before a b)

  gather_record-Adds :
      (authority : Str) (conc : ConcordanceRecord) (gathered next : Gathered w s) (log : Log)
      → (gather_record w s authority publication conc gathered log).0 ≡ ok next
      → Adds ((authority, conc) ∷ []) gathered.0 next.0
  unfolding gather_record
  gather_record-Adds authority conc gathered next log h =
      let (a, e, k, _) = >>=-ok (fetch w s publication conc.uuid) _ log h in
      (
        source_or_thing w s authority conc a.0 a.1 ∷ [],
        (
          record {
            log_before = log;
            found = a.0;
            concept = a.1;
            transaction_id = a.2;
            fetched = e;
            made = source_or_thing-Found authority conc a.0 a.1;
          },
          tt,
        ),
        ap (λ g. g.0) (sym (ok-injective k)),
      )

  gather_records-Adds :
      (authority : Str) (records : List ConcordanceRecord) (gathered next : Gathered w s)
      (log : Log)
      → (gather_records w s authority publication records gathered log).0 ≡ ok next
      → Adds (with_authority authority records) gathered.0 next.0
  unfolding gather_records
  gather_records-Adds authority [] gathered next log h =
      ([], tt, ap (λ g. g.0) (sym (ok-injective h)) ∙ sym (append-nil gathered.0))
  gather_records-Adds authority (conc ∷ records) gathered next log h =
      let (now, first, more, _) =
        >>=-ok (gather_record w s authority publication conc gathered) _ log h in
      Adds-trans ((authority, conc) ∷ []) (with_authority authority records) gathered.0 now.0 next.0
        (gather_record-Adds authority conc gathered now log first)
        (gather_records-Adds authority records now next _ more)

  gather_buckets-empty :
      (primary : Str) (gathered next : Gathered w s) (log : Log)
      → (gather_buckets w s primary publication [] gathered log).0 ≡ ok next
      → next ≡ gathered
  unfolding gather_buckets
  gather_buckets-empty primary gathered next log h = sym (ok-injective h)

  pub gather_buckets-Adds :
      (primary : Str) (buckets : Buckets) (gathered next : Gathered w s) (log : Log)
      → (gather_buckets w s primary publication buckets gathered log).0 ≡ ok next
      → Adds (tagged primary buckets) gathered.0 next.0
  gather_buckets-Adds primary [] gathered next log h = (
    [],
    tt,
    ap (λ g. g.0) (gather_buckets-empty primary gathered next log h) ∙ sym (append-nil gathered.0),
  )
  gather_buckets-Adds primary ((authority, records) ∷ buckets) gathered next log h =
      elim (Bool-cases (str_eq authority primary)) [
        | inl e ↦
            let skip =
              gather_buckets-skip w s primary publication authority records buckets gathered e in
            rw e (gather_buckets-Adds primary buckets gathered next log (rw skip at h))
        | inr e ↦
            let keep =
              gather_buckets-keep w s primary publication authority records buckets gathered e in
            let (now, first, more, _) =
              >>=-ok (gather_records w s authority publication records gathered) _ log
                (rw keep at h) in
            rw e (
              Adds-trans (with_authority authority records) (tagged primary buckets) gathered.0
                now.0 next.0 (gather_records-Adds authority records gathered now log first)
                (gather_buckets-Adds primary buckets now next _ more))
      ]
