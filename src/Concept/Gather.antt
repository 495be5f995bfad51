-- ===== src/Concept/Gather.antt =====
-- getConcordedConcept and GetConcordedConcept of concept/service.go: reading every source of a
-- concept and putting them together.
pub mod Stages
pub mod Reads
pub mod Contents
pub mod Order
pub mod Sources
pub mod Results
pub mod Calls
pub mod Quiet
pub mod Steady
pub mod Unordered
pub mod Repeat
use aggregate_concept_transf.Common.{
  List, [], ◌∷◌, ◌++◌, Bool, true, false, Option, none, some, if◌then◌else◌,
}
use aggregate_concept_transf.Text.{Str, codes, str_eq, is_empty}
use aggregate_concept_transf.Effects.{Res, ok, err, panic, M, ◌>>=◌, return, lift}
use aggregate_concept_transf.World.{SourceConcept, CanonicalConcept, ConcordanceRecord, World}
use aggregate_concept_transf.Concordances.{get_concordance}
use aggregate_concept_transf.S3.{get_concept_and_transaction_id, empty_source}
use aggregate_concept_transf.Concept.Identifiers.{extract_identifiers_from_key}
use aggregate_concept_transf.Concept.Buckets.{Buckets, find_bucket, bucket_concordances}
use aggregate_concept_transf.Concept.Service.{AggregateService, with_deadline}

-- The last element of a :: rest, behind those before it: sources[n-1] and sources[:n-1].
unfoldable pub split_last {ℓ} : {A : Type ℓ} → A → List A → List A × A
split_last a [] = ([], a)
split_last a (b ∷ bs) = let (before, last) = split_last b bs in (a ∷ before, last)

module _ {R : Type 0} (w : World R) (s : AggregateService) where
  -- The store is the external one where there is a publication.
  unfoldable pub fetch : (publication uuid : Str) → M (Bool × SourceConcept R × Str)
  unfolding is_empty
  fetch publication uuid =
      if is_empty publication
      then get_concept_and_transaction_id w s.n_store [] uuid
      else get_concept_and_transaction_id w s.external_normalised_store publication uuid

  -- The source concepts gathered so far, and the transaction of the last one read.
  abbrev pub Gathered : Type 0
  Gathered = List (SourceConcept R) × Str

  -- A source that is not in the store is written as a "Thing".
  unfoldable pub source_or_thing :
      (authority : Str) → ConcordanceRecord → (found : Bool) → SourceConcept R → SourceConcept R
  source_or_thing authority conc true concept = concept
  source_or_thing authority conc false concept = record concept {
    authority = authority;
    authority_value = conc.authority_value;
    uuid = conc.uuid;
    concept_type = codes "Thing";
  }

  -- one round of the inner loop
  unfoldable pub gather_record :
      (authority publication : Str) → ConcordanceRecord → Gathered → M Gathered
  unfolding source_or_thing
  gather_record authority publication conc (sources, _) = do
    (found, concept, transaction_id) ← fetch publication conc.uuid
    return (sources ++ source_or_thing authority conc found concept ∷ [], transaction_id)

  unfoldable pub gather_records :
      (authority publication : Str) → List ConcordanceRecord → Gathered → M Gathered
  gather_records authority publication [] gathered = return gathered
  gather_records authority publication (conc ∷ records) gathered = do
    next ← gather_record authority publication conc gathered
    gather_records authority publication records next

  -- the loop over the buckets, which passes over the primary authority
  unfoldable pub gather_buckets : (primary publication : Str) → Buckets → Gathered → M Gathered
  gather_buckets primary publication [] gathered = return gathered
  gather_buckets primary publication ((authority, records) ∷ buckets) gathered =
      elim (str_eq authority primary) [
        | true ↦ gather_buckets primary publication buckets gathered
        | false ↦ do
          next ← gather_records authority publication records gathered
          gather_buckets primary publication buckets next
      ]

  -- range over the map starts in the order that the map gives
  unfoldable pub gather_sources : (primary publication : Str) → Buckets → M Gathered
  gather_sources primary publication buckets log =
      gather_buckets primary publication (w.map_order log buckets) ([], []) log

  unfoldable pub primary_or_missing :
      Str → Bool × SourceConcept R × Str → Res (SourceConcept R × Str)
  primary_or_missing uuid (true, concept, transaction_id) = ok (concept, transaction_id)
  primary_or_missing uuid (false, _, _) =
      err (codes "canonical concept " ++ (uuid ++ codes " not found in S3"))

  -- buckets[primary][0], and its concept
  unfoldable pub primary_of_bucket :
      (publication : Str) → Option (List ConcordanceRecord) → M (SourceConcept R × Str)
  unfolding primary_or_missing
  primary_of_bucket publication (some (canonical ∷ _)) = do
    reply ← fetch publication canonical.uuid
    lift (primary_or_missing canonical.uuid reply)
  primary_of_bucket publication (some []) = lift panic
  primary_of_bucket publication none = lift panic

  unfoldable pub fetch_primary :
      (primary publication : Str) → Buckets → (transaction_id : Str) → M (SourceConcept R × Str)
  unfolding primary_of_bucket
  fetch_primary primary publication buckets transaction_id =
      if is_empty primary
      then return (empty_source w, transaction_id)
      else primary_of_bucket publication (find_bucket primary buckets)

  -- ontology.CanonicalConcept{}
  abbrev pub empty_canonical : CanonicalConcept R
  empty_canonical = record {
    pref_uuid = [];
    concept_type = [];
    issued_by = [];
    source_representations = [];
    relationships = [];
    rest = w.no_rest;
  }

  -- no primary authority concept: the last source stands for it
  unfoldable pub without_primary :
      List (SourceConcept R) → (transaction_id : Str) → CanonicalConcept R × Str
  unfolding split_last
  without_primary [] transaction_id = (empty_canonical, [])
  without_primary (a ∷ rest) transaction_id =
      let (before, last) = split_last a rest in
      (w.create_canonical_concept last before, transaction_id)

  -- the transformation to the new format
  unfoldable pub aggregate :
      SourceConcept R → List (SourceConcept R) → (transaction_id : Str) → CanonicalConcept R × Str
  unfolding without_primary is_empty
  aggregate primary sources transaction_id =
      if is_empty primary.uuid
      then without_primary sources transaction_id
      else (w.create_canonical_concept primary sources, transaction_id)

  -- (*AggregateService).getConcordedConcept
  unfoldable pub get_concorded : (uuid bookmark : Str) → M (CanonicalConcept R × Str)
  get_concorded uuid bookmark = do
    (cleaned_uuid, publication) ← lift (extract_identifiers_from_key uuid)
    records ← get_concordance w s.concordances cleaned_uuid bookmark
    (buckets, primary_authority) ← lift (bucket_concordances records)
    (sources, source_tid) ← gather_sources primary_authority publication buckets
    (primary, transaction_id) ← fetch_primary primary_authority publication buckets source_tid
    return (aggregate primary sources transaction_id)

  -- (*AggregateService).GetConcordedConcept
  unfoldable pub get_concorded_concept : (uuid bookmark : Str) → M (CanonicalConcept R × Str)
  get_concorded_concept uuid bookmark = with_deadline w (get_concorded uuid bookmark)
