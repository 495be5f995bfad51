-- ===== src/Examples/Repeat.antt =====
-- Two runs of getConcordedConcept that walk the same map in different orders.
use mathlib.Core.List.Perm
use mathlib.Core.List.{Perm}
use aggregate_concept_transf.Common.{List, [], ◌∷◌, ◌≡◌, refl}
use aggregate_concept_transf.Text.{Str, codes, str_eq}
use aggregate_concept_transf.Text.Regex.{find_all}
use aggregate_concept_transf.Effects.{ok, Call, Log}
use aggregate_concept_transf.World.{SourceConcept, CanonicalConcept, ConcordanceRecord, World}
use aggregate_concept_transf.Concept.Identifiers.{extract_identifiers_from_key}
use aggregate_concept_transf.Concept.Buckets.{bucket_concordances}
use aggregate_concept_transf.Concordances.{get_concordance}
use aggregate_concept_transf.S3.{get_concept_and_transaction_id}
use aggregate_concept_transf.Concept.Gather.{
  get_concorded, gather_sources, gather_buckets, gather_records, gather_record, fetch,
  fetch_primary, aggregate,
}
use aggregate_concept_transf.Concept.Gather.Steady.{Steady}
use aggregate_concept_transf.Concept.Gather.Repeat.{
  PrimaryRead, SameUpToOrder, get_concorded-SameUpToOrder,
}
use aggregate_concept_transf.Examples.{
  uuid_a, uuid_b, record_a, record_b, source_a, world, service, canonical_of,
}

abbrev record_c : ConcordanceRecord
record_c = record { uuid = uuid_b; authority = codes "FACTSET"; authority_value = codes "c" }

-- The first bucket behind the second one.
abbrev swapped : {A : Type 0} → List A → List A
swapped [] = []
swapped (a ∷ []) = a ∷ []
swapped (a ∷ b ∷ rest) = b ∷ a ∷ rest

-- The first run walks the map in the order of insertion, a later one in another order.
abbrev walk : {A : Type 0} → Log → List A → List A
walk [] buckets = buckets
walk (_ ∷ []) buckets = buckets
walk (_ ∷ _ ∷ _) buckets = swapped buckets

swapped-perm : {A : Type 0} (xs : List A) → Perm (swapped xs) xs
swapped-perm [] = Perm.refl []
swapped-perm (a ∷ []) = Perm.refl (a ∷ [])
swapped-perm (a ∷ b ∷ rest) = Perm.swap a b rest

walk-perm : {A : Type 0} (log : Log) (xs : List A) → Perm (walk log xs) xs
walk-perm [] xs = Perm.refl xs
walk-perm (_ ∷ []) xs = Perm.refl xs
walk-perm (_ ∷ _ ∷ _) xs = swapped-perm xs

abbrev unordered_world : World (Unit {0})
unordered_world = record world {
  map_order = λ log buckets. walk log buckets;
  unmarshal_concordances = λ text. ok (record_b ∷ record_c ∷ record_a ∷ []);
}

abbrev concept_a : CanonicalConcept (Unit {0})
concept_a = canonical_of source_a (source_a ∷ source_a ∷ [])

first_run : (get_concorded unordered_world service uuid_a [] []).0 ≡ ok (concept_a, codes "tid")
unfolding get_concorded extract_identifiers_from_key find_all get_concordance bucket_concordances
    str_eq gather_sources gather_buckets gather_records gather_record fetch
    get_concept_and_transaction_id fetch_primary aggregate
first_run = refl

unordered_world-Steady : Steady unordered_world
unordered_world-Steady = record {
  http_steady = λ log req. refl;
  get_steady = λ log bucket key. refl;
  head_steady = λ log bucket key. refl;
}

get_concorded-SameUpToOrder_example :
    (primary : SourceConcept (Unit {0})) × (r' : CanonicalConcept (Unit {0}) × Str) × PrimaryRead
      unordered_world service uuid_a [] [] primary
    × ((get_concorded unordered_world service uuid_a [] (Call.s3_get [] [] ∷ [])).0 ≡ ok r')
    × SameUpToOrder unordered_world service primary (concept_a, codes "tid") r'
get_concorded-SameUpToOrder_example =
    get_concorded-SameUpToOrder unordered_world service unordered_world-Steady uuid_a [] []
      (Call.s3_get [] [] ∷ []) (concept_a, codes "tid") (λ log buckets. walk-perm log buckets)
      first_run
