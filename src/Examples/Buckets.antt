-- ===== src/Examples/Buckets.antt =====
-- The theorems on buckets, on reads and on updates at the small world.
use aggregate_concept_transf.Common.{[], ◌∷◌, ◌≡◌, refl, List}
use aggregate_concept_transf.Text.{codes, str_eq}
use aggregate_concept_transf.Effects.{ok}
use aggregate_concept_transf.World.{ConcordanceRecord}
use aggregate_concept_transf.Concept.Buckets.{Buckets, smartlogic_authority, bucket_concordances}
use aggregate_concept_transf.Concept.Buckets.Grouping.{grouped, bucket_concordances-grouped}
use aggregate_concept_transf.Examples.{record_a, record_b}

abbrev records : List ConcordanceRecord
records = record_b ∷ record_a ∷ []

abbrev buckets : Buckets
buckets = (codes "TME", record_b ∷ []) ∷ (codes "Smartlogic", record_a ∷ []) ∷ []

buckets-of_records : bucket_concordances records ≡ ok (buckets, smartlogic_authority)
unfolding bucket_concordances str_eq
buckets-of_records = refl

bucket_concordances-grouped_example : bucket_concordances records ≡ grouped records
bucket_concordances-grouped_example = bucket_concordances-grouped records
