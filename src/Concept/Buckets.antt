-- ===== src/Concept/Buckets.antt =====
-- bucketConcordances of concept/service.go: the records by authority, and the primary authority.
pub mod Grouping
use aggregate_concept_transf.Common.{
  List, [], ◌∷◌, ◌++◌, ◌==◌, Option, none, some, if◌then◌else◌, length,
}
use aggregate_concept_transf.Text.{Str, codes, str_eq, is_empty}
use aggregate_concept_transf.Effects.{Res, ok, err}
use aggregate_concept_transf.World.{ConcordanceRecord}

-- ontology.SmartlogicAuthority and ontology.ManagedLocationAuthority
abbrev pub smartlogic_authority : Str
smartlogic_authority = codes "Smartlogic"

abbrev pub managed_location_authority : Str
managed_location_authority = codes "ManagedLocation"

-- map[string][]concordances.ConcordanceRecord, the entries in order of insertion
abbrev pub Buckets : Type 0
Buckets = List (Str × List ConcordanceRecord)

-- bucketed[v.Authority] = append(bucketed[v.Authority], v)
unfoldable pub add_record : ConcordanceRecord → Buckets → Buckets
add_record v [] = (v.authority, v ∷ []) ∷ []
add_record v ((authority, records) ∷ buckets) =
    if str_eq authority v.authority
    then (authority, records ++ v ∷ []) ∷ buckets
    else (authority, records) ∷ add_record v buckets

unfoldable pub fill_buckets : Buckets → List ConcordanceRecord → Buckets
unfolding add_record
fill_buckets buckets [] = buckets
fill_buckets buckets (v ∷ records) = fill_buckets (add_record v buckets) records

-- records, found := bucketed[authority]
unfoldable pub find_bucket : Str → Buckets → Option (List ConcordanceRecord)
find_bucket key [] = none
find_bucket key ((authority, records) ∷ buckets) =
    if str_eq authority key then some records else find_bucket key buckets

-- The state of the checks: the primary authority so far, and the error so far.
abbrev Choice : Type 0
Choice = Str × Option Str

abbrev check_smartlogic : Option (List ConcordanceRecord) → Choice
check_smartlogic none = ([], none)
check_smartlogic (some records) =
    if length records == 1
    then (smartlogic_authority, none)
    else ([], some (codes "more than 1 primary authority"))

abbrev check_managed_location : Option (List ConcordanceRecord) → Choice → Choice
check_managed_location none choice = choice
check_managed_location (some records) (primary, e) =
    if length records == 1
    then (if is_empty primary then managed_location_authority else primary, e)
    else (primary, some (codes "more than 1 ManagedLocation primary authority"))

abbrev conclude : Buckets → Choice → Res (Buckets × Str)
conclude buckets (primary, none) = ok (buckets, primary)
conclude buckets (primary, some e) = err e

unfoldable pub group : Buckets → Res (Buckets × Str)
unfolding is_empty
group buckets = conclude buckets (
    check_managed_location (find_bucket managed_location_authority buckets)
      (check_smartlogic (find_bucket smartlogic_authority buckets)))

unfoldable pub bucket_concordances : List ConcordanceRecord → Res (Buckets × Str)
unfolding group fill_buckets find_bucket
bucket_concordances [] = err (codes "no concordances provided")
bucket_concordances (r ∷ records) = group (fill_buckets [] (r ∷ records))
