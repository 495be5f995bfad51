-- ===== src/Concept/Buckets/Grouping.antt =====
-- What the buckets of bucketConcordances hold, and which authority is the primary one
-- (concept/service.go).
use aggregate_concept_transf.Common.{
  ℕ, zero, suc, List, [], ◌∷◌, ◌++◌, append_assoc, append-nil, Option, none, some, if◌then◌else◌,
  length, ◌≡◌, refl, ◌≢◌, ◌⊎◌, inl, inr, ◌∙◌, ap, sym, arith,
}
use aggregate_concept_transf.Text.{Str, codes, str_eq, str_eq_iff, is_empty}
use aggregate_concept_transf.Effects.{Res, ok, err}
use aggregate_concept_transf.World.{ConcordanceRecord}
use aggregate_concept_transf.Concept.Buckets.{
  Buckets, add_record, fill_buckets, find_bucket, bucket_concordances, group, conclude,
  check_managed_location, check_smartlogic, smartlogic_authority, managed_location_authority,
}

-- The records of one authority, in their order.
abbrev pub of_authority : Str → List ConcordanceRecord → List ConcordanceRecord
of_authority a [] = []
of_authority a (v ∷ records) =
    if str_eq v.authority a then v ∷ of_authority a records else of_authority a records

-- A bucket with more records behind those that it has; no bucket is made for none.
abbrev pub extend :
    Option (List ConcordanceRecord) → List ConcordanceRecord → Option (List ConcordanceRecord)
extend none [] = none
extend none (v ∷ records) = some (v ∷ records)
extend (some old) records = some (old ++ records)

find-add_record :
    (a : Str) (v : ConcordanceRecord) (buckets : Buckets)
    → find_bucket a (add_record v buckets) ≡ (
        if str_eq v.authority a
        then extend (find_bucket a buckets) (v ∷ [])
        else find_bucket a buckets)
unfolding find_bucket add_record
find-add_record a v [] = ground arith
find-add_record a v ((authority, records) ∷ buckets) = ground (
  arith,
  str_eq_iff authority v.authority,
  str_eq_iff authority a,
  str_eq_iff v.authority a,
  find-add_record a v buckets,
)

extend-extend :
    (o : Option (List ConcordanceRecord)) (v : ConcordanceRecord) (records : List ConcordanceRecord)
    → extend (extend o (v ∷ [])) records ≡ extend o (v ∷ records)
extend-extend none v records = refl
extend-extend (some old) v records = rw append_assoc refl

extend-none : (o : Option (List ConcordanceRecord)) → extend o [] ≡ o
extend-none none = refl
extend-none (some old) = rw append-nil refl

find-fill_buckets :
    (a : Str) (buckets : Buckets) (records : List ConcordanceRecord)
    → find_bucket a (fill_buckets buckets records)
      ≡ extend (find_bucket a buckets) (of_authority a records)
unfolding fill_buckets
find-fill_buckets a buckets [] = rw extend-none refl
find-fill_buckets a buckets (v ∷ records) = ground (
  arith,
  find-fill_buckets a (add_record v buckets) records,
  find-add_record a v buckets,
  extend-extend (find_bucket a buckets) v (of_authority a records),
)

-- The bucket of an authority holds the records of that authority, in their order, and there is
-- none where there are no such records.
pub find_bucket-fill_buckets :
    (a : Str) (records : List ConcordanceRecord)
    → find_bucket a (fill_buckets [] records) ≡ extend none (of_authority a records)
unfolding find_bucket
find_bucket-fill_buckets a records = find-fill_buckets a [] records

-- The choice of the primary authority by the number of Smartlogic records and the number of
-- ManagedLocation records.
abbrev pub choice : (smartlogic managed_location : ℕ) → Buckets → Res (Buckets × Str)
choice zero zero buckets = ok (buckets, [])
choice zero (suc zero) buckets = ok (buckets, managed_location_authority)
choice (suc zero) zero buckets = ok (buckets, smartlogic_authority)
choice (suc zero) (suc zero) buckets = ok (buckets, smartlogic_authority)
choice (suc (suc _)) zero buckets = err (codes "more than 1 primary authority")
choice (suc (suc _)) (suc zero) buckets = err (codes "more than 1 primary authority")
choice _ (suc (suc _)) buckets = err (codes "more than 1 ManagedLocation primary authority")

conclude-choice :
    (buckets : Buckets) (sl ml : List ConcordanceRecord)
    → conclude buckets (check_managed_location (extend none ml) (check_smartlogic (extend none sl)))
      ≡ choice (length sl) (length ml) buckets
unfolding is_empty
conclude-choice buckets [] [] = refl
conclude-choice buckets [] (_ ∷ []) = refl
conclude-choice buckets [] (_ ∷ _ ∷ ml) = ground arith
conclude-choice buckets (_ ∷ []) [] = refl
conclude-choice buckets (_ ∷ []) (_ ∷ []) = refl
conclude-choice buckets (_ ∷ []) (_ ∷ _ ∷ ml) = ground arith
conclude-choice buckets (_ ∷ _ ∷ sl) [] = ground arith
conclude-choice buckets (_ ∷ _ ∷ sl) (_ ∷ []) = ground arith
conclude-choice buckets (_ ∷ _ ∷ sl) (_ ∷ _ ∷ ml) = ground arith

group-choice :
    (records : List ConcordanceRecord)
    → group (fill_buckets [] records)
      ≡ choice
          (length (of_authority smartlogic_authority records))
          (length (of_authority managed_location_authority records))
          (fill_buckets [] records)
unfolding group
group-choice records =
    rw
      (
        find_bucket-fill_buckets smartlogic_authority records,
        find_bucket-fill_buckets managed_location_authority records,
      )
      (conclude-choice (fill_buckets [] records) (of_authority smartlogic_authority records)
        (of_authority managed_location_authority records))

-- What bucketConcordances answers, by the numbers of the records of the two primary authorities.
abbrev pub grouped : List ConcordanceRecord → Res (Buckets × Str)
grouped [] = err (codes "no concordances provided")
grouped (r ∷ records) =
    choice (length (of_authority smartlogic_authority (r ∷ records)))
      (length (of_authority managed_location_authority (r ∷ records)))
      (fill_buckets [] (r ∷ records))

-- bucketConcordances refuses an empty list. Of any other it fails exactly when there are two or
-- more records of Smartlogic or of ManagedLocation (with the message for ManagedLocation where
-- both hold); else it gives the buckets and the primary authority: Smartlogic where it has its one
-- record, else ManagedLocation where that has one, else none.
pub bucket_concordances-grouped :
    (records : List ConcordanceRecord) → bucket_concordances records ≡ grouped records
unfolding bucket_concordances
bucket_concordances-grouped [] = refl
bucket_concordances-grouped (r ∷ records) = group-choice (r ∷ records)

IsSingle : List ConcordanceRecord → Type 0
IsSingle records = (v : ConcordanceRecord) × (records ≡ v ∷ [])

choice-IsSingle :
    (sl ml : List ConcordanceRecord) (all buckets : Buckets) (primary : Str)
    → choice (length sl) (length ml) all ≡ ok (buckets, primary)
    → primary ≢ []
    → (buckets ≡ all)
      × ((primary ≡ smartlogic_authority) × IsSingle sl
          ⊎ (primary ≡ managed_location_authority) × IsSingle ml)
unfolding IsSingle
choice-IsSingle [] [] all buckets primary h k = absurd (k (ground arith))
choice-IsSingle [] (v ∷ []) all buckets primary h k = (ground arith, inr (ground arith, (v, refl)))
choice-IsSingle (v ∷ []) [] all buckets primary h k = (ground arith, inl (ground arith, (v, refl)))
choice-IsSingle (v ∷ []) (_ ∷ []) all buckets primary h k =
    (ground arith, inl (ground arith, (v, refl)))
choice-IsSingle (_ ∷ _ ∷ _) [] all buckets primary h k = cc
choice-IsSingle (_ ∷ _ ∷ _) (_ ∷ []) all buckets primary h k = cc
choice-IsSingle [] (_ ∷ _ ∷ _) all buckets primary h k = cc
choice-IsSingle (_ ∷ []) (_ ∷ _ ∷ _) all buckets primary h k = cc
choice-IsSingle (_ ∷ _ ∷ _) (_ ∷ _ ∷ _) all buckets primary h k = cc

single_at :
    (records : List ConcordanceRecord) (a primary : Str) (buckets : Buckets)
    → buckets ≡ fill_buckets [] records
    → primary ≡ a
    → IsSingle (of_authority a records)
    → (v : ConcordanceRecord) × (find_bucket primary buckets ≡ some (v ∷ []))
      × (of_authority primary records ≡ v ∷ [])
unfolding IsSingle
single_at records a primary buckets all same (v, e) =
    rw (all, same) (v, find_bucket-fill_buckets a records ∙ ap (extend none) e, e)

-- Where bucketConcordances succeeds and names a primary authority, exactly one of the records has
-- that authority, and it is the only content of that authority's bucket.
pub primary_bucket-single :
    (records : List ConcordanceRecord) (buckets : Buckets) (primary : Str)
    → bucket_concordances records ≡ ok (buckets, primary)
    → primary ≢ []
    → (v : ConcordanceRecord) × (find_bucket primary buckets ≡ some (v ∷ []))
      × (of_authority primary records ≡ v ∷ [])
primary_bucket-single [] buckets primary h k = absurd (unfold bucket_concordances in cc)
primary_bucket-single (r ∷ rest) buckets primary h k =
    let records : List ConcordanceRecord = r ∷ rest in
    let (all, which) =
      choice-IsSingle (of_authority smartlogic_authority records)
        (of_authority managed_location_authority records) (fill_buckets [] records) buckets primary
        (sym (bucket_concordances-grouped records) ∙ h) k in
    elim which [
      | inl (same, single) ↦ single_at records smartlogic_authority primary buckets all same single
      | inr (same, single) ↦
          single_at records managed_location_authority primary buckets all same single
    ]

choice-buckets :
    (sl ml : ℕ) (all buckets : Buckets) (primary : Str)
    → choice sl ml all ≡ ok (buckets, primary)
    → buckets ≡ all
choice-buckets zero zero all buckets primary h = ground arith
choice-buckets zero (suc zero) all buckets primary h = ground arith
choice-buckets (suc zero) zero all buckets primary h = ground arith
choice-buckets (suc zero) (suc zero) all buckets primary h = ground arith
choice-buckets (suc (suc _)) zero all buckets primary h = cc
choice-buckets (suc (suc _)) (suc zero) all buckets primary h = cc
choice-buckets zero (suc (suc _)) all buckets primary h = cc
choice-buckets (suc zero) (suc (suc _)) all buckets primary h = cc
choice-buckets (suc (suc _)) (suc (suc _)) all buckets primary h = cc

-- Where bucketConcordances succeeds, its buckets are those of all the records.
pub bucket_concordances-buckets :
    (records : List ConcordanceRecord) (buckets : Buckets) (primary : Str)
    → bucket_concordances records ≡ ok (buckets, primary)
    → buckets ≡ fill_buckets [] records
bucket_concordances-buckets [] buckets primary h = absurd (unfold bucket_concordances in cc)
bucket_concordances-buckets (r ∷ rest) buckets primary h =
    choice-buckets (length (of_authority smartlogic_authority (r ∷ rest)))
      (length (of_authority managed_location_authority (r ∷ rest))) (fill_buckets [] (r ∷ rest))
      buckets primary (sym (bucket_concordances-grouped (r ∷ rest)) ∙ h)
