-- ===== src/Concept/Gather/Unordered.antt =====
-- The concept that getConcordedConcept makes, whatever the order of the map (concept/service.go).
use mathlib.Core.List.{Perm, map}
use mathlib.Core.List.Perm
use aggregate_concept_transf.Common.{
  List, [], ◌∷◌, ◌++◌, if◌then◌else◌, ◌≡◌, refl, sym, ap, ◌∙◌, inl, inr, append_assoc, append-nil,
}
use aggregate_concept_transf.Text.{Str, str_eq}
use aggregate_concept_transf.Effects.{Res, ok, err, panic, Res-cases, bind-ok, ok-injective}
use aggregate_concept_transf.World.{SourceConcept, ConcordanceRecord, World}
use aggregate_concept_transf.Concept.Buckets.{Buckets}
use aggregate_concept_transf.Concept.Service.{AggregateService}
use aggregate_concept_transf.Concept.Gather.{Gathered}
use aggregate_concept_transf.Concept.Gather.Order.{join-perm}
use aggregate_concept_transf.Concept.Gather.Contents.{tagged, with_authority}
use aggregate_concept_transf.Concept.Gather.Steady.{Steady, source_answer, gather_entries}

-- The values among some results.
abbrev value {ℓ} : {A : Type ℓ} → Res A → List A
value (ok a) = a ∷ []
value (err e) = []
value panic = []

abbrev values {ℓ} : {A : Type ℓ} → List (Res A) → List A
values [] = []
values (r ∷ rs) = value r ++ values rs

-- A mark for each result that is no value.
abbrev failure {ℓ} : {A : Type ℓ} → Res A → List (Unit {0})
failure (ok a) = []
failure (err e) = tt ∷ []
failure panic = tt ∷ []

abbrev failures {ℓ} : {A : Type ℓ} → List (Res A) → List (Unit {0})
failures [] = []
failures (r ∷ rs) = failure r ++ failures rs

values-perm {ℓ} : {A : Type ℓ} (rs ts : List (Res A)) → Perm rs ts → Perm (values rs) (values ts)
values-perm = join-perm value values (λ r rs. refl)

failures-perm {ℓ} :
    {A : Type ℓ} (rs ts : List (Res A)) → Perm rs ts → failures rs ≡ [] → failures ts ≡ []
failures-perm rs ts p h =
    let q : Perm (failures rs) (failures ts) = join-perm failure failures (λ r rs. refl) rs ts p in
    sym (Perm.nil-eq (rw h at q))

module _ {R : Type 0} (w : World R) (steady : Steady w) (s : AggregateService)
    (publication : Str) where
  abbrev answers : List (Str × ConcordanceRecord) → List (Res (SourceConcept R × Str))
  answers = map (source_answer w steady s publication)

  -- The sources among the answers for the entries.
  abbrev sources_of : List (Str × ConcordanceRecord) → List (SourceConcept R)
  sources_of entries = map (λ (a : SourceConcept R × Str). a.0) (values (answers entries))

  gather_entries-ok :
      (entries : List (Str × ConcordanceRecord)) (gathered next : Gathered w s)
      → gather_entries w steady s publication entries gathered ≡ ok next
      → (failures (answers entries) ≡ []) × (next.0 ≡ gathered.0 ++ sources_of entries)
  gather_entries-ok [] gathered next h =
      (refl, ap (λ g. g.0) (sym (ok-injective h)) ∙ sym (append-nil gathered.0))
  gather_entries-ok (entry ∷ entries) gathered next h =
      let (a, e, k) = bind-ok (source_answer w steady s publication entry) _ h in
      let (none_failed, all) = gather_entries-ok entries (gathered.0 ++ a.0 ∷ [], a.1) next k in
      rw e (none_failed, all ∙ append_assoc gathered.0 (a.0 ∷ []) (sources_of entries))

  gather_entries-all :
      (entries : List (Str × ConcordanceRecord)) (gathered : Gathered w s)
      → failures (answers entries) ≡ []
      → (next : Gathered w s) × (gather_entries w steady s publication entries gathered ≡ ok next)
  gather_entries-all [] gathered h = (gathered, refl)
  gather_entries-all (entry ∷ entries) gathered h =
      elim (Res-cases (source_answer w steady s publication entry)) [
        | inl (a, e) ↦ rw e (gather_entries-all entries (gathered.0 ++ a.0 ∷ [], a.1) (rw e at h))
        | inr rest ↦ elim rest [
          | inl (_, e) ↦ let bad = rw e at h in cc
          | inr e ↦ let bad = rw e at h in cc
        ]
      ]

  -- Where one walk over the buckets succeeds, so does another, with the same sources.
  pub gather_entries-perm :
      (xs ys : List (Str × ConcordanceRecord)) (gathered : Gathered w s)
      → Perm xs ys
      → gather_entries w steady s publication xs ([], []) ≡ ok gathered
      → (next : Gathered w s) × (gather_entries w steady s publication ys ([], []) ≡ ok next)
        × Perm gathered.0 next.0
  gather_entries-perm xs ys gathered p h =
      let same : Perm (answers xs) (answers ys) =
        Perm.map (source_answer w steady s publication) p in
      let (passed, all) = gather_entries-ok xs ([], []) gathered h in
      let (next, run) =
        gather_entries-all ys ([], []) (failures-perm (answers xs) (answers ys) same passed) in
      let (_, all') = gather_entries-ok ys ([], []) next run in
      (
        next,
        run,
        rw (all, all')
            (Perm.map (λ (a : SourceConcept R × Str). a.0)
              (values-perm (answers xs) (answers ys) same)),
      )

pub tagged-perm :
    (primary : Str) (b c : Buckets) → Perm b c → Perm (tagged primary b) (tagged primary c)
tagged-perm primary =
    join-perm (λ bucket. if str_eq bucket.0 primary then [] else with_authority bucket.0 bucket.1)
      (tagged primary) (λ bucket buckets. refl)
