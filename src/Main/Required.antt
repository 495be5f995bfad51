-- ===== src/Main/Required.antt =====
-- Which options the service does not start without (app.Before of main.go).
use aggregate_concept_transf.Common.{
  [], ◌∷◌, Bool, true, false, none, Option, ◌≡◌, ◌≢◌, refl, ◌⊎◌, inl, inr, ◌↔◌, false≢true,
  if◌then◌else◌,
}
use aggregate_concept_transf.Text.{Str, is_empty}
use aggregate_concept_transf.Main.{Options, demand, before}

demand-none :
    (option message : Str) (next : Option Str)
    → (demand option message next ≡ none) ↔ ((option ≢ []) × (next ≡ none))
unfolding demand is_empty
demand-none [] message next = (λ h. cc, λ (h, _). absurd (h refl))
demand-none (x ∷ option) message next = (λ h. (λ e. cc, h), λ (_, h). h)

-- The options of the queue and of the stream, which the read-only mode goes without.
abbrev pub Writable : Options → Type 0
Writable o =
    (o.concept_updates_queue_url ≢ []) × ((o.sqs_region ≢ []) × (o.kinesis_stream_name ≢ []))

abbrev pub Configured : Options → Type 0
Configured o =
    (o.bucket_name ≢ [])
    × ((o.bucket_region ≢ [])
        × ((o.concordances_reader_address ≢ []) × ((o.is_read_only ≡ true) ⊎ Writable o)))

if-none :
    (b : Bool) (next : Option Str) {P : Type 0}
    → (next ≡ none) ↔ P
    → ((if b then none else next) ≡ none) ↔ ((b ≡ true) ⊎ P)
if-none true next (forth, back) = (λ h. inl refl, λ h. refl)
if-none false next (forth, back) =
    (λ h. inr (forth h), λ h. elim h [ inl e ↦ absurd (false≢true e) | inr k ↦ back k ])

demand-last : (option message : Str) → (demand option message none ≡ none) ↔ (option ≢ [])
demand-last option message =
    let (apart, join) = demand-none option message none in (λ h. (apart h).0, λ a. join (a, refl))

chain :
    (option message : Str) (next : Option Str) {P : Type 0}
    → (next ≡ none) ↔ P
    → (demand option message next ≡ none) ↔ ((option ≢ []) × P)
chain option message next (forth, back) =
    let (apart, join) = demand-none option message next in
    (λ h. let (a, b) = apart h in (a, forth b), λ (a, p). join (a, back p))

-- app.Before ends without a fatal message exactly where the bucket, its region and the
-- concordances reader are set and, unless it is read-only, the queue, its region and the stream
-- are set too.
pub before-Configured : (o : Options) → (before o ≡ none) ↔ Configured o
unfolding before
before-Configured o = chain o.bucket_name _ _ (
    chain o.bucket_region _ _ (
      chain o.concordances_reader_address _ _ (
        if-none o.is_read_only _ (
          chain o.concept_updates_queue_url _ _
            (chain o.sqs_region _ _ (demand-last o.kinesis_stream_name _))))))
