-- ===== src/Examples/Keys.antt =====
-- The theorems on keys, paths, targets, addresses and options at concrete texts.
use aggregate_concept_transf.Common.{map, none, some, ◌↔◌, Elem, [], ◌++◌, ◌≡◌, refl, inl, ◌∷◌}
use aggregate_concept_transf.Text.{Str, codes, has_byte}
use aggregate_concept_transf.Text.Matching.{Lacks}
use aggregate_concept_transf.Text.Regex.{match_here, accepts, is_hex, find_all, find_from}
use aggregate_concept_transf.Effects.{ok}
use aggregate_concept_transf.Concept.Identifiers.{
  extract_identifiers_from_key, by_matches, by_parts,
}
use aggregate_concept_transf.Concept.Identifiers.RoundTrip.{IsUuid}
use aggregate_concept_transf.Concept.Handlers.{requested_key}
use aggregate_concept_transf.Concept.Handlers.Keys.{extract-requested_key}
use aggregate_concept_transf.Concept.Checks.{elasticsearch_gtg_url}
use aggregate_concept_transf.Concept.Checks.Urls.{elasticsearch_gtg_url-append}
use aggregate_concept_transf.Concept.Paths.{
  is_upper, is_lower, is_digit, starts_lower, to_snake_case, to_lower,
}
use aggregate_concept_transf.Concept.Paths.Spaced.{spaced, to_snake_case-spaced}
use aggregate_concept_transf.World.{NotificationRecord}
use aggregate_concept_transf.Sqs.{ConceptUpdate, of_records}
use aggregate_concept_transf.S3.{object_key}
use aggregate_concept_transf.S3.Keys.{of_records-object_key}
use aggregate_concept_transf.Concept.Purger.{target, purge_targets}
use aggregate_concept_transf.Concept.Purger.Targets.{TargetOf, purge_targets-TargetOf}
use aggregate_concept_transf.Concept.Handlers.{error_response}
use aggregate_concept_transf.Concept.Handlers.Bodies.{read_message, Plain, error_response-Plain}
use aggregate_concept_transf.Examples.{uuid_a}

uuid_a-IsUuid : IsUuid uuid_a
unfolding match_here accepts is_hex
uuid_a-IsUuid = refl

abbrev manual : Str
manual = codes "manual"

manual-Lacks : Lacks b'-' manual
manual-Lacks = ((λ e. cc), ((λ e. cc), ((λ e. cc), ((λ e. cc), ((λ e. cc), ((λ e. cc), tt))))))

manual-Lacks_slash : Lacks b'/' manual
manual-Lacks_slash =
    ((λ e. cc), ((λ e. cc), ((λ e. cc), ((λ e. cc), ((λ e. cc), ((λ e. cc), tt))))))

extract-requested_key_example :
    extract_identifiers_from_key (requested_key uuid_a manual) ≡ ok (uuid_a, manual)
extract-requested_key_example = extract-requested_key uuid_a manual uuid_a-IsUuid (inl manual-Lacks)

extract-uuid_a : extract_identifiers_from_key uuid_a ≡ ok (uuid_a, [])
unfolding extract_identifiers_from_key by_matches by_parts find_all find_from match_here accepts
    is_hex
extract-uuid_a = refl

elasticsearch_gtg_url-append_example :
    elasticsearch_gtg_url (codes "http://h" ++ codes "ub/bulk")
    ≡ elasticsearch_gtg_url (codes "http://h")
elasticsearch_gtg_url-append_example =
    elasticsearch_gtg_url-append (codes "http://h") (codes "ub/bulk")
      (unfold has_byte in (refl, (refl, (refl, (refl, (refl, (refl, (refl, tt))))))))

snake_case_test :
    to_snake_case (codes "FTAnIIndustryClassification") ≡ codes "ft-an-i-industry-classification"
unfolding to_snake_case
snake_case_test = refl

to_snake_case-spaced_example :
    to_snake_case (codes "SVCategory2To") ≡ map to_lower (codes "SV-Category2-To")
unfolding spaced is_upper is_lower is_digit starts_lower
to_snake_case-spaced_example = to_snake_case-spaced (codes "SVCategory2To")

abbrev things : Str × Str
things = target (codes "/things") uuid_a

purge_targets-TargetOf_example :
    Elem things (purge_targets (uuid_a ∷ []) (codes "Person") (codes "Person" ∷ [])) ↔ (
      (uuid : Str) × Elem uuid (uuid_a ∷ [])
      × TargetOf (codes "Person") (codes "Person" ∷ []) uuid things)
purge_targets-TargetOf_example =
    purge_targets-TargetOf things (uuid_a ∷ []) (codes "Person") (codes "Person" ∷ [])

-- The notification of the object that holds the concept of a publication.
abbrev notification : NotificationRecord
notification = record { key = object_key manual uuid_a; bookmark = codes "mark" }

of_records-object_key_example :
    (n : ConceptUpdate) × (of_records none (some (notification ∷ [])) ≡ ok (some n))
    × (extract_identifiers_from_key n.uuid ≡ ok (uuid_a, manual))
    × (n.bookmark ≡ codes "mark")
    × (n.receipt_handle ≡ none)
of_records-object_key_example =
    of_records-object_key none notification [] manual uuid_a
      (inl (manual-Lacks, manual-Lacks_slash)) uuid_a-IsUuid refl

-- The text of a failed call.
abbrev refused : Str
refused = codes "Get \"http://h\": connection refused"

error_response-Plain_example :
    (read_message (error_response refused).body ≡ some refused) ↔ Plain refused
error_response-Plain_example = error_response-Plain refused
