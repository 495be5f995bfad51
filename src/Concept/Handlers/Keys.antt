-- ===== src/Concept/Handlers/Keys.antt =====
-- The key that GetHandler makes of a request, and what extractIdentifiersFromKey of
-- concept/service.go takes from it.
use aggregate_concept_transf.Common.{[], ◌∷◌, ◌≡◌, ◌⊎◌}
use aggregate_concept_transf.Text.{Str}
use aggregate_concept_transf.Text.Matching.{Lacks}
use aggregate_concept_transf.Effects.{ok}
use aggregate_concept_transf.Concept.Identifiers.{extract_identifiers_from_key}
use aggregate_concept_transf.Concept.Identifiers.RoundTrip.{IsUuid, extract-joined, extract-uuid}
use aggregate_concept_transf.Concept.Handlers.{requested_key}

-- The key that a request for a UUID gives, with or without a publication, is taken apart into that
-- UUID and that publication, where the publication is a UUID itself or has no dash.
pub extract-requested_key :
    (uuid publication : Str)
    → IsUuid uuid
    → Lacks b'-' publication ⊎ IsUuid publication
    → extract_identifiers_from_key (requested_key uuid publication) ≡ ok (uuid, publication)
unfolding requested_key
extract-requested_key uuid [] h k = extract-uuid uuid h
extract-requested_key uuid (x ∷ publication) h k = extract-joined (x ∷ publication) uuid h k
