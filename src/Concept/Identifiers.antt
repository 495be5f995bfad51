-- ===== src/Concept/Identifiers.antt =====
-- extractIdentifiersFromKey of concept/service.go: the UUID and the publication in a key.
pub mod RoundTrip
use aggregate_concept_transf.Common.{ℕ, List, [], ◌∷◌, ◌++◌, ◌==◌, if◌then◌else◌, length}
use aggregate_concept_transf.Text.{Str, codes, split_two}
use aggregate_concept_transf.Text.Regex.{uuid_matcher, find_all}
use aggregate_concept_transf.Effects.{Res, ok, err}

-- const lengthOfUUID
abbrev pub length_of_uuid : ℕ
length_of_uuid = 36

-- `parts` of the code: with more than one, the first is the publication.
unfoldable pub by_parts : Str → List Str → Res (Str × Str)
by_parts m (part ∷ _ ∷ _) = ok (m, part)
by_parts m _ = ok (m, [])

unfoldable pub by_matches : Str → List Str → Res (Str × Str)
unfolding by_parts
by_matches uuid [] = err (codes "error while extracting identificators from key: " ++ uuid)
by_matches uuid (first ∷ second ∷ _) = ok (second, first)
by_matches uuid (m ∷ []) =
    if length uuid == length_of_uuid then ok (m, []) else by_parts m (split_two b'-' uuid)

-- The UUID and the publication that a key names.
unfoldable pub extract_identifiers_from_key : Str → Res (Str × Str)
unfolding by_matches
extract_identifiers_from_key uuid = by_matches uuid (find_all uuid_matcher 2 uuid)
