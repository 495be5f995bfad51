-- ===== src/Concept/Paths.antt =====
-- resolveConceptType and toSnakeCase of concept/service.go: the path segment for a concept type.
-- strings.ToLower is that of ASCII; the types of the ontology are ASCII names.
pub mod Spaced
pub mod Words
use aggregate_concept_transf.Common.{
  ℕ, List, [], ◌∷◌, ◌++◌, map, Bool, true, false, not, ◌+◌, ◌&&◌, ◌||◌, ◌==◌, leb, Option, none,
  some, if◌then◌else◌,
}
use aggregate_concept_transf.Text.{Str, codes, str_eq, is_empty}

unfoldable pub is_upper : ℕ → Bool
is_upper c = leb b'A' c && leb c b'Z'

unfoldable pub is_lower : ℕ → Bool
is_lower c = leb b'a' c && leb c b'z'

unfoldable pub is_digit : ℕ → Bool
is_digit c = leb b'0' c && leb c b'9'

unfoldable pub to_lower : ℕ → ℕ
unfolding is_upper
to_lower c = if is_upper c then c + 32 else c

-- A byte of the class [a-z] comes first.
unfoldable pub starts_lower : Str → Bool
starts_lower [] = false
starts_lower (c ∷ _) = is_lower c

-- matchFirstCap.ReplaceAllString(s, "${1}-${2}") for (.)([A-Z][a-z]+). In `in_word` the [a-z]+ of
-- the last match goes on.
unfoldable pub replace_first_cap : (in_word : Bool) → Str → Str
unfolding starts_lower
replace_first_cap in_word [] = []
replace_first_cap in_word (x ∷ []) = x ∷ []
replace_first_cap in_word (x ∷ u ∷ rest) =
    let copied = x ∷ replace_first_cap true (u ∷ rest) in
    let split = x ∷ b'-' ∷ u ∷ replace_first_cap true rest in
    let passed = x ∷ replace_first_cap false (u ∷ rest) in
    if in_word && is_lower x
    then copied
    else if not (x == 10) && (is_upper u && starts_lower rest)
    then split
    else passed

-- matchAllCap.ReplaceAllString(s, "${1}-${2}") for ([a-z0-9])([A-Z])
unfoldable pub replace_all_cap : Str → Str
replace_all_cap [] = []
replace_all_cap (x ∷ []) = x ∷ []
replace_all_cap (x ∷ u ∷ rest) =
    let split = x ∷ b'-' ∷ u ∷ replace_all_cap rest in
    let passed = x ∷ replace_all_cap (u ∷ rest) in
    if (is_lower x || is_digit x) && is_upper u then split else passed

unfoldable pub to_snake_case : Str → Str
unfolding replace_first_cap replace_all_cap is_lower is_upper is_digit to_lower
to_snake_case str = map to_lower (replace_all_cap (replace_first_cap false str))

-- var irregularConceptTypePaths
abbrev pub irregular_concept_type_paths : List (Str × Str)
irregular_concept_type_paths =
    (codes "AlphavilleSeries", codes "alphaville-series")
    ∷ (codes "BoardRole", codes "membership-roles")
    ∷ (codes "Dummy", codes "dummies")
    ∷ (codes "Person", codes "people")
    ∷ (codes "PublicCompany", codes "organisations")
    ∷ (codes "NAICSIndustryClassification", codes "industry-classifications")
    ∷ (codes "FTAnIIndustryClassification", codes "industry-classifications")
    ∷ (codes "SVCategory", codes "sv-categories")
    ∷ []

lookup_path : Str → List (Str × Str) → Option Str
lookup_path key [] = none
lookup_path key ((k, path) ∷ paths) = if str_eq k key then some path else lookup_path key paths

-- if ipath, ok := …; ok && ipath != ""
path_or_plural : Str → Option Str → Str
unfolding is_empty
path_or_plural concept_type none = to_snake_case concept_type ++ codes "s"
path_or_plural concept_type (some path) =
    if is_empty path then to_snake_case concept_type ++ codes "s" else path

unfoldable pub resolve_concept_type : Str → Str
unfolding lookup_path path_or_plural to_snake_case
resolve_concept_type concept_type =
    path_or_plural concept_type (lookup_path concept_type irregular_concept_type_paths)
