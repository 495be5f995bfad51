-- ===== src/Concept/Paths/Words.antt =====
-- The case of the paths of concept types (concept/service.go).
use aggregate_concept_transf.Common.{
  ℕ, List, Option, none, some, some-injective, ◌++◌, All-append, subst, [], ◌∷◌, map, false, ◌≡◌,
  refl, arith, All, Bool-cases, inl, inr,
}
use aggregate_concept_transf.Text.{Str, codes, str_eq, is_empty}
use aggregate_concept_transf.Concept.Paths.{
  is_upper, to_lower, to_snake_case, irregular_concept_type_paths, lookup_path, path_or_plural,
  resolve_concept_type,
}

is_upper-to_lower : (x : ℕ) → is_upper (to_lower x) ≡ false
unfolding to_lower is_upper
is_upper-to_lower x = ground arith

-- The text has no capital.
abbrev pub NoCapital : Str → Type 0
NoCapital = All (λ c. is_upper c ≡ false)

map-to_lower : (s : Str) → NoCapital (map to_lower s)
map-to_lower [] = tt
map-to_lower (x ∷ s) = (is_upper-to_lower x, map-to_lower s)

plural-NoCapital : (str : Str) → NoCapital (to_snake_case str ++ codes "s")
unfolding to_snake_case is_upper
plural-NoCapital str =
    All-append (λ c. is_upper c ≡ false) (to_snake_case str) (codes "s") (map-to_lower _) (refl, tt)

lookup_path-NoCapital :
    (key : Str) (paths : List (Str × Str)) (path : Str)
    → All (λ entry. NoCapital entry.1) paths
    → lookup_path key paths ≡ some path
    → NoCapital path
unfolding lookup_path
lookup_path-NoCapital key [] path l h = cc
lookup_path-NoCapital key ((k, p) ∷ paths) path (low, l) h = elim (Bool-cases (str_eq k key)) [
  | inl e ↦ subst NoCapital (some-injective _ _ (rw e at h)) low
  | inr e ↦ lookup_path-NoCapital key paths path l (rw (e, lookup_path) at h)
]

path_or_plural-NoCapital :
    (concept_type : Str) (found : Option Str)
    → ((path : Str) → found ≡ some path → NoCapital path)
    → NoCapital (path_or_plural concept_type found)
unfolding path_or_plural
path_or_plural-NoCapital concept_type none h = plural-NoCapital concept_type
path_or_plural-NoCapital concept_type (some path) h = elim (Bool-cases (is_empty path)) [
  | inl e ↦ rw e (plural-NoCapital concept_type)
  | inr e ↦ rw e (h path refl)
]

irregular-NoCapital : All (λ entry. NoCapital entry.1) irregular_concept_type_paths
unfolding is_upper
irregular-NoCapital = ground arith

-- The path of a concept type has no capital, whatever the type is called.
pub resolve_concept_type-NoCapital :
    (concept_type : Str) → NoCapital (resolve_concept_type concept_type)
unfolding resolve_concept_type
resolve_concept_type-NoCapital concept_type =
    path_or_plural-NoCapital concept_type _ λ path.
      lookup_path-NoCapital concept_type irregular_concept_type_paths path irregular-NoCapital
