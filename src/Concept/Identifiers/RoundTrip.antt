-- ===== src/Concept/Identifiers/RoundTrip.antt =====
-- Keys that are put together from a publication and a UUID are taken apart again, and what is
-- taken from any key is a UUID (concept/service.go, concept/handlers.go).
use aggregate_concept_transf.Common.{
  ℕ, zero, suc, ◌+◌, ◌≤◌, List, [], ◌∷◌, ◌++◌, append-nil, none, length, length-append, All, ◌≡◌,
  refl, ap, ◌∙◌, ◌≢◌, ◌⊎◌, inl, inr, arith, ◌==◌, false, subst,
}
use aggregate_concept_transf.Text.{Str, split_two}
use aggregate_concept_transf.Text.Regex.{
  Class, byte, hexes, is_hex, uuid_matcher, match_here, find_from, find_all,
}
use aggregate_concept_transf.Text.Matching.{
  Lacks, match_here-parts, match_here-append, digits_run, digits-split,
}
use aggregate_concept_transf.Text.Search.{
  IsMatch, find_from-miss, find_from-skip, find_from-hit, find_from-IsMatch, find_from-length,
}
use aggregate_concept_transf.Effects.{ok}
use aggregate_concept_transf.Concept.Identifiers.{extract_identifiers_from_key, by_matches}

-- The text is a UUID in lower case.
abbrev pub IsUuid : Str → Type 0
IsUuid = IsMatch uuid_matcher

-- strings.Join([]string{publication, uuid}, "-")
abbrev pub joined : Str → Str → Str
joined publication uuid = publication ++ b'-' ∷ uuid

dash-not-hex : is_hex b'-' ≡ false
unfolding is_hex
dash-not-hex = refl

-- The pattern after its first separator.
abbrev second_part : List Class
second_part = hexes 4 (byte b'-' ∷ hexes 4 (byte b'-' ∷ hexes 4 (byte b'-' ∷ hexes 12 [])))

-- A UUID does not go on from a first group of digits.
second_part-uuid : (u : Str) → IsUuid u → match_here second_part u ≡ none
second_part-uuid u h =
    let (q, t, text, size, l) = digits-split 8 b'-' second_part u dash-not-hex h in
    elim (digits_run 4 b'-' (hexes 4 (byte b'-' ∷ hexes 4 (byte b'-' ∷ hexes 12 []))) q t l
      dash-not-hex) [ inl e ↦ rw text e | inr (bad, _) ↦ absurd (omega arith) ]

-- No match starts before the separator that joins.
uuid-miss : (q u : Str) → Lacks b'-' q → IsUuid u → match_here uuid_matcher (joined q u) ≡ none
uuid-miss q u l h = elim (digits_run 8 b'-' second_part q u l dash-not-hex) [
  | inl e ↦ e
  | inr (_, found) ↦ absurd (found (second_part-uuid u h))
]

find-joined :
    (n : ℕ) (q u : Str)
    → Lacks b'-' q
    → IsUuid u
    → find_from uuid_matcher (suc n) zero (joined q u) ≡ find_from uuid_matcher (suc n) zero u
find-joined n [] u l h = find_from-miss uuid_matcher n b'-' u (uuid-miss [] u l h)
find-joined n (x ∷ q) u (d, l) h =
    find_from-miss uuid_matcher n x (joined q u) (uuid-miss (x ∷ q) u (d, l) h)
    ∙ find-joined n q u l h

find_zero : (skip : ℕ) (s : Str) → find_from uuid_matcher zero skip s ≡ []
unfolding find_from
find_zero skip [] = refl
find_zero skip (x ∷ s) = refl

length-uuid : (u : Str) → IsUuid u → length u ≡ 36
length-uuid u h = (match_here-parts uuid_matcher u h).1

-- After a whole match the search goes on behind it.
find-whole :
    (n : ℕ) (u s : Str)
    → IsUuid u
    → find_from uuid_matcher (suc (suc n)) zero (u ++ s) ≡ u ∷ find_from uuid_matcher (suc n) zero s
find-whole n [] s h = absurd (unfold match_here in cc)
find-whole n (x ∷ u) s h =
    find_from-hit uuid_matcher (suc n) x (u ++ s) (match_here-append uuid_matcher (x ∷ u) s h)
    ∙ ap (λ found. (x ∷ u) ∷ found)
        (subst
          (λ k. find_from uuid_matcher (suc n) k (u ++ s) ≡ find_from uuid_matcher (suc n) zero s)
          (omega (arith, length-uuid (x ∷ u) h)) (find_from-skip uuid_matcher n u s))

find-last : (n : ℕ) (u : Str) → IsUuid u → find_from uuid_matcher (suc n) zero u ≡ u ∷ []
find-last n [] h = absurd (unfold match_here in cc)
find-last zero (x ∷ u) h =
    find_from-hit uuid_matcher zero x u h ∙ ap (λ found. (x ∷ u) ∷ found) (find_zero 35 u)
find-last (suc n) (x ∷ u) h =
    subst (λ s. find_from uuid_matcher (suc (suc n)) zero s ≡ (x ∷ u) ∷ []) (append-nil (x ∷ u))
      (find-whole n (x ∷ u) [] h ∙ ap (λ found. (x ∷ u) ∷ found) (unfold find_from in refl))

split_two-joined : (p u : Str) → Lacks b'-' p → split_two b'-' (joined p u) ≡ p ∷ u ∷ []
unfolding split_two
split_two-joined [] u l = refl
split_two-joined (x ∷ p) u (d, l) = rw (split_two-joined p u l) (ground arith)

not-36 : (n k : ℕ) → n ≡ k + 37 → (n == 36) ≡ false
not-36 n k h = ground arith

length-joined : (p u : Str) → IsUuid u → (length (joined p u) == 36) ≡ false
length-joined p u h =
    not-36 (length (joined p u)) (length p)
      (omega (arith, length-uuid u h, length-append p (b'-' ∷ u)))

-- A UUID alone is itself, with no publication.
pub extract-uuid : (u : Str) → IsUuid u → extract_identifiers_from_key u ≡ ok (u, [])
unfolding extract_identifiers_from_key find_all
extract-uuid u h = rw (find-last 1 u h) (ground (arith, length-uuid u h))

-- A key joined from a publication and a UUID gives both back, where the publication is a UUID
-- itself or has no dash.
pub extract-joined :
    (p u : Str)
    → IsUuid u
    → Lacks b'-' p ⊎ IsUuid p
    → extract_identifiers_from_key (joined p u) ≡ ok (u, p)
unfolding extract_identifiers_from_key find_all
extract-joined p u h (inl l) =
    rw (find-joined 1 p u l h ∙ find-last 1 u h)
      (rw (split_two-joined p u l, length-joined p u h) refl)
extract-joined p u h (inr k) =
    rw
      (find-whole zero p (b'-' ∷ u) k
        ∙ ap (λ found. p ∷ found) (find-joined zero [] u tt h ∙ find-last zero u h))
      refl

by_matches-IsUuid :
    (key : Str) (found : List Str) {u p : Str}
    → All IsUuid found
    → by_matches key found ≡ ok (u, p)
    → IsUuid u × (found ≢ [])
unfolding by_matches
by_matches-IsUuid key [] l h = cc
by_matches-IsUuid key (first ∷ second ∷ _) (_, (l, _)) h = (subst IsUuid (ground arith) l, λ e. cc)
by_matches-IsUuid key (m ∷ []) (l, _) h = (subst IsUuid (ground arith) l, λ e. cc)

-- What is taken from a key is a UUID, and the key is at least as long as one.
pub extract-IsUuid :
    (key : Str) {u p : Str}
    → extract_identifiers_from_key key ≡ ok (u, p)
    → IsUuid u × (36 ≤ length key)
unfolding extract_identifiers_from_key find_all
extract-IsUuid key h =
    let found = find_from-IsMatch uuid_matcher 2 0 key in
    let (uuid, some_found) = by_matches-IsUuid key _ found h in
    (uuid, find_from-length uuid_matcher 2 0 key some_found)
