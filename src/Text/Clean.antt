-- ===== src/Text/Clean.antt =====
-- Paths that net/http and mux take as they are: they redirect a path with "//", "." or ".." in it.
use aggregate_concept_transf.Common.{
  ℕ, [], ◌∷◌, ◌++◌, false, All, All-append, ◌==◌, ◌≡◌, ◌≢◌, refl, ◌∙◌, arith,
}
use aggregate_concept_transf.Text.{Str, codes, has_prefix, contains_text}
use aggregate_concept_transf.Text.Regex.{accepts, is_hex, uuid_matcher, match_here}
use aggregate_concept_transf.Text.Matching.{Lacks}
use aggregate_concept_transf.Text.Search.{IsMatch}
use aggregate_concept_transf.Text.Swap.{match_here-Lacks}

-- A path without a dot and without two slashes in a row.
abbrev pub IsClean : Str → Type 0
IsClean path = Lacks b'.' path × (contains_text path (codes "//") ≡ false)

no_slash : (x : ℕ) → x ≢ b'/' → (x == b'/') ≡ false
no_slash x h = ground arith

clean-append :
    (s t : Str) → Lacks b'/' s → contains_text (s ++ t) (codes "//") ≡ contains_text t (codes "//")
unfolding contains_text has_prefix
clean-append [] t h = refl
clean-append (x ∷ s) t (h, hs) = rw (no_slash x h) (clean-append s t hs)

-- A piece without slashes that is not empty may follow a slash.
pub clean-slash :
    (x : ℕ) (s t : Str)
    → Lacks b'/' (x ∷ s)
    → contains_text (b'/' ∷ (x ∷ s) ++ t) (codes "//") ≡ contains_text t (codes "//")
unfolding contains_text has_prefix
clean-slash x s t (h, hs) = rw (no_slash x h) (clean-append s t hs)

refuses_slash : All (λ c. accepts c b'/' ≡ false) uuid_matcher
unfolding accepts is_hex
refuses_slash = ground arith

refuses_dot : All (λ c. accepts c b'.' ≡ false) uuid_matcher
unfolding accepts is_hex
refuses_dot = ground arith

-- A UUID has no slash.
pub uuid-Lacks : (u : Str) → IsMatch uuid_matcher u → Lacks b'/' u
uuid-Lacks u h = match_here-Lacks b'/' uuid_matcher u refuses_slash h

-- The paths of the API are clean.
pub concept_path-IsClean :
    (u after : Str)
    → IsMatch uuid_matcher u
    → IsClean after
    → IsClean (codes "/concept/" ++ (u ++ after))
unfolding contains_text has_prefix
concept_path-IsClean [] after h clean = absurd (unfold match_here in cc)
concept_path-IsClean (x ∷ u) after h (dots, slashes) = (
  All-append (λ c. c ≢ b'.') (codes "/concept/") ((x ∷ u) ++ after) (ground arith)
      (All-append (λ c. c ≢ b'.') (x ∷ u) after
        (match_here-Lacks b'.' uuid_matcher (x ∷ u) refuses_dot h) dots),
  clean-slash x u after (uuid-Lacks (x ∷ u) h) ∙ slashes,
)
