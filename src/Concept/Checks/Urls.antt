-- ===== src/Concept/Checks/Urls.antt =====
-- The addresses that the health checks call (concept/service.go).
use aggregate_concept_transf.Common.{[], ◌∷◌, ◌++◌, true, ◌≡◌, refl, ap, All}
use aggregate_concept_transf.Text.{Str, codes, has_byte, is_empty, trim_right}
use aggregate_concept_transf.Concept.Checks.{elasticsearch_gtg_url}

-- Every byte stands in the cutset.
abbrev pub Cut : Str → Str → Type 0
Cut cutset = All (λ c. has_byte cutset c ≡ true)

trim_right-Cut : (cut cutset : Str) → Cut cutset cut → trim_right cut cutset ≡ []
unfolding trim_right is_empty
trim_right-Cut [] cutset h = refl
trim_right-Cut (x ∷ cut) cutset (e, h) = rw (trim_right-Cut cut cutset h, e) refl

pub trim_right-append :
    (s cut cutset : Str) → Cut cutset cut → trim_right (s ++ cut) cutset ≡ trim_right s cutset
unfolding trim_right
trim_right-append [] cut cutset h = trim_right-Cut cut cutset h
trim_right-append (x ∷ s) cut cutset h = rw (trim_right-append s cut cutset h) refl

-- The check of the Elasticsearch writer calls the same URL for an address and for that address with
-- any further bytes out of /, b, u, l and k at its end.
pub elasticsearch_gtg_url-append :
    (address cut : Str)
    → Cut (codes "/bulk") cut
    → elasticsearch_gtg_url (address ++ cut) ≡ elasticsearch_gtg_url address
unfolding elasticsearch_gtg_url
elasticsearch_gtg_url-append address cut h =
    ap (λ s. s ++ codes "/__gtg") (trim_right-append address cut (codes "/bulk") h)
