-- ===== src/S3/Keys.antt =====
-- The key of an object in a bucket (s3/client.go), on its way through a notification of the queue
-- (sqs/client.go) back to the identifiers of the concept (concept/service.go).
use aggregate_concept_transf.Common.{
  [], ◌∷◌, ◌++◌, List, Option, some, false, ◌≡◌, ◌≢◌, refl, sym, ap, ap₂, ◌∙◌, ◌⊎◌, inl, inr, subst,
}
use aggregate_concept_transf.Text.{Str, replace_byte}
use aggregate_concept_transf.Text.Regex.{is_hex, uuid_matcher, key_matcher, match_here, find_all}
use aggregate_concept_transf.Text.Matching.{Lacks}
use aggregate_concept_transf.Text.Clean.{uuid-Lacks}
use aggregate_concept_transf.Text.Swap.{
  HasMatch, HasMatch-append, HasMatch-swap, found-of_HasMatch, replace-append, replace-Lacks,
  replace-replace,
}
use aggregate_concept_transf.Effects.{ok}
use aggregate_concept_transf.World.{NotificationRecord}
use aggregate_concept_transf.S3.{get_key, object_key}
use aggregate_concept_transf.Sqs.{ConceptUpdate, by_key_matches, of_records}
use aggregate_concept_transf.Concept.Identifiers.{extract_identifiers_from_key}
use aggregate_concept_transf.Concept.Identifiers.RoundTrip.{IsUuid}
use aggregate_concept_transf.Concept.Handlers.{requested_key}
use aggregate_concept_transf.Concept.Handlers.Keys.{extract-requested_key}

-- A publication that is a UUID, or a text (or none) without a dash and without a slash.
abbrev pub Publication : Str → Type 0
Publication p = (Lacks b'-' p × Lacks b'/' p) ⊎ IsUuid p

Publication-Lacks : (p : Str) → Publication p → Lacks b'/' p
Publication-Lacks p (inl (_, l)) = l
Publication-Lacks p (inr h) = uuid-Lacks p h

-- With dashes for its slashes, the key of an object is the key of a request.
replace-object_key :
    (p u : Str)
    → Publication p
    → IsUuid u
    → replace_byte b'/' b'-' (object_key p u) ≡ requested_key u p
unfolding object_key get_key requested_key
replace-object_key [] u h k = replace-replace b'-' b'/' u (uuid-Lacks u k)
replace-object_key (x ∷ p) u h k =
    replace-append b'/' b'-' (x ∷ p) (b'/' ∷ get_key u)
    ∙ ap₂ ◌++◌ (replace-Lacks b'/' b'-' (x ∷ p) (Publication-Lacks (x ∷ p) h))
        (unfold replace_byte in ap (λ l. b'-' ∷ l) (replace-replace b'-' b'/' u (uuid-Lacks u k)))

dash-not-hex : is_hex b'-' ≡ false
unfolding is_hex
dash-not-hex = refl

uuid-HasMatch : (u : Str) → IsUuid u → HasMatch uuid_matcher u
uuid-HasMatch [] h = absurd (unfold match_here in cc)
uuid-HasMatch (x ∷ u) h = inl (λ e. cc)

get_key-HasMatch : (u : Str) → IsUuid u → HasMatch key_matcher (get_key u)
unfolding get_key
get_key-HasMatch u h = HasMatch-swap b'-' b'/' dash-not-hex uuid_matcher u (uuid-HasMatch u h)

object_key-HasMatch : (p u : Str) → IsUuid u → HasMatch key_matcher (object_key p u)
unfolding object_key
object_key-HasMatch [] u h = get_key-HasMatch u h
object_key-HasMatch (x ∷ p) u h =
    HasMatch-append key_matcher (x ∷ p) (b'/' ∷ get_key u) (inr (get_key-HasMatch u h))

by_key_matches-some :
    (handle : Option Str) (r : NotificationRecord) (found : List Str)
    → found ≢ []
    → (n : ConceptUpdate) × (by_key_matches handle r found ≡ some n)
      × (n.uuid ≡ replace_byte b'/' b'-' r.key)
      × (n.bookmark ≡ r.bookmark)
      × (n.receipt_handle ≡ handle)
unfolding by_key_matches
by_key_matches-some handle r [] h = absurd (h refl)
by_key_matches-some handle r (m ∷ ms) h = (_, refl, refl, refl, refl)

-- A notification of the object that holds a concept of a publication (or of none) gives an update,
-- with the bookmark of the notification and the handle of its message, whose key is taken apart
-- into the UUID and the publication of that concept; so the service reads that object again. The
-- publication is a UUID, or has neither a dash nor a slash.
pub of_records-object_key :
    (handle : Option Str) (r : NotificationRecord) (rest : List NotificationRecord) (p u : Str)
    → Publication p
    → IsUuid u
    → r.key ≡ object_key p u
    → (n : ConceptUpdate) × (of_records handle (some (r ∷ rest)) ≡ ok (some n))
      × (extract_identifiers_from_key n.uuid ≡ ok (u, p))
      × (n.bookmark ≡ r.bookmark)
      × (n.receipt_handle ≡ handle)
unfolding of_records find_all
of_records-object_key handle r rest p u h k e =
    let found =
      found-of_HasMatch key_matcher 1 r.key
        (subst (HasMatch key_matcher) (sym e) (object_key-HasMatch p u k)) in
    let (n, same, uuid, bookmark, receipt) = by_key_matches-some handle r _ found in
    (
      n,
      ap ok same,
      ap extract_identifiers_from_key
            (uuid ∙ ap (replace_byte b'/' b'-') e ∙ replace-object_key p u h k)
          ∙ extract-requested_key u p k (dashless h),
      bookmark,
      receipt,
    )
  where
    dashless : Publication p → Lacks b'-' p ⊎ IsUuid p
    dashless (inl (l, _)) = inl l
    dashless (inr q) = inr q
