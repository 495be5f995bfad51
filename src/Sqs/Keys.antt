-- ===== src/Sqs/Keys.antt =====
-- The keys that the queue client lets through are keys that the service can take apart
-- (getNotificationsFromMessages of sqs/client.go, extractIdentifiersFromKey of
-- concept/service.go).
use aggregate_concept_transf.Common.{[], ◌≡◌, ◌≢◌, refl, false}
use aggregate_concept_transf.Text.{Str, replace_byte}
use aggregate_concept_transf.Text.Regex.{is_hex, key_matcher, uuid_matcher, find_all}
use aggregate_concept_transf.Text.Swap.{HasMatch-of_found, found-of_HasMatch, HasMatch-swap}

slash-not-hex : is_hex b'/' ≡ false
unfolding is_hex
slash-not-hex = refl

-- A key in which the queue client finds a UUID with slashes holds, with dashes for its slashes, a
-- UUID that the service finds.
pub key-uuid :
    (key : Str)
    → find_all key_matcher 2 key ≢ []
    → find_all uuid_matcher 2 (replace_byte b'/' b'-' key) ≢ []
unfolding find_all
key-uuid key h = found-of_HasMatch uuid_matcher 1 (replace_byte b'/' b'-' key) (
    HasMatch-swap b'/' b'-' slash-not-hex key_matcher key (HasMatch-of_found key_matcher 2 0 key h))
