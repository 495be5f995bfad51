-- ===== src/Examples/Updates.antt =====
-- The theorems on the queue's messages and on the batch of events at the small world.
use aggregate_concept_transf.Common.{
  Option, none, true, false, ◌==◌, [], ◌∷◌, ◌++◌, ◌≡◌, refl, some, List, All,
}
use aggregate_concept_transf.Text.{Str, codes, replace_byte}
use aggregate_concept_transf.Text.Regex.{match_here, accepts, is_hex, find_from, find_all}
use aggregate_concept_transf.Text.Itoa.{itoa}
use aggregate_concept_transf.Effects.{Res, ok, err, panic, BatchEntry}
use aggregate_concept_transf.World.{NotificationRecord, SqsMessage, World}
use aggregate_concept_transf.Sqs.{ConceptUpdate, get_notifications_from_messages}
use aggregate_concept_transf.Sqs.Updates.{IsReadable, get_notifications-IsReadable}
use aggregate_concept_transf.Sqs.Panics.{get_notifications-panics}
use aggregate_concept_transf.Sns.{batch_entries}
use aggregate_concept_transf.Sns.Ids.{Distinct, batch_entries-Distinct}
use aggregate_concept_transf.Examples.{uuid_a, event_a, world}

abbrev pub message : SqsMessage
message = record {
  receipt_handle = some (codes "handle");
  body = some (codes "28090964/9997/4bc2/9638/7a11135aaff9");
}

abbrev update : ConceptUpdate
update = record { uuid = uuid_a; bookmark = []; receipt_handle = some (codes "handle") }

update-of_message : get_notifications_from_messages world (message ∷ []) ≡ ok (update ∷ [])
unfolding get_notifications_from_messages find_all find_from match_here accepts is_hex replace_byte
update-of_message = refl

get_notifications-IsReadable_example : All IsReadable (update ∷ [])
get_notifications-IsReadable_example =
    get_notifications-IsReadable world (message ∷ []) (update ∷ []) update-of_message

-- Two events of one concept.
abbrev entries : List BatchEntry
entries =
    record { id = uuid_a ++ codes "_0"; message = uuid_a }
    ∷ record { id = uuid_a ++ codes "_1"; message = uuid_a }
    ∷ []

entries-of_events : batch_entries world 0 (event_a ∷ event_a ∷ []) ≡ ok entries
unfolding batch_entries itoa
entries-of_events = refl

batch_entries-Distinct_example : Distinct entries
batch_entries-Distinct_example =
    batch_entries-Distinct world (event_a ∷ event_a ∷ []) entries entries-of_events

-- Every message has an empty list of records.
abbrev empty_world : World (Unit {0})
empty_world = record world { unmarshal_message = λ text. ok (some []) }

get_notifications-panics_example :
    get_notifications_from_messages empty_world (message ∷ message ∷ []) ≡ panic
get_notifications-panics_example = get_notifications-panics empty_world (message ∷ []) message [] (
  codes "28090964/9997/4bc2/9638/7a11135aaff9",
  codes "28090964/9997/4bc2/9638/7a11135aaff9",
  refl,
  refl,
  refl,
)

-- A text that does not begin with the digit of the key has an empty list of records, and the empty
-- text is refused.
abbrev decoded_message : Str → Res (Option (List NotificationRecord))
decoded_message [] = ok none
decoded_message (c ∷ text) = elim (c == b'2') [
  | true ↦ ok (some (record { key = c ∷ text; bookmark = [] } ∷ []))
  | false ↦ ok (some [])
]

abbrev decoded_body : Str → Res Str
decoded_body [] = err (codes "unexpected end of JSON input")
decoded_body (c ∷ text) = ok (c ∷ text)

abbrev decoding_world : World (Unit {0})
decoding_world = record world { unmarshal_body = decoded_body; unmarshal_message = decoded_message }

abbrev refused : SqsMessage
refused = record { receipt_handle = none; body = some [] }
