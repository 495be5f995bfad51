-- ===== src/Sqs/Panics.antt =====
-- When the reading of a batch of messages panics (getNotificationsFromMessages of sqs/client.go).
use aggregate_concept_transf.Common.{List, [], ◌∷◌, ◌++◌, Option, none, some, ◌≡◌, ◌≢◌, refl}
use aggregate_concept_transf.Text.{Str}
use aggregate_concept_transf.Effects
use aggregate_concept_transf.Effects.{Res, ok, err, panic, NoError, Res-cases}
use aggregate_concept_transf.World.{SqsMessage, World}
use aggregate_concept_transf.Sqs.{
  of_records, of_body, get_notifications_from_messages, notification_of,
}
use aggregate_concept_transf.Sqs.Updates.{of_body-NoError}

bind-panic :
    {A B : Type 0} (r : Res A) (f : A → Res B)
    → NoError r
    → ((a : A) → f a ≡ panic)
    → Effects.bind r f ≡ panic
bind-panic (ok a) f h k = k a
bind-panic (err e) f h k = absurd (h e refl)
bind-panic panic f h k = refl

module _ {R : Type 0} (w : World R) where
  -- The message is JSON whose list of records is empty.
  abbrev pub NoRecords : SqsMessage → Type 0
  NoRecords message =
      (body : Str) × (text : Str) × (message.body ≡ some body)
      × (w.unmarshal_body body ≡ ok text)
      × (w.unmarshal_message text ≡ ok (some []))

  of_body-panic :
      (handle body : Option Str) (content text : Str)
      → body ≡ some content
      → w.unmarshal_body content ≡ ok text
      → w.unmarshal_message text ≡ ok (some [])
      → of_body w handle body ≡ panic
  unfolding of_body of_records
  of_body-panic handle body content text e e1 e2 = rw (e, e1, e2) refl

  -- One message whose list of records is empty makes the whole batch panic, wherever it stands in
  -- the batch and whatever the other messages are.
  pub get_notifications-panics :
      (before : List SqsMessage) (message : SqsMessage) (after : List SqsMessage)
      → NoRecords message
      → get_notifications_from_messages w (before ++ message ∷ after) ≡ panic
  unfolding get_notifications_from_messages notification_of
  get_notifications-panics [] message after (content, text, e, e1, e2) =
      rw (of_body-panic message.receipt_handle message.body content text e e1 e2) refl
  get_notifications-panics (first ∷ before) message after h =
      bind-panic (of_body w first.receipt_handle first.body) _
        (of_body-NoError w first.receipt_handle first.body)
        λ n. rw (get_notifications-panics before message after h) refl

  -- The message has a body; neither decoding it nor decoding the text that it holds panics, and
  -- that text has no empty list of records. Its JSON may well be refused.
  abbrev pub Sound : Option Str → Type 0
  Sound none = ⊥
  Sound (some body) =
      (w.unmarshal_body body ≢ panic)
      × ((text : Str)
          → w.unmarshal_body body ≡ ok text
          → (w.unmarshal_message text ≢ panic) × (w.unmarshal_message text ≢ ok (some [])))
