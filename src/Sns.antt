-- ===== src/Sns.antt =====
-- Package sns (sns/client.go): publishing the events of an update as one batch.
pub mod Ids
use aggregate_concept_transf.Common.{none, some, ℕ, suc, List, [], ◌∷◌, ◌++◌}
use aggregate_concept_transf.Text.{Str, codes}
use aggregate_concept_transf.Effects.{
  Res, ok, err, panic, BatchEntry, Call, M, ◌>>=◌, lift, perform,
}
use aggregate_concept_transf.Effects
use aggregate_concept_transf.World.{
  Setup, Event, FailedEntry, PublishReply, publish_error, published, World,
}
use aggregate_concept_transf.Text.Itoa.{itoa}

pub record Client : Type 0 where
  pub topic_arn : Str

-- NewClient: the session is one of the ARN's region.
unfoldable pub new_client : Setup → (topic_arn : Str) → Res Client
new_client setup topic_arn = elim (setup.arn_region topic_arn) [
  | ok region ↦ elim (setup.new_session (some region)) [
    | none ↦ ok (record { topic_arn = topic_arn })
    | some e ↦ err (codes "creating new aws session: " ++ e)
  ]
  | err e ↦ err (codes "parsing topic arn: " ++ e)
  | panic ↦ panic
]

-- The text of errors.Join: one error to a line.
join_errors : List Str → Str
join_errors [] = []
join_errors (e ∷ []) = e
join_errors (e ∷ f ∷ es) = e ++ 10 ∷ join_errors (f ∷ es)

failed_text : FailedEntry → Str
failed_text o = codes "publishing " ++ (o.id ++ (codes " event failed: " ++ o.code))

failed_texts : List FailedEntry → List Str
failed_texts [] = []
failed_texts (o ∷ os) = failed_text o ∷ failed_texts os

-- errors.Join(errs...): nil if there is none
unfoldable pub publish_result : PublishReply → Res (Unit {0})
unfolding failed_texts failed_text join_errors
publish_result (publish_error e) = err e
publish_result (published []) = ok tt
publish_result (published (o ∷ os)) = err (join_errors (failed_texts (o ∷ os)))

module _ {R : Type 0} (w : World R) where
  -- The entry for an event: its Id ends in the event's place in the batch.
  unfoldable pub batch_entry : ℕ → Event R → Res BatchEntry
  batch_entry i ev = elim (w.marshal_event ev) [
    | ok ev_data ↦ ok (record { id = ev.concept_uuid ++ b'_' ∷ itoa i; message = ev_data })
    | err e ↦ err (codes "marshaling concept " ++ (w.quote ev.concept_uuid ++ (codes ": " ++ e)))
    | panic ↦ panic
  ]

  -- the first loop of PublishEvents, from place i on
  unfoldable pub batch_entries : ℕ → List (Event R) → Res (List BatchEntry)
  unfolding batch_entry
  batch_entries i [] = ok []
  batch_entries i (ev ∷ events) =
      Effects.bind (batch_entry i ev)
        λ entry. Effects.bind (batch_entries (suc i) events) λ entries. ok (entry ∷ entries)

  -- (*client).PublishEvents
  unfoldable pub publish_events : Client → List (Event R) → M (Unit {0})
  unfolding batch_entries publish_result
  publish_events c events = do
    entries ← lift (batch_entries 0 events)
    reply ← perform (Call.sns_publish_batch c.topic_arn entries) (λ log. w.sns_publish log entries)
    lift (publish_result reply)
