-- ===== src/Sqs/Handles.antt =====
-- Each update that the queue client delivers stands for one of the messages (sqs/client.go).
use aggregate_concept_transf.Common.{
  List, [], ◌∷◌, All, All-imp, Elem, Option, none, some, ◌≡◌, refl, sym, ap, inl, inr,
  some-injective,
}
use aggregate_concept_transf.Text.{Str}
use aggregate_concept_transf.Text.Regex.{find_all, key_matcher}
use aggregate_concept_transf.Effects.{ok, ok-injective, bind-ok}
use aggregate_concept_transf.World.{SqsMessage, NotificationRecord, World}
use aggregate_concept_transf.Sqs.{
  ConceptUpdate, by_key_matches, of_records, of_body, notification_of, push_some,
  get_notifications_from_messages,
}
use aggregate_concept_transf.Sqs.Updates.{or_skip-some}

by_key_matches-handle :
    (handle : Option Str) (r : NotificationRecord) (found : List Str) (n : ConceptUpdate)
    → by_key_matches handle r found ≡ some n
    → n.receipt_handle ≡ handle
unfolding by_key_matches
by_key_matches-handle handle r [] n h = cc
by_key_matches-handle handle r (m ∷ ms) n h =
    ap (λ (u : ConceptUpdate). u.receipt_handle) (sym (some-injective _ _ h))

of_records-handle :
    (handle : Option Str) (records : Option (List NotificationRecord)) (n : ConceptUpdate)
    → of_records handle records ≡ ok (some n)
    → n.receipt_handle ≡ handle
unfolding of_records
of_records-handle handle none n h = cc
of_records-handle handle (some []) n h = cc
of_records-handle handle (some (r ∷ rs)) n h =
    by_key_matches-handle handle r (find_all key_matcher 2 r.key) n (ok-injective h)

module _ {R : Type 0} (w : World R) where
  of_body-handle :
      (handle body : Option Str) (n : ConceptUpdate)
      → of_body w handle body ≡ ok (some n)
      → n.receipt_handle ≡ handle
  unfolding of_body
  of_body-handle handle none n h = cc
  of_body-handle handle (some body) n h =
      let (text, h1) = or_skip-some (w.unmarshal_body body) _ n h in
      let (records, h2) = or_skip-some (w.unmarshal_message text) _ n h1 in
      of_records-handle handle records n h2

  -- The update was read from one of the messages, and has that message's receipt handle.
  abbrev pub From : List SqsMessage → ConceptUpdate → Type 0
  From messages n =
      (message : SqsMessage) × (Elem message messages
        × (notification_of w message ≡ ok (some n))
        × (n.receipt_handle ≡ message.receipt_handle))

  From-later :
      (message : SqsMessage) (messages : List SqsMessage) (n : ConceptUpdate)
      → From messages n
      → From (message ∷ messages) n
  From-later message messages n (m, (e, h, k)) = (m, (inr e, h, k))

  pub get_notifications-From :
      (messages : List SqsMessage) (updates : List ConceptUpdate)
      → get_notifications_from_messages w messages ≡ ok updates
      → All (From messages) updates
  unfolding get_notifications_from_messages notification_of
  get_notifications-From [] updates h = rw (← ok-injective h) tt
  get_notifications-From (message ∷ messages) updates h =
      let (n, h1, h2) = bind-ok (of_body w message.receipt_handle message.body) _ h in
      let (rest, h3, h4) = bind-ok (get_notifications_from_messages w messages) _ h2 in
      let others =
        All-imp (From-later message messages) rest (get_notifications-From messages rest h3) in
      rw (← ok-injective h4) (push rest n h1 others)
    where
      push :
          (rest : List ConceptUpdate) (n : Option ConceptUpdate)
          → of_body w message.receipt_handle message.body ≡ ok n
          → All (From (message ∷ messages)) rest
          → All (From (message ∷ messages)) (push_some n rest)
      push rest none e l = l
      push rest (some n) e l =
          ((message, (inl refl, e, of_body-handle message.receipt_handle message.body n e)), l)
