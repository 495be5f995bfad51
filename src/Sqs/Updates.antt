-- ===== src/Sqs/Updates.antt =====
-- The updates that the queue client delivers (getNotificationsFromMessages of sqs/client.go) and
-- what the service reads of their keys (extractIdentifiersFromKey of concept/service.go).
use aggregate_concept_transf.Common.{
  List, [], ◌∷◌, ◌==◌, if◌then◌else◌, Option, none, some, length, All, ◌≡◌, ◌≢◌, refl, ap, sym, inl,
  inr, Bool-cases, some-injective, false,
}
use aggregate_concept_transf.Text.{Str, replace_byte, split_two}
use aggregate_concept_transf.Text.Regex.{key_matcher, uuid_matcher, find_all}
use aggregate_concept_transf.Effects.{
  Res, ok, err, panic, ok-injective, bind-ok, NoError, bind-NoError,
}
use aggregate_concept_transf.World.{NotificationRecord, SqsMessage, World}
use aggregate_concept_transf.Concept.Identifiers.{
  extract_identifiers_from_key, by_matches, by_parts, length_of_uuid,
}
use aggregate_concept_transf.Sqs.{
  ConceptUpdate, by_key_matches, of_records, or_skip, push_some, of_body, notification_of,
  get_notifications_from_messages,
}
use aggregate_concept_transf.Sqs.Keys.{key-uuid}

extract-of_found :
    (key : Str)
    → find_all uuid_matcher 2 key ≢ []
    → (r : Str × Str) × (extract_identifiers_from_key key ≡ ok r)
unfolding extract_identifiers_from_key
extract-of_found key h = by_found (find_all uuid_matcher 2 key) h
  where
    by_found : (found : List Str) → found ≢ [] → (r : Str × Str) × (by_matches key found ≡ ok r)
    by_found [] k = absurd (k refl)
    by_found (first ∷ second ∷ rest) k = ((second, first), refl)
    by_found (m ∷ []) k = elim (Bool-cases (length key == length_of_uuid)) [
      | inl e ↦ ((m, []), rw e refl)
      | inr e ↦ by_split (split_two b'-' key) e
    ]
      where
        by_split :
            (parts : List Str)
            → (length key == length_of_uuid) ≡ false
            → (r : Str × Str) × ((if length key == length_of_uuid
                  then ok (m, [])
                  else by_parts m parts)
                ≡ ok r)
        by_split [] e = ((m, []), rw e refl)
        by_split (part ∷ []) e = ((m, []), rw e refl)
        by_split (part ∷ other ∷ rest) e = ((m, part), rw e refl)

-- The service can take the key of an update apart.
abbrev pub IsReadable : ConceptUpdate → Type 0
IsReadable n = (r : Str × Str) × (extract_identifiers_from_key n.uuid ≡ ok r)

by_key_matches-found :
    (handle : Option Str) (r : NotificationRecord) (found : List Str) (n : ConceptUpdate)
    → by_key_matches handle r found ≡ some n
    → (found ≢ []) × (n.uuid ≡ replace_byte b'/' b'-' r.key)
unfolding by_key_matches
by_key_matches-found handle r [] n h = cc
by_key_matches-found handle r (m ∷ ms) n h =
    (λ e. cc, ap (λ u. u.uuid) (sym (some-injective _ _ h)))

of_records-IsReadable :
    (handle : Option Str) (records : Option (List NotificationRecord)) (n : ConceptUpdate)
    → of_records handle records ≡ ok (some n)
    → IsReadable n
unfolding of_records
of_records-IsReadable handle none n h = cc
of_records-IsReadable handle (some []) n h = cc
of_records-IsReadable handle (some (r ∷ rs)) n h =
    let (found, same) =
      by_key_matches-found handle r (find_all key_matcher 2 r.key) n (ok-injective h) in
    rw same (extract-of_found (replace_byte b'/' b'-' r.key) (key-uuid r.key found))

pub or_skip-some :
    {A : Type 0} (r : Res A) (f : A → Res (Option ConceptUpdate)) (n : ConceptUpdate)
    → or_skip r f ≡ ok (some n)
    → (a : A) × (f a ≡ ok (some n))
or_skip-some (ok a) f n h = (a, h)
or_skip-some (err e) f n h = cc
or_skip-some panic f n h = cc

module _ {R : Type 0} (w : World R) where
  of_body-IsReadable :
      (handle body : Option Str) (n : ConceptUpdate)
      → of_body w handle body ≡ ok (some n)
      → IsReadable n
  unfolding of_body
  of_body-IsReadable handle none n h = cc
  of_body-IsReadable handle (some body) n h =
      let (text, h1) = or_skip-some (w.unmarshal_body body) _ n h in
      let (records, h2) = or_skip-some (w.unmarshal_message text) _ n h1 in
      of_records-IsReadable handle records n h2

  -- Every update that the queue client delivers has a key that the service can take apart.
  pub get_notifications-IsReadable :
      (messages : List SqsMessage) (updates : List ConceptUpdate)
      → get_notifications_from_messages w messages ≡ ok updates
      → All IsReadable updates
  unfolding get_notifications_from_messages notification_of
  get_notifications-IsReadable [] updates h = rw (← ok-injective h) tt
  get_notifications-IsReadable (message ∷ messages) updates h =
      let (n, h1, h2) = bind-ok (of_body w message.receipt_handle message.body) _ h in
      let (rest, h3, h4) = bind-ok (get_notifications_from_messages w messages) _ h2 in
      rw (← ok-injective h4) (push rest n h1 (get_notifications-IsReadable messages rest h3))
    where
      push :
          (rest : List ConceptUpdate) (n : Option ConceptUpdate)
          → of_body w message.receipt_handle message.body ≡ ok n
          → All IsReadable rest
          → All IsReadable (push_some n rest)
      push rest none e l = l
      push rest (some n) e l = (of_body-IsReadable message.receipt_handle message.body n e, l)

of_records-NoError :
    (handle : Option Str) (records : Option (List NotificationRecord))
    → NoError (of_records handle records)
unfolding of_records
of_records-NoError handle none = λ e h. cc
of_records-NoError handle (some []) = λ e h. cc
of_records-NoError handle (some (r ∷ rs)) = λ e h. cc

or_skip-NoError :
    {A : Type 0} (r : Res A) (f : A → Res (Option ConceptUpdate))
    → ((a : A) → NoError (f a))
    → NoError (or_skip r f)
or_skip-NoError (ok a) f k = k a
or_skip-NoError (err e) f k = λ e' h. cc
or_skip-NoError panic f k = λ e h. cc

module _ {R : Type 0} (w : World R) where
  pub of_body-NoError : (handle body : Option Str) → NoError (of_body w handle body)
  unfolding of_body
  of_body-NoError handle none = λ e h. cc
  of_body-NoError handle (some body) = or_skip-NoError (w.unmarshal_body body) _ λ text.
      or_skip-NoError (w.unmarshal_message text) _ λ records. of_records-NoError handle records

  pub get_notifications-NoError :
      (messages : List SqsMessage) → NoError (get_notifications_from_messages w messages)
  unfolding get_notifications_from_messages notification_of
  get_notifications-NoError [] = λ e h. cc
  get_notifications-NoError (message ∷ messages) =
      bind-NoError (of_body w message.receipt_handle message.body) _
        (of_body-NoError message.receipt_handle message.body)
        λ n.
          bind-NoError (get_notifications_from_messages w messages) _
            (get_notifications-NoError messages) λ rest e h. cc
