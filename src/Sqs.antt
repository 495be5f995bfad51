-- ===== src/Sqs.antt =====
-- Package sqs (sqs/client.go, sqs/model.go): the queue of concept updates.
pub mod Keys
pub mod Updates
pub mod Panics
pub mod Handles
use aggregate_concept_transf.Common.{ℕ, List, [], ◌∷◌, Option, none, some}
use aggregate_concept_transf.Text.{Str, codes, replace_byte}
use aggregate_concept_transf.Text.Regex.{key_matcher, find_all}
use aggregate_concept_transf.Effects.{
  nil_or_error, Res, ok, err, panic, Call, M, ◌>>=◌, lift, perform,
}
use aggregate_concept_transf.Effects
use aggregate_concept_transf.World.{
  DeleteReply, not_sent, sent, NotificationRecord, SqsMessage, World, Setup,
}
use aggregate_concept_transf.Session.{session_and_credentials}

pub record ConceptUpdate : Type 0 where
  pub uuid : Str
  pub bookmark : Str
  pub receipt_handle : Option Str

-- sqs.ReceiveMessageInput, as far as the repository fills it in
pub record ListenParams : Type 0 where
  pub queue_url : Str
  pub max_number_of_messages : ℕ
  pub visibility_timeout : ℕ
  pub wait_time_seconds : ℕ

pub record NotificationClient : Type 0 where
  pub queue_url : Str
  pub listen_params : ListenParams

-- NewClient. The endpoint, set where it is not empty, is for local use; it is the world's.
unfoldable pub new_client :
    Setup
    → (aws_region queue_url endpoint : Str) → (messages_to_process visibility_timeout wait_time : ℕ)
    → Res NotificationClient
unfolding session_and_credentials
new_client setup aws_region queue_url endpoint messages_to_process visibility_timeout wait_time =
    Effects.bind (session_and_credentials setup (some aws_region) (codes "sqs client")) λ _.
      ok (record {
        queue_url = queue_url;
        listen_params = record {
          queue_url = queue_url;
          max_number_of_messages = messages_to_process;
          visibility_timeout = visibility_timeout;
          wait_time_seconds = wait_time;
        };
      })

-- The update that a record tells of, `none` where its key holds no UUID.
unfoldable pub by_key_matches : Option Str → NotificationRecord → List Str → Option ConceptUpdate
by_key_matches receipt_handle r [] = none
by_key_matches receipt_handle r (_ ∷ _) = some (record {
  uuid = replace_byte b'/' b'-' r.key;
  bookmark = r.bookmark;
  receipt_handle = receipt_handle;
})

-- Records is checked for nil only, and then its first element is taken.
unfoldable pub of_records :
    Option Str → Option (List NotificationRecord) → Res (Option ConceptUpdate)
unfolding by_key_matches
of_records receipt_handle none = ok none
of_records receipt_handle (some []) = panic
of_records receipt_handle (some (r ∷ _)) =
    ok (by_key_matches receipt_handle r (find_all key_matcher 2 r.key))

-- A JSON error makes the loop continue with the next message.
abbrev pub or_skip :
    {A : Type 0} → Res A → (A → Res (Option ConceptUpdate)) → Res (Option ConceptUpdate)
or_skip (ok a) f = f a
or_skip (err e) f = ok none
or_skip panic f = panic

abbrev pub push_some : Option ConceptUpdate → List ConceptUpdate → List ConceptUpdate
push_some none rest = rest
push_some (some n) rest = n ∷ rest

-- A deletion that is sent is a call; its error is returned either way.
unfoldable pub delete_result : Call → DeleteReply → M (Unit {0})
unfolding nil_or_error
delete_result call (not_sent e) log = (err e, log)
delete_result call (sent error) log = (nil_or_error error, call ∷ log)

module _ {R : Type 0} (w : World R) where
  unfoldable pub of_body : (receipt_handle body : Option Str) → Res (Option ConceptUpdate)
  unfolding of_records
  of_body receipt_handle none = panic
  of_body receipt_handle (some body) = or_skip (w.unmarshal_body body) λ message_text.
      or_skip (w.unmarshal_message message_text) λ records. of_records receipt_handle records

  -- one round of the loop of getNotificationsFromMessages; `none` is `continue`
  unfoldable pub notification_of : SqsMessage → Res (Option ConceptUpdate)
  unfolding of_body
  notification_of message = of_body message.receipt_handle message.body

  -- getNotificationsFromMessages
  unfoldable pub get_notifications_from_messages : List SqsMessage → Res (List ConceptUpdate)
  unfolding notification_of
  get_notifications_from_messages [] = ok []
  get_notifications_from_messages (message ∷ messages) =
      Effects.bind (notification_of message) λ notification.
        Effects.bind (get_notifications_from_messages messages)
          λ notifications. ok (push_some notification notifications)

  -- (*NotificationClient).ListenAndServeQueue: an error of the receive is logged only, and the
  -- messages of its output are read all the same
  unfoldable pub listen_and_serve_queue : NotificationClient → M (List ConceptUpdate)
  listen_and_serve_queue c = do
    let params = c.listen_params
    messages ←
        perform (Call.sqs_receive params.queue_url params.max_number_of_messages)
          (λ log. w.sqs_receive_message log params.queue_url params.max_number_of_messages)
    lift (get_notifications_from_messages messages)

  -- (*NotificationClient).RemoveMessageFromQueue, by the error of its context
  unfoldable pub remove_message_from_queue :
      NotificationClient → (ctx_err receipt_handle : Option Str) → M (Unit {0})
  unfolding delete_result
  remove_message_from_queue c ctx_err receipt_handle log =
      delete_result (Call.sqs_delete c.queue_url receipt_handle)
        (w.sqs_delete_message log ctx_err receipt_handle) log
