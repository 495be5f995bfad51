-- ===== src/Examples/Deletions.antt =====
-- The theorems on what the workers handle and delete, where the queue gives a message.
use aggregate_concept_transf.Common.{List, [], ◌∷◌, true, false, All, ◌≡◌, refl}
use aggregate_concept_transf.Concept.Identifiers.{
  by_matches, by_parts, extract_identifiers_from_key,
}
use aggregate_concept_transf.Text.Regex.{find_from, match_here, accepts, is_hex, find_all}
use aggregate_concept_transf.Concept.Gather.{
  aggregate, get_concorded_concept, get_concorded, gather_sources, gather_buckets, gather_records,
  gather_record, fetch, fetch_primary,
}
use aggregate_concept_transf.Concordances.{get_concordance}
use aggregate_concept_transf.Concept.Buckets.{bucket_concordances}
use aggregate_concept_transf.Text.{replace_byte, str_eq, contains_text}
use aggregate_concept_transf.S3.{get_concept_and_transaction_id}
use aggregate_concept_transf.Concept.Writer.{send_to_writer}
use aggregate_concept_transf.Concept.Process.{
  process_message, last_uuid, read_and_update, update_concept, write_to_neo, write,
  propagate_if_changed,
}
use aggregate_concept_transf.Effects.{ok}
use aggregate_concept_transf.World.{World}
use aggregate_concept_transf.Sqs.{
  ConceptUpdate, listen_and_serve_queue, remove_message_from_queue, get_notifications_from_messages,
}
use aggregate_concept_transf.Concept.Service.{with_deadline}
use aggregate_concept_transf.Concept.Listener.{
  serve, process_notifications, process_concept_update, process_and_remove,
  listen_for_notifications,
}
use aggregate_concept_transf.Concept.Listener.Justified.{received, AllExplained}
use aggregate_concept_transf.Concept.Listener.Explained.{listen-Explained}
use aggregate_concept_transf.Concept.Listener.Handled.{Handled, serve-Handled}
use aggregate_concept_transf.Examples.{world}
use aggregate_concept_transf.Examples.Updates.{message}
use aggregate_concept_transf.Examples.Batch.{unnamed}

abbrev pub busy_world : World (Unit {0})
busy_world = record world { sqs_receive_message = λ log url max_number. message ∷ message ∷ [] }

listen-Explained_example :
    AllExplained busy_world unnamed []
      (listen_for_notifications busy_world unnamed
        (record { healthy = true; shutdown = false })
        ([] ∷ [] ∷ [])
        []).1
listen-Explained_example =
    listen-Explained busy_world unnamed (record { healthy = true; shutdown = false }) ([] ∷ [] ∷ [])

pub round : (serve busy_world unnamed []).0 ≡ ok tt
unfolding serve listen_and_serve_queue get_notifications_from_messages process_notifications
    process_concept_update process_and_remove replace_byte process_message by_matches by_parts
    find_from match_here accepts is_hex aggregate last_uuid read_and_update get_concorded_concept
    with_deadline get_concorded extract_identifiers_from_key find_all get_concordance
    bucket_concordances str_eq gather_sources gather_buckets gather_records gather_record fetch
    get_concept_and_transaction_id fetch_primary update_concept write_to_neo write send_to_writer
    contains_text propagate_if_changed remove_message_from_queue
round = refl

serve-Handled_example :
    (updates : List ConceptUpdate) × (get_notifications_from_messages busy_world
        (received busy_world unnamed [])
      ≡ ok updates)
    × All (Handled busy_world unnamed (serve busy_world unnamed []).1) updates
serve-Handled_example = serve-Handled busy_world unnamed [] round
