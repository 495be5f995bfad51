-- ===== src/Concept/Listener/Justified.antt =====
-- What makes a deletion from the queue a justified one (ListenForNotifications of
-- concept/service.go).
use aggregate_concept_transf.Common.{
  List, [], ◌∷◌, ◌++◌, append_assoc, All, Option, ◌≡◌, refl, sym, ap, ◌∙◌, subst,
}
use aggregate_concept_transf.Text.{Str}
use aggregate_concept_transf.Effects.{Res, ok, err, panic, Call, Log, M, continue}
use aggregate_concept_transf.World.{SqsMessage, World}
use aggregate_concept_transf.Sqs.{ConceptUpdate}
use aggregate_concept_transf.Sqs.Handles.{From}
use aggregate_concept_transf.Concept.Service.{AggregateService}
use aggregate_concept_transf.Concept.Process.{process_message}
use aggregate_concept_transf.Concept.Listener.Deletes.{IsOffQueue}

module _ {R : Type 0} (w : World R) (s : AggregateService) where
  abbrev pub receive_call : Call
  receive_call =
      Call.sqs_receive s.concept_updates_sqs.listen_params.queue_url
        s.concept_updates_sqs.listen_params.max_number_of_messages

  abbrev pub received : Log → List SqsMessage
  received log =
      w.sqs_receive_message log s.concept_updates_sqs.listen_params.queue_url
        s.concept_updates_sqs.listen_params.max_number_of_messages

  -- The update was read from a message that a receive among the calls gave.
  abbrev pub Delivered : Log → ConceptUpdate → Type 0
  Delivered log n =
      (before later : Log) × ((log ≡ later ++ receive_call ∷ before) × From w (received before) n)

  -- At the moment of the deletion, ProcessMessage has just ended without an error for an update that
  -- was read from a received message, and the deletion is that of this message, from the queue of
  -- the service.
  abbrev pub Justified : (queue_url : Str) → Option Str → Log → Type 0
  Justified queue_url handle log =
      (n : ConceptUpdate) × (from : Log) × (Delivered from n
        × (process_message w s n.uuid n.bookmark from ≡ (ok tt, log))
        × (queue_url ≡ s.concept_updates_sqs.queue_url)
        × (handle ≡ n.receipt_handle))

  -- Where the call is a deletion, it is justified by what was called before it.
  abbrev pub Explained : Call → Log → Type 0
  Explained (Call.http req) log = Unit {0}
  Explained (Call.s3_get bucket key) log = Unit {0}
  Explained (Call.s3_head bucket key) log = Unit {0}
  Explained (Call.s3_head_bucket bucket) log = Unit {0}
  Explained (Call.sqs_receive url max_number) log = Unit {0}
  Explained (Call.sqs_delete url handle) log = Justified url handle log
  Explained (Call.sqs_attributes url) log = Unit {0}
  Explained (Call.sns_publish_batch topic entries) log = Unit {0}
  Explained (Call.kinesis_put stream key bytes) log = Unit {0}
  Explained (Call.kinesis_describe stream) log = Unit {0}

  -- Each of the calls made after `log`.
  abbrev pub AllExplained : (log calls : Log) → Type 0
  AllExplained log [] = Unit {0}
  AllExplained log (call ∷ calls) = Explained call (calls ++ log) × AllExplained log calls

  -- From one log to another every deletion is justified.
  abbrev pub Run : (log log' : Log) → Type 0
  Run log log' = (calls : Log) × (AllExplained log calls × (log' ≡ calls ++ log))

  AllExplained-append :
      (log calls more : Log)
      → AllExplained log calls
      → AllExplained (calls ++ log) more
      → AllExplained log (more ++ calls)
  AllExplained-append log calls [] h k = h
  AllExplained-append log calls (call ∷ more) h (k, ks) = (
    subst (Explained call) (sym (append_assoc more calls log)) k,
    AllExplained-append log calls more h ks,
  )

  pub Run-refl : (log : Log) → Run log log
  Run-refl log = ([], (tt, refl))

  pub Run-trans : (log log' log'' : Log) → Run log log' → Run log' log'' → Run log log''
  Run-trans log log' log'' (calls, (h, e)) (more, (k, f)) = (
    more ++ calls,
    (
      AllExplained-append log calls more h (rw e at k),
      f ∙ ap (λ l. more ++ l) e ∙ sym (append_assoc more calls log),
    ),
  )

  pub continue-Run :
      {A B : Type 0} (r : Res A) (f : A → M B) (log log' : Log)
      → Run log log'
      → ((a : A) → r ≡ ok a → Run log' (f a log').1)
      → Run log (continue r f log').1
  continue-Run (ok a) f log log' h k = Run-trans log log' _ h (k a refl)
  continue-Run (err e) f log log' h k = h
  continue-Run panic f log log' h k = h

  IsOffQueue-Explained : (call : Call) (log : Log) → IsOffQueue call → Explained call log
  IsOffQueue-Explained (Call.http req) log h = tt
  IsOffQueue-Explained (Call.s3_get bucket key) log h = tt
  IsOffQueue-Explained (Call.s3_head bucket key) log h = tt
  IsOffQueue-Explained (Call.s3_head_bucket bucket) log h = tt
  IsOffQueue-Explained (Call.sqs_receive url max_number) log h = tt
  IsOffQueue-Explained (Call.sqs_delete url handle) log h = absurd h
  IsOffQueue-Explained (Call.sqs_attributes url) log h = tt
  IsOffQueue-Explained (Call.sns_publish_batch topic entries) log h = tt
  IsOffQueue-Explained (Call.kinesis_put stream key bytes) log h = tt
  IsOffQueue-Explained (Call.kinesis_describe stream) log h = tt

  pub All-Explained : (log calls : Log) → All IsOffQueue calls → AllExplained log calls
  All-Explained log [] h = tt
  All-Explained log (call ∷ calls) (h, hs) =
      (IsOffQueue-Explained call (calls ++ log) h, All-Explained log calls hs)

  pub Delivered-later :
      (log log' : Log) (n : ConceptUpdate) → Run log log' → Delivered log n → Delivered log' n
  Delivered-later log log' n (calls, (_, e)) (before, later, (f, from)) = (
    before,
    calls ++ later,
    (e ∙ ap (λ l. calls ++ l) f ∙ sym (append_assoc calls later (receive_call ∷ before)), from),
  )
