-- ===== src/Concept/Listener/Removal.antt =====
-- When the message of an update leaves the queue (processConceptUpdate of concept/service.go).
use aggregate_concept_transf.Common.{
  Option, none, some, ◌∷◌, ◌≡◌, ◌≢◌, refl, sym, ◌∙◌, ◌⊎◌, inl, inr,
}
use aggregate_concept_transf.Text.{Str}
use aggregate_concept_transf.Effects.{Res, ok, err, panic, Call, Log, Res-cases, >>=-ok}
use aggregate_concept_transf.World.{DeleteReply, not_sent, sent, World}
use aggregate_concept_transf.Concept.Service.{AggregateService, with_deadline}
use aggregate_concept_transf.Concept.Process.{process_message}
use aggregate_concept_transf.Concept.Process.Guards.{with_deadline-ok}
use aggregate_concept_transf.Concept.Listener.{process_and_remove, process_concept_update}
use aggregate_concept_transf.Sqs.{ConceptUpdate, delete_result, remove_message_from_queue}

module _ {R : Type 0} (w : World R) where
  -- A request with a context that has ended is not sent.
  abbrev pub HoldsBack : Type 0
  HoldsBack =
      (log : Log) (e : Str) (handle : Option Str)
      → (error : Str) × (w.sqs_delete_message log (some e) handle ≡ not_sent error)

  in_time :
      (log : Log) (ctx_err handle error : Option Str)
      → HoldsBack
      → w.sqs_delete_message log ctx_err handle ≡ sent error
      → ctx_err ≡ none
  in_time log none handle error h e = refl
  in_time log (some t) handle error h e = let (_, held) = h log t handle in cc

module _ {R : Type 0} (w : World R) (s : AggregateService) (n : ConceptUpdate) where
  -- The deletion of the update's message.
  abbrev pub deletion : Call
  deletion = Call.sqs_delete s.concept_updates_sqs.queue_url n.receipt_handle

  abbrev pub processed : Log → Res (Unit {0}) × Log
  processed log = process_message w s n.uuid n.bookmark log

  -- What the deletion comes to behind the calls of ProcessMessage.
  abbrev pub deleted : Log → DeleteReply
  deleted log =
      w.sqs_delete_message (processed log).1 (w.expired (processed log).1) n.receipt_handle

  process_and_remove-sent :
      (log : Log) (error : Option Str)
      → (processed log).0 ≡ ok tt
      → deleted log ≡ sent error
      → (process_and_remove w s n log).1 ≡ deletion ∷ (processed log).1
  unfolding process_and_remove remove_message_from_queue delete_result
  process_and_remove-sent log error e d = rw (e, d) refl

  process_and_remove-not_sent :
      (log : Log) (error : Str)
      → (processed log).0 ≡ ok tt
      → deleted log ≡ not_sent error
      → ((process_and_remove w s n log).1 ≡ (processed log).1)
        × ((process_and_remove w s n log).0 ≢ ok tt)
  unfolding process_and_remove remove_message_from_queue delete_result
  process_and_remove-not_sent log error e d = rw (e, d) (refl, λ k. cc)

  process_and_remove-failed :
      (log : Log) (r : Res (Unit {0}))
      → r ≢ ok tt
      → (processed log).0 ≡ r
      → (process_and_remove w s n log).1 ≡ (processed log).1
  unfolding process_and_remove
  process_and_remove-failed log (ok a) differs e = absurd (differs refl)
  process_and_remove-failed log (err t) differs e = rw e refl
  process_and_remove-failed log panic differs e = rw e refl

  log-deadline :
      (log : Log) → (process_concept_update w s n log).1 ≡ (process_and_remove w s n log).1
  unfolding process_concept_update with_deadline
  log-deadline log = refl

  update-ok :
      (log : Log)
      → (process_concept_update w s n log).0 ≡ ok tt
      → (process_and_remove w s n log).0 ≡ ok tt
  unfolding process_concept_update
  update-ok log h = with_deadline-ok w (process_and_remove w s n) log h

  processed-ok : (log : Log) → (process_and_remove w s n log).0 ≡ ok tt → (processed log).0 ≡ ok tt
  unfolding process_and_remove
  processed-ok log h =
      let (a, e, _, _) = >>=-ok (process_message w s n.uuid n.bookmark) _ log h in e

  -- The update has made the calls of ProcessMessage only, and has ended in an error or a panic.
  abbrev pub Kept : Log → Type 0
  Kept log =
      ((process_concept_update w s n log).1 ≡ (processed log).1)
      × ((process_concept_update w s n log).0 ≢ ok tt)

  -- The deletion was sent, behind the calls of ProcessMessage.
  abbrev pub Removed : Log → Type 0
  Removed log = (process_concept_update w s n log).1 ≡ deletion ∷ (processed log).1

  by_deletion :
      (log : Log) (reply : DeleteReply)
      → (processed log).0 ≡ ok tt
      → deleted log ≡ reply
      → ((error : Option Str) × (reply ≡ sent error) × Removed log)
        ⊎ ((error : Str) × (reply ≡ not_sent error) × Kept log)
  by_deletion log (sent error) e d =
      inl (error, refl, log-deadline log ∙ process_and_remove-sent log error e d)
  by_deletion log (not_sent error) e d =
      let (last, failed) = process_and_remove-not_sent log error e d in
      inr (error, refl, (log-deadline log ∙ last, λ h. failed (update-ok log h)))

  failed-Kept : (log : Log) (r : Res (Unit {0})) → r ≢ ok tt → (processed log).0 ≡ r → Kept log
  failed-Kept log r differs e = (
    log-deadline log ∙ process_and_remove-failed log r differs e,
    λ h. differs (sym e ∙ processed-ok log (update-ok log h)),
  )

  -- The deletion was sent behind a ProcessMessage that ended without an error, or the update failed.
  pub process_concept_update-ends :
      (log : Log) → (((processed log).0 ≡ ok tt) × Removed log) ⊎ Kept log
  process_concept_update-ends log = elim (Res-cases (processed log).0) [
    | inl (a, e) ↦ elim (by_deletion log (deleted log) e refl) [
      | inl (_, _, removed) ↦ inl (e, removed)
      | inr (_, _, kept) ↦ inr kept
    ]
    | inr (inl (t, e)) ↦ inr (failed-Kept log (err t) (λ k. cc) e)
    | inr (inr e) ↦ inr (failed-Kept log panic (λ k. cc) e)
  ]

  -- Where a request with a context that has ended is not sent, an update ends in one of three ways.
  -- ProcessMessage has ended without an error before the deadline of the update, and the deletion of
  -- its message is sent, in the call after its last; or ProcessMessage has ended without an error, but the
  -- deletion is not sent, as it always is where the deadline has passed by then; or ProcessMessage
  -- has ended in an error or a panic. In the last two the update makes no call behind those of
  -- ProcessMessage and ends in an error or a panic.
  pub process_concept_update-removal :
      (log : Log)
      → HoldsBack w
      → ((processed log).0 ≡ ok tt) × (w.expired (processed log).1 ≡ none) × Removed log
        ⊎ ((processed log).0 ≡ ok tt) × ((error : Str) × (deleted log ≡ not_sent error)) × Kept log
        ⊎ ((processed log).0 ≢ ok tt) × Kept log
  process_concept_update-removal log holds = elim (Res-cases (processed log).0) [
    | inl (a, e) ↦ elim (by_deletion log (deleted log) e refl) [
      | inl (error, d, removed) ↦ inl (e, in_time w (processed log).1 _ _ error holds d, removed)
      | inr (error, d, kept) ↦ inr (inl (e, (error, d), kept))
    ]
    | inr (inl (t, e)) ↦
        inr (inr ((λ k. let bad = sym e ∙ k in cc), failed-Kept log (err t) (λ k. cc) e))
    | inr (inr e) ↦ inr (inr ((λ k. let bad = sym e ∙ k in cc), failed-Kept log panic (λ k. cc) e))
  ]
