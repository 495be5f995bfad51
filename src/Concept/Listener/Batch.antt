-- ===== src/Concept/Listener/Batch.antt =====
-- What the goroutines of one batch delete from the queue, in whatever order they make their calls
-- (processConceptUpdate of concept/service.go).
-- What the other systems answer to a goroutine may depend on the calls of the others, so each
-- goroutine has a world of its own here; what is said of a goroutine is said of that world.
use aggregate_concept_transf.Common.{
  List, [], ◌∷◌, ◌++◌, append_assoc, append_cancel_right, All, Exists, ◌≡◌, sym, ap, ◌∙◌, subst,
  inl, inr, Option,
}
use aggregate_concept_transf.Text.{Str}
use aggregate_concept_transf.Effects.{ok, Call, Log}
use aggregate_concept_transf.World.{World}
use aggregate_concept_transf.Concept.Service.{AggregateService}
use aggregate_concept_transf.Concept.Process.{process_message}
use aggregate_concept_transf.Concept.Listener.{process_concept_update}
use aggregate_concept_transf.Concept.Listener.Deletes.{IsOffQueue, process_message-IsOffQueue}
use aggregate_concept_transf.Concept.Listener.Removal.{deletion, process_concept_update-ends}
use aggregate_concept_transf.Concept.Listener.Interleaving.{
  Goroutine, Interleaving, Within, Made, tail_eq, Interleaving-Made,
}

deletion-absurd :
    (url : Str) (handle : Option Str) (later before : Log)
    → All IsOffQueue (later ++ Call.sqs_delete url handle ∷ before)
    → ⊥
deletion-absurd url handle [] before (h, hs) = h
deletion-absurd url handle (c ∷ later) before (h, hs) = deletion-absurd url handle later before hs

-- The one deletion is the last call.
deletion-last :
    (url : Str) (handle : Option Str) (later before : Log) (last : Call) (calls : Log)
    → later ++ Call.sqs_delete url handle ∷ before ≡ last ∷ calls
    → All IsOffQueue calls
    → (Call.sqs_delete url handle ≡ last) × (before ≡ calls)
deletion-last url handle [] before last calls e h = (cc, cc)
deletion-last url handle (c ∷ later) before last calls e h =
    absurd
      (deletion-absurd url handle later before (subst (λ l. All IsOffQueue l) (sym (tail_eq e)) h))

module _ (R : Type 0) (s : AggregateService) where
  -- A goroutine that has made some of the calls of processConceptUpdate, with its world, the log
  -- from which it was started and the calls that it has still to make.
  pub record Running : Type 0 where
    pub goroutine : Goroutine
    pub world : World R
    pub from : Log
    pub later : Log
    pub ran :
        (process_concept_update world s goroutine.update from).1
        ≡ (later ++ goroutine.calls) ++ from

  -- The ProcessMessage of the goroutine has ended without an error, and all of its calls are among
  -- `earlier`, in their order.
  abbrev pub Ended : (earlier : Log) → Running → Type 0
  Ended earlier r =
      let n = r.goroutine.update in
      (calls : Log) × (process_message r.world s n.uuid n.bookmark r.from
        ≡ (ok tt, calls ++ r.from))
      × Within calls earlier

  Made-Ended :
      (handle : Option Str) (earlier : Log) (r : Running)
      → Made (Call.sqs_delete s.concept_updates_sqs.queue_url handle) earlier r.goroutine
      → (r.goroutine.update.receipt_handle ≡ handle) × Ended earlier r
  Made-Ended handle earlier r (later, before, (f, within)) =
      let g = r.goroutine in
      let w = r.world in
      let n = g.update in
      let url = s.concept_updates_sqs.queue_url in
      let (calls, h, same) = process_message-IsOffQueue w s n.uuid n.bookmark r.from in
      let split : r.later ++ g.calls ≡ (r.later ++ later) ++ Call.sqs_delete url handle ∷ before =
        ap (λ l. r.later ++ l) f ∙ sym (append_assoc r.later later _) in
      elim (process_concept_update-ends w s n r.from) [
        | inl (done, last) ↦
            let all : r.later ++ g.calls ≡ deletion w s n ∷ calls =
              append_cancel_right _ (deletion w s n ∷ calls) r.from
                (sym r.ran ∙ last ∙ ap (λ l. deletion w s n ∷ l) same) in
            let (d, b) =
              deletion-last url handle (r.later ++ later) before (deletion w s n) calls
                (sym split ∙ all) h in
            (handle_eq d, (calls, (λ i. (done i, same i)), subst (λ l. Within l earlier) b within))
        | inr (last, _) ↦
            let all : r.later ++ g.calls ≡ calls =
              append_cancel_right _ calls r.from (sym r.ran ∙ last ∙ same) in
            absurd (
              deletion-absurd url handle (r.later ++ later) before
                (subst (λ l. All IsOffQueue l) (sym all ∙ split) h))
      ]
    where
      handle_eq :
          {url url' : Str} {a b : Option Str}
          → Call.sqs_delete url a ≡ Call.sqs_delete url' b
          → b ≡ a
      handle_eq h = cc

  abbrev pub goroutines : List Running → List Goroutine
  goroutines [] = []
  goroutines (r ∷ batch) = r.goroutine ∷ goroutines batch

  Exists-Ended :
      (handle : Option Str) (earlier : Log) (batch : List Running)
      → Exists
          (Made (Call.sqs_delete s.concept_updates_sqs.queue_url handle) earlier)
          (goroutines batch)
      → Exists
          (λ (r : Running). (r.goroutine.update.receipt_handle ≡ handle) × Ended earlier r)
          batch
  Exists-Ended handle earlier [] h = h
  Exists-Ended handle earlier (r ∷ batch) h = elim h [
    | inl made ↦ inl (Made-Ended handle earlier r made)
    | inr rest ↦ inr (Exists-Ended handle earlier batch rest)
  ]

  -- In whatever order the goroutines of a batch make their calls and whatever they are answered: at
  -- any time, a message is deleted only as that of an update of the batch whose ProcessMessage, with
  -- the answers that its goroutine was given, has ended without an error, and every call of that
  -- ProcessMessage stands before the deletion.
  pub batch-Processed :
      (batch : List Running) (log later earlier : Log) (handle : Option Str)
      → Interleaving (goroutines batch) log
      → log ≡ later ++ Call.sqs_delete s.concept_updates_sqs.queue_url handle ∷ earlier
      → Exists
          (λ (r : Running). (r.goroutine.update.receipt_handle ≡ handle) × Ended earlier r)
          batch
  batch-Processed batch log later earlier handle i e =
      Exists-Ended handle earlier batch (
        Interleaving-Made later earlier (Call.sqs_delete s.concept_updates_sqs.queue_url handle) i
          e)
