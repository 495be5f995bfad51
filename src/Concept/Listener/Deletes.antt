-- ===== src/Concept/Listener/Deletes.antt =====
-- ProcessMessage itself neither reads the queue nor deletes a message from it (concept/service.go).
use aggregate_concept_transf.Common.{
  List, [], ◌∷◌, ◌++◌, append_assoc, Bool, true, false, All, All-append, ◌≡◌, ◌≢◌, refl, sym, ap,
  ◌∙◌, subst, Bool-cases, inl, inr,
}
use aggregate_concept_transf.Text.{Str}
use aggregate_concept_transf.Effects.{Res, ok, err, panic, Call, Log}
use aggregate_concept_transf.World.{CanonicalConcept, World}
use aggregate_concept_transf.Concept.Service.{AggregateService, with_deadline}
use aggregate_concept_transf.Concept.Gather.{get_concorded_concept}
use aggregate_concept_transf.Concept.Gather.Calls.{IsRead, OnlyCalls-OnlyReads}
use aggregate_concept_transf.Concept.Gather.Quiet.{get_concorded-IsQuiet}
use aggregate_concept_transf.Concept.Gather.Reads.{rev_onto}
use aggregate_concept_transf.Concept.Process.{read_and_update, process_message}
use aggregate_concept_transf.Concept.Process.Plan.{
  Step, Performs, puts, purges, publishes, notifies, Runs, complete, stopped, performed, unsent,
}
use aggregate_concept_transf.Concept.Process.Update.{process_message-Follows}

-- Any call but a read of the queue and the deletion of a message.
abbrev pub IsOffQueue : Call → Type 0
IsOffQueue (Call.http req) = Unit {0}
IsOffQueue (Call.s3_get bucket key) = Unit {0}
IsOffQueue (Call.s3_head bucket key) = Unit {0}
IsOffQueue (Call.s3_head_bucket bucket) = Unit {0}
IsOffQueue (Call.sqs_receive url max_number) = ⊥
IsOffQueue (Call.sqs_delete url handle) = ⊥
IsOffQueue (Call.sqs_attributes url) = Unit {0}
IsOffQueue (Call.sns_publish_batch topic entries) = Unit {0}
IsOffQueue (Call.kinesis_put stream key bytes) = Unit {0}
IsOffQueue (Call.kinesis_describe stream) = Unit {0}

-- From one log to another there are only calls with the property.
abbrev pub Extends : (Call → Type 0) → (log log' : Log) → Type 0
Extends P log log' = (calls : Log) × All P calls × (log' ≡ calls ++ log)

Extends-trans :
    (P : Call → Type 0) {log log' log'' : Log}
    → Extends P log log'
    → Extends P log' log''
    → Extends P log log''
Extends-trans P {log} (calls, h, e) (more, k, f) = (
  more ++ calls,
  All-append P more calls k h,
  f ∙ ap (λ l. more ++ l) e ∙ sym (append_assoc more calls log),
)

rev_onto-Extends :
    (P : Call → Type 0) (calls log : Log) → All P calls → Extends P log (rev_onto calls log)
rev_onto-Extends P [] log h = ([], tt, refl)
rev_onto-Extends P (call ∷ calls) log (h, hs) =
    Extends-trans P (call ∷ [], (h, tt), refl) (rev_onto-Extends P calls (call ∷ log) hs)

IsRead-IsOffQueue : (call : Call) → IsRead call → IsOffQueue call
IsRead-IsOffQueue (Call.http req) h = tt
IsRead-IsOffQueue (Call.s3_get bucket key) h = tt
IsRead-IsOffQueue (Call.s3_head bucket key) h = tt
IsRead-IsOffQueue (Call.s3_head_bucket bucket) h = tt
IsRead-IsOffQueue (Call.sqs_receive url max_number) h = h
IsRead-IsOffQueue (Call.sqs_delete url handle) h = h
IsRead-IsOffQueue (Call.sqs_attributes url) h = tt
IsRead-IsOffQueue (Call.sns_publish_batch topic entries) h = tt
IsRead-IsOffQueue (Call.kinesis_put stream key bytes) h = tt
IsRead-IsOffQueue (Call.kinesis_describe stream) h = tt

All-IsOffQueue : (calls : Log) → All IsRead calls → All IsOffQueue calls
All-IsOffQueue [] h = tt
All-IsOffQueue (call ∷ calls) (h, hs) = (IsRead-IsOffQueue call h, All-IsOffQueue calls hs)

module _ {R : Type 0} (w : World R) (s : AggregateService) where
  Performs-IsOffQueue : {step : Step R} {call : Call} → Performs w s step call → IsOffQueue call
  Performs-IsOffQueue (puts _ _ _ _) = tt
  Performs-IsOffQueue (purges _ _ _ _) = tt
  Performs-IsOffQueue (publishes _) = tt
  Performs-IsOffQueue (notifies _) = tt

  Runs-IsOffQueue :
      {plan : List (Step R)} {calls : Log} {b : Bool} → Runs w s plan calls b → All IsOffQueue calls
  Runs-IsOffQueue complete = tt
  Runs-IsOffQueue stopped = tt
  Runs-IsOffQueue (performed h r) = (Performs-IsOffQueue h, Runs-IsOffQueue r)
  Runs-IsOffQueue (unsent r) = Runs-IsOffQueue r

  read-Extends :
      (uuid bookmark : Str) (log : Log)
      → Extends IsOffQueue log (get_concorded_concept w s uuid bookmark log).1
  unfolding get_concorded_concept with_deadline
  read-Extends uuid bookmark log =
      let (calls, h, e) =
        OnlyCalls-OnlyReads w s log _ (get_concorded-IsQuiet w s uuid bookmark log) in
      (calls, All-IsOffQueue calls h, e)

  read_and_update-failed :
      (uuid bookmark : Str) (log : Log) (r : Res (CanonicalConcept R × Str))
      → (get_concorded_concept w s uuid bookmark log).0 ≡ r
      → ((a : CanonicalConcept R × Str) → r ≢ ok a)
      → (read_and_update w s uuid bookmark log).1 ≡ (get_concorded_concept w s uuid bookmark log).1
  unfolding read_and_update
  read_and_update-failed uuid bookmark log (ok a) e differs = absurd (differs a refl)
  read_and_update-failed uuid bookmark log (err t) e differs = rw (read_and_update, e) refl
  read_and_update-failed uuid bookmark log panic e differs = rw (read_and_update, e) refl

  process_message-by_mode :
      (uuid bookmark : Str) (log : Log)
      → s.read_only ≡ false
      → process_message w s uuid bookmark log ≡ read_and_update w s uuid bookmark log
  unfolding process_message
  process_message-by_mode uuid bookmark log h = rw h refl

  process_message-read_only :
      (uuid bookmark : Str) (log : Log)
      → s.read_only ≡ true
      → (process_message w s uuid bookmark log).1 ≡ log
  unfolding process_message
  process_message-read_only uuid bookmark log h = rw h refl

  updated-Extends :
      (uuid bookmark : Str) (log : Log) (r : Res (CanonicalConcept R × Str))
      → s.read_only ≡ false
      → (get_concorded_concept w s uuid bookmark log).0 ≡ r
      → Extends IsOffQueue log (process_message w s uuid bookmark log).1
  updated-Extends uuid bookmark log (ok (concept, tid)) h e =
      let log1 : Log = (get_concorded_concept w s uuid bookmark log).1 in
      let follows =
        process_message-Follows w s uuid bookmark log log1 concept tid h (ap (λ r. (r, log1)) e) in
      Extends-trans IsOffQueue (read-Extends uuid bookmark log) (
        subst (Extends IsOffQueue log1) (sym follows.logged)
          (rev_onto-Extends IsOffQueue follows.calls log1 (Runs-IsOffQueue follows.runs)))
  updated-Extends uuid bookmark log (err t) h e =
      subst (Extends IsOffQueue log)
        (sym (
          ap (λ (o : Res (Unit {0}) × Log). o.1) (process_message-by_mode uuid bookmark log h)
          ∙ read_and_update-failed uuid bookmark log (err t) e (λ a k. cc)))
        (read-Extends uuid bookmark log)
  updated-Extends uuid bookmark log panic h e =
      subst (Extends IsOffQueue log)
        (sym (
          ap (λ (o : Res (Unit {0}) × Log). o.1) (process_message-by_mode uuid bookmark log h)
          ∙ read_and_update-failed uuid bookmark log panic e (λ a k. cc)))
        (read-Extends uuid bookmark log)

  -- However ProcessMessage ends, none of its calls reads the queue or deletes a message.
  pub process_message-IsOffQueue :
      (uuid bookmark : Str) (log : Log)
      → Extends IsOffQueue log (process_message w s uuid bookmark log).1
  process_message-IsOffQueue uuid bookmark log = elim (Bool-cases s.read_only) [
    | inl h ↦
        subst (Extends IsOffQueue log) (sym (process_message-read_only uuid bookmark log h))
          ([], tt, refl)
    | inr h ↦
        updated-Extends uuid bookmark log (get_concorded_concept w s uuid bookmark log).0 h refl
  ]
