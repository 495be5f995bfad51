-- ===== src/Main/System/Progress.antt =====
-- The service can always come to its end: neither the channels nor the wait group can leave main
-- waiting for ever (main.go, concept/service.go).
use aggregate_concept_transf.Common.{
  ℕ, zero, suc, List, [], ◌∷◌, ◌++◌, append_assoc, append-nil, true, Option, none, some, ◌≡◌, refl,
  sym, ap, ◌∙◌, inl, inr, arith, false≢true, Bool-cases, Option-cases,
}
use aggregate_concept_transf.World.{World}
use aggregate_concept_transf.Sqs.{get_notifications_from_messages}
use aggregate_concept_transf.Concept.Health.{Signal, done, feedback, receive}
use aggregate_concept_transf.Main.System.{
  MainPlace, serving, sending, waiting, closing, exited, WorkerPlace, polling, checked, receiving,
  batch, returned, finished, System, start, Move, test_shutdown, test_good, receive_batch,
  update_done, batch_done, Step, interrupt, send_done, write_health, wait_over, server_closed, work,
  call_done, Reach, here, next,
}
use aggregate_concept_transf.Main.System.Counts.{total, active}
use aggregate_concept_transf.Main.System.Invariant.{is_pending, Reach-Inv}

module _ {R : Type 0} (w : World R) (most : ℕ) where
  pub Reach-trans : {s t u : System} → Reach w most s t → Reach w most t u → Reach w most s u
  Reach-trans r here = r
  Reach-trans r (next r' st) = next (Reach-trans r r') st

  then_reach : {s t u : System} → Step w most s t → Reach w most t u → Reach w most s u
  then_reach st r = Reach-trans (next here st) r

  -- A later state with the same main and the same health, where one worker has called Done.
  abbrev Finishes : (before after : List WorkerPlace) → System → Type 0
  Finishes before after s =
      (t : System) × Reach w most s t
      × (t.main ≡ s.main)
      × (t.health ≡ s.health)
      × (t.workers ≡ before ++ finished ∷ after)

  module _ (before after : List WorkerPlace) where
    finish-returned :
        (s : System) → s.workers ≡ before ++ returned ∷ after → Finishes before after s
    finish-returned s at = (_, next here (call_done before after at refl), refl, refl, refl)

    -- Behind a move the worker finishes from where it is then.
    moved_on :
        (s : System) (p p' : WorkerPlace)
        → s.workers ≡ before ++ p ∷ after
        → Move w most s.health p p'
        → Finishes before after (record s { workers = before ++ p' ∷ after })
        → Finishes before after s
    moved_on s p p' at mv (t, r, main, health, workers) =
        (t, then_reach (work before after p p' at mv refl) r, main, health, workers)

    finish-polling :
        (s : System)
        → s.health.shutdown ≡ true
        → s.workers ≡ before ++ polling ∷ after
        → Finishes before after s
    finish-polling s h at =
        moved_on s polling returned at (test_shutdown refl (rw h refl)) (finish-returned _ refl)

    finish-receiving :
        (s : System)
        → s.health.shutdown ≡ true
        → s.workers ≡ before ++ receiving ∷ after
        → Finishes before after s
    unfolding get_notifications_from_messages
    finish-receiving s h at =
        moved_on s receiving polling at (receive_batch [] [] (omega arith) refl refl refl)
          (finish-polling _ h refl)

    finish-checked :
        (s : System)
        → s.health.shutdown ≡ true
        → s.workers ≡ before ++ checked ∷ after
        → Finishes before after s
    finish-checked s h at = elim (Bool-cases s.health.healthy) [
      | inl e ↦
          moved_on s checked receiving at (test_good refl (rw e refl)) (finish-receiving _ h refl)
      | inr e ↦ moved_on s checked polling at (test_good refl (rw e refl)) (finish-polling _ h refl)
    ]

    finish-batch :
        (left : ℕ) (s : System)
        → s.health.shutdown ≡ true
        → s.workers ≡ before ++ batch left ∷ after
        → Finishes before after s
    finish-batch zero s h at =
        moved_on s (batch 0) polling at (batch_done refl refl) (finish-polling _ h refl)
    finish-batch (suc left) s h at =
        moved_on s (batch (suc left)) (batch left) at (update_done left refl refl)
          (finish-batch left _ h refl)

    finish_worker :
        (p : WorkerPlace) (s : System)
        → s.health.shutdown ≡ true
        → s.workers ≡ before ++ p ∷ after
        → Finishes before after s
    finish_worker polling s h at = finish-polling s h at
    finish_worker checked s h at = finish-checked s h at
    finish_worker receiving s h at = finish-receiving s h at
    finish_worker (batch left) s h at = finish-batch left s h at
    finish_worker returned s h at = finish-returned s at
    finish_worker finished s h at = (s, here, refl, refl, at)

  total-snoc :
      (before : List WorkerPlace) → total active (before ++ finished ∷ []) ≡ total active before
  total-snoc [] = refl
  total-snoc (p ∷ before) = omega (arith, total-snoc before)

  -- All workers finish, one after the other.
  finish_all :
      (before after : List WorkerPlace) (s : System)
      → s.health.shutdown ≡ true
      → total active before ≡ 0
      → s.workers ≡ before ++ after
      → (t : System) × Reach w most s t × (t.main ≡ s.main) × (total active t.workers ≡ 0)
  finish_all before [] s h none_left at =
      (s, here, refl, ap (total active) (at ∙ append-nil before) ∙ none_left)
  finish_all before (p ∷ after) s h none_left at =
      let (t, r, main, health, workers) = finish_worker before after p s h at in
      let (u, r', main', gone) =
        finish_all (before ++ finished ∷ []) after t (ap (λ k. k.shutdown) health ∙ h)
          (total-snoc before ∙ none_left)
          (workers ∙ sym (append_assoc before (finished ∷ []) after)) in
      (u, Reach-trans r r', main' ∙ main, gone)

  -- The service ends later.
  abbrev pub CanExit : System → Type 0
  CanExit s = (t : System) × Reach w most s t × (t.main ≡ exited)

  later_exit : {s t : System} → Reach w most s t → CanExit t → CanExit s
  later_exit r (u, r', e) = (u, Reach-trans r r', e)

  exit-closing : (s : System) → s.main ≡ closing → CanExit s
  exit-closing s m = (_, next here (server_closed m refl), refl)

  module _ (n : ℕ) where
    -- Main waits, and the shutdown is written.
    exit-written :
        (s : System)
        → Reach w most (start n) s
        → s.main ≡ waiting
        → s.health.shutdown ≡ true
        → CanExit s
    exit-written s from m h =
        let (t, r, main, gone) = finish_all [] s.workers s h refl refl in
        let v = Reach-Inv w most (Reach-trans from r) in
        later_exit r (
          later_exit (next here (wait_over (main ∙ m) (v.counted ∙ gone) refl))
            (exit-closing _ refl))

    -- Main waits: the signal is written first where it is not yet.
    exit-waiting : (s : System) → Reach w most (start n) s → s.main ≡ waiting → CanExit s
    exit-waiting s from m = elim ((Reach-Inv w most from).written (rw m refl)) [
      | inl h ↦ exit-written s from m h
      | inr pending ↦ pending_done s.channel refl pending
    ]
      where
        pending_done : (c : Option Signal) → s.channel ≡ c → is_pending c ≡ true → CanExit s
        pending_done none e h = absurd (false≢true h)
        pending_done (some (feedback st)) e h = absurd (false≢true h)
        pending_done (some done) e h =
            let st : Step w most s (record s { channel = none; health = receive s.health done }) =
              write_health done e refl in
            later_exit (next here st) (exit-written _ (next from st) m (unfold receive in refl))

    exit-sending :
        (s : System) → Reach w most (start n) s → s.main ≡ sending → s.channel ≡ none → CanExit s
    exit-sending s from m c =
        let st : Step w most s (record s { main = waiting; channel = some done }) =
          send_done m c refl in
        later_exit (next here st) (exit-waiting _ (next from st) refl)

    -- The channel is emptied first.
    exit-send : (s : System) → Reach w most (start n) s → s.main ≡ sending → CanExit s
    exit-send s from m = elim (Option-cases s.channel) [
      | inl c ↦ exit-sending s from m c
      | inr (signal, c) ↦
          let st : Step w most s (record s { channel = none; health = receive s.health signal }) =
            write_health signal c refl in
          later_exit (next here st) (exit-sending _ (next from st) m refl)
    ]

    -- Whatever the service has come to, whatever its health and wherever its workers are, it can go
    -- on to its end.
    pub Reach-CanExit : (s : System) → Reach w most (start n) s → CanExit s
    Reach-CanExit s from = by_main s.main refl
      where
        by_main : (m : MainPlace) → s.main ≡ m → CanExit s
        by_main serving m =
            let st : Step w most s (record s { main = sending }) = interrupt m refl in
            later_exit (next here st) (exit-send _ (next from st) refl)
        by_main sending m = exit-send s from m
        by_main waiting m = exit-waiting s from m
        by_main closing m = exit-closing s m
        by_main exited m = (s, here, m)
