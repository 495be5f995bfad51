-- ===== src/Main/System/Invariant.antt =====
-- What holds of the service in every state that it can come to (main.go, concept/service.go).
use aggregate_concept_transf.Common.{
  ℕ, suc, List, [], ◌∷◌, ◌++◌, length, Bool, true, false, Option, none, some, ◌≡◌, refl, false≢true,
  ◌||◌, sym, ap, ◌∙◌, ◌⊎◌, inl, inr, arith,
}
use aggregate_concept_transf.World.{World}
use aggregate_concept_transf.Concept.Health.{
  SystemHealth, Signal, done, feedback, initial_health, receive,
}
use aggregate_concept_transf.Sqs.{ConceptUpdate}
use aggregate_concept_transf.Main.System.{
  MainPlace, serving, sending, waiting, closing, exited, WorkerPlace, returned, finished, System,
  start, after_shutdown_test, after_good_test, after_receive, Move, test_shutdown, test_good,
  receive_batch, update_done, batch_done, Step, interrupt, send_done, send_feedback, write_health,
  wait_over, server_closed, work, call_done, Reach, here, next,
}
use aggregate_concept_transf.Main.System.Counts.{
  total, total-at, active, stopped, total-replicate, total-replicate_one, length-replicate,
  length-at,
}

-- Main has sent on `done`.
abbrev pub has_sent : MainPlace → Bool
has_sent serving = false
has_sent sending = false
has_sent waiting = true
has_sent closing = true
has_sent exited = true

-- Main is behind its wait for the workers.
abbrev pub is_past_wait : MainPlace → Bool
is_past_wait serving = false
is_past_wait sending = false
is_past_wait waiting = false
is_past_wait closing = true
is_past_wait exited = true

-- The signal done has been received and not yet written.
abbrev pub is_pending : Option Signal → Bool
is_pending none = false
is_pending (some (feedback st)) = false
is_pending (some done) = true

pub record Inv (max_workers : ℕ) (s : System) : Type 0 where
  -- the counter of the wait group is the number of workers that have not called Done
  pub counted : s.running ≡ total active s.workers
  pub size : length s.workers ≡ max_workers
  -- behind the wait there is no such worker
  pub waited : is_past_wait s.main ≡ true → total active s.workers ≡ 0
  -- a worker leaves its loop only where the shutdown is written
  pub left : s.health.shutdown ≡ false → total stopped s.workers ≡ 0
  -- the shutdown is written, or about to be, exactly where main has sent it
  pub sent : has_sent s.main ≡ false → (s.health.shutdown ≡ false) × (is_pending s.channel ≡ false)
  pub written : has_sent s.main ≡ true → (s.health.shutdown ≡ true) ⊎ (is_pending s.channel ≡ true)

pub Inv-start : (n : ℕ) → Inv n (start n)
unfolding initial_health
Inv-start n = record {
  counted = sym (total-replicate_one active n refl);
  size = length-replicate n;
  waited = λ h. absurd (false≢true h);
  left = λ h. total-replicate stopped n refl;
  sent = λ h. (refl, refl);
  written = λ h. absurd (false≢true h);
}

module _ {R : Type 0} (w : World R) (most : ℕ) where
  -- A worker that moves is active before and after.
  Move-active :
      {health : SystemHealth} {p p' : WorkerPlace}
      → Move w most health p p'
      → (active p ≡ 1) × (active p' ≡ 1)
  Move-active {health} (test_shutdown e e') = rw (e, e') (refl, by_test health.shutdown)
    where
      by_test : (b : Bool) → active (after_shutdown_test b) ≡ 1
      by_test true = refl
      by_test false = refl
  Move-active {health} (test_good e e') = rw (e, e') (refl, by_test health.healthy)
    where
      by_test : (b : Bool) → active (after_good_test b) ≡ 1
      by_test true = refl
      by_test false = refl
  Move-active (receive_batch messages updates few read e e') = rw (e, e') (refl, by_updates updates)
    where
      by_updates : (updates : List ConceptUpdate) → active (after_receive updates) ≡ 1
      by_updates [] = refl
      by_updates (n ∷ rest) = refl
  Move-active (update_done left e e') = rw (e, e') (refl, refl)
  Move-active (batch_done e e') = rw (e, e') (refl, refl)

  -- No worker leaves its loop before the shutdown is written.
  Move-stopped :
      {health : SystemHealth} {p p' : WorkerPlace}
      → health.shutdown ≡ false
      → Move w most health p p'
      → (stopped p ≡ 0) × (stopped p' ≡ 0)
  Move-stopped h (test_shutdown e e') = rw (e, e', h) (refl, refl)
  Move-stopped {health} h (test_good e e') = rw (e, e') (refl, by_test health.healthy)
    where
      by_test : (b : Bool) → stopped (after_good_test b) ≡ 0
      by_test true = refl
      by_test false = refl
  Move-stopped h (receive_batch messages updates few read e e') =
      rw (e, e') (refl, by_updates updates)
    where
      by_updates : (updates : List ConceptUpdate) → stopped (after_receive updates) ≡ 0
      by_updates [] = refl
      by_updates (n ∷ rest) = refl
  Move-stopped h (update_done left e e') = rw (e, e') (refl, refl)
  Move-stopped h (batch_done e e') = rw (e, e') (refl, refl)

  -- What a signal does to the shutdown.
  receive-shutdown :
      (health : SystemHealth) (signal : Signal)
      → (receive health signal).shutdown ≡ health.shutdown || is_pending (some signal)
  unfolding receive
  receive-shutdown health (feedback st) = ground arith
  receive-shutdown health done = ground arith

  pub Step-Inv : {n : ℕ} {s t : System} → Step w most s t → Inv n s → Inv n t
  Step-Inv (interrupt m e) v = rw e (record {
    counted = v.counted;
    size = v.size;
    waited = λ h. absurd (false≢true h);
    left = v.left;
    sent = λ h. v.sent (rw m refl);
    written = λ h. absurd (false≢true h);
  })
  Step-Inv (send_done m c e) v = rw e (record {
    counted = v.counted;
    size = v.size;
    waited = λ h. absurd (false≢true h);
    left = v.left;
    sent = λ h. absurd (false≢true (sym h));
    written = λ h. inr refl;
  })
  Step-Inv (send_feedback st c e) v = rw e (record {
    counted = v.counted;
    size = v.size;
    waited = v.waited;
    left = v.left;
    sent = λ h. ((v.sent h).0, refl);
    written = λ h. elim (v.written h) [
      | inl k ↦ inl k
      | inr k ↦ absurd (false≢true (sym (ap is_pending c) ∙ k))
    ];
  })
  Step-Inv {s} (write_health signal c e) v = rw e (record {
    counted = v.counted;
    size = v.size;
    waited = v.waited;
    left = λ h. v.left (ground (arith, receive-shutdown s.health signal));
    sent = λ h. (ground (arith, receive-shutdown s.health signal, v.sent h), refl);
    written = λ h. inl (ground (arith, receive-shutdown s.health signal, v.written h));
  })
  Step-Inv (wait_over m r e) v = rw e (record {
    counted = v.counted;
    size = v.size;
    waited = λ h. omega (arith, v.counted);
    left = v.left;
    sent = λ h. absurd (false≢true (sym h));
    written = λ h. v.written (rw m refl);
  })
  Step-Inv (server_closed m e) v = rw e (record {
    counted = v.counted;
    size = v.size;
    waited = λ h. v.waited (rw m refl);
    left = v.left;
    sent = λ h. absurd (false≢true (sym h));
    written = λ h. v.written (rw m refl);
  })
  Step-Inv {s} (work before after p p' at mv e) v =
      let (a, a') = Move-active mv in
      let same : total active s.workers ≡ total active (before ++ p' ∷ after) =
        ap (total active) at
        ∙ omega (arith, total-at active before after p, total-at active before after p') in
      rw e (record {
        counted = v.counted ∙ same;
        size = length-at before after p' p ∙ ap length (sym at) ∙ v.size;
        waited = λ h. sym same ∙ v.waited h;
        left = λ h.
            let (b, b') = Move-stopped h mv in
            let none_left = sym (ap (total stopped) at) ∙ v.left h in
            omega (arith, total-at stopped before after p, total-at stopped before after p');
        sent = v.sent;
        written = v.written;
      })
  Step-Inv {s} (call_done before after at e) v =
      let gone : total active s.workers ≡ suc (total active (before ++ after)) =
        omega (arith, ap (total active) at, total-at active before after returned) in
      rw e (record {
        counted = omega (arith, v.counted, total-at active before after finished);
        size = length-at before after finished returned ∙ ap length (sym at) ∙ v.size;
        waited = λ h. absurd (let bad = v.waited h in omega arith);
        left = λ h. absurd (
            let none_left = sym (ap (total stopped) at) ∙ v.left h in
            omega (arith, total-at stopped before after returned));
        sent = v.sent;
        written = v.written;
      })

  -- In every state that the service comes to: the counter of the wait group is the number of the
  -- workers that have not called Done, and no such worker is left where main shuts the server down
  -- or has ended; a worker has left its loop only where the shutdown is written to the health; and
  -- the shutdown is written, or received and about to be, exactly where main has sent it.
  pub Reach-Inv : {n : ℕ} {s : System} → Reach w most (start n) s → Inv n s
  Reach-Inv {n} here = Inv-start n
  Reach-Inv (next r st) = Step-Inv st (Reach-Inv r)
