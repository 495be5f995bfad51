-- ===== src/Main/Start/Ready.antt =====
-- What a started process (app.Before and app.Action of main.go) is ready for.
use aggregate_concept_transf.Common.{ℕ, [], true, none, ◌≡◌, ◌≢◌, sym, subst, ◌∙◌, ◌⊎◌, inl, inr}
use aggregate_concept_transf.Text.{Str}
use aggregate_concept_transf.Effects.{Res, ok, Log, ok-injective}
use aggregate_concept_transf.World.{Setup, World}
use aggregate_concept_transf.Concept.Service.{AggregateService}
use aggregate_concept_transf.Main.{Options, before, max_workers, action}
use aggregate_concept_transf.Main.Required.{Configured, before-Configured}
use aggregate_concept_transf.Main.Start.{Outcome, returns, fails, panics}
use aggregate_concept_transf.Main.Start.Action.{Wired, action-Outcome}

pub Outcome-ok :
    {A : Type 0} {P : A → Type 0} {E : Str → Type 0} {F : Type 0} {r : Res A} {a : A}
    → Outcome P E F r
    → r ≡ ok a
    → P a
Outcome-ok {P = P} (returns h) e = subst P (ok-injective e) h
Outcome-ok (fails h) e = cc
Outcome-ok (panics h) e = cc

-- The stores that are read, and, where workers run, the queue that they read and delete from and
-- the stream that they write to are named.
abbrev Ready : (gomaxprocs : ℕ) → Options → AggregateService → Type 0
Ready gomaxprocs o s =
    (s.n_store.bucket_name ≢ [])
    × (s.concordances.address ≢ [])
    × ((max_workers gomaxprocs o ≡ 0)
        ⊎ ((s.concept_updates_sqs.queue_url ≢ [])
            × (s.concept_updates_sqs.listen_params.queue_url ≡ s.concept_updates_sqs.queue_url)
            × (s.kinesis.stream_name ≢ [])))

pub max_workers-read_only :
    (gomaxprocs : ℕ) (o : Options) → o.is_read_only ≡ true → max_workers gomaxprocs o ≡ 0
unfolding max_workers
max_workers-read_only gomaxprocs o h = rw h

module _ {R : Type 0} (w : World R) (setup : Setup) (o : Options) (s : AggregateService) where
  Wired-Ready : (gomaxprocs : ℕ) → Wired o s → Configured o → Ready gomaxprocs o s
  Wired-Ready gomaxprocs (b, _, c, _, _, _, _, _, made) (h, (_, (k, mode))) = (
    λ e. h (sym b ∙ e),
    λ e. k (sym c ∙ e),
    elim mode [
      | inl r ↦ inl (max_workers-read_only gomaxprocs o r)
      | inr (q, (_, t)) ↦ elim made [
        | inl r ↦ inl (max_workers-read_only gomaxprocs o r)
        | inr ((u, v, _, _, _), (_, x)) ↦ inr (λ e. q (sym u ∙ e), v ∙ sym u, λ e. t (sym x ∙ e))
      ]
    ],
  )

  -- A process that gets past app.Before and makes its service has a bucket and a concordances
  -- address that are not empty, and runs no worker unless its queue and its stream are not
  -- empty; its workers read from the queue that they delete from.
  before-Ready :
      (gomaxprocs : ℕ) (log : Log)
      → before o ≡ none
      → (action w setup o log).0 ≡ ok s
      → Ready gomaxprocs o s
  before-Ready gomaxprocs log h e =
      Wired-Ready gomaxprocs (Outcome-ok (action-Outcome w setup o log) e)
        ((before-Configured o).0 h)
