-- ===== src/Main/Start.antt =====
-- How the clients are made at the start of the process: what each NewClient makes, and how it fails.
pub mod Action
pub mod Works
pub mod Ready
use aggregate_concept_transf.Common.{
  ℕ, List, [], ◌∷◌, ◌++◌, Bool, true, false, Option, none, some, ◌≡◌, ◌≢◌, refl, ◌⊎◌, inl, inr,
  Elem, if◌then◌else◌, Option-cases,
}
use aggregate_concept_transf.Text.{Str, codes}
use aggregate_concept_transf.Effects.{
  Res, ok, err, panic, Call, Log, M, ◌>>=◌, continue, return, lift, perform, nil_or_error,
  Res-cases, bind,
}
use aggregate_concept_transf.World.{Setup, World}
use aggregate_concept_transf.Session.{provider, session_and_credentials}
use aggregate_concept_transf.S3
use aggregate_concept_transf.Sqs
use aggregate_concept_transf.Sqs.{NotificationClient}
use aggregate_concept_transf.Sns
use aggregate_concept_transf.Kinesis
use aggregate_concept_transf.Kinesis.{must}
use aggregate_concept_transf.Kinesis.{KinesisClient}
use aggregate_concept_transf.Concordances
use aggregate_concept_transf.Concordances.{RwClient}
use aggregate_concept_transf.Concept.Service.{AggregateService, new_service}
use aggregate_concept_transf.Main.{
  Options, Writers, no_writers, or_fatal, or_fatal_m, new_writers, action,
}

-- What is true of the value, of the error and of the panic that a result may be.
pub data Outcome {A : Type 0} (P : A → Type 0) (E : Str → Type 0) (F : Type 0)
    : Res A → Type 0 where
  returns : {a : A} → P a → Outcome P E F (ok a)
  fails : {e : Str} → E e → Outcome P E F (err e)
  panics : F → Outcome P E F panic

module _ {A B : Type 0} {P : A → Type 0} {Q : B → Type 0} {E : Str → Type 0} {F : Type 0} where
  pub continue-Outcome :
      (r : Res A) (f : A → M B) (log : Log)
      → Outcome P E F r
      → ((a : A) → P a → Outcome Q E F (f a log).0)
      → Outcome Q E F (continue r f log).0
  continue-Outcome (ok a) f log (returns h) k = k a h
  continue-Outcome (err e) f log (fails h) k = fails h
  continue-Outcome panic f log (panics h) k = panics h

  bind-Outcome :
      (r : Res A) (f : A → Res B)
      → Outcome P E F r
      → ((a : A) → P a → Outcome Q E F (f a))
      → Outcome Q E F (bind r f)
  bind-Outcome (ok a) f (returns h) k = k a h
  bind-Outcome (err e) f (fails h) k = fails h
  bind-Outcome panic f (panics h) k = panics h

abbrev pub Any : {A : Type 0} → A → Type 0
Any a = Unit {0}

pub or_fatal-Outcome :
    {A : Type 0} {P : A → Type 0} {E : Str → Type 0} {F : Type 0} (message : Str) (r : Res A)
    → Outcome P Any F r
    → E message
    → Outcome P E F (or_fatal message r)
unfolding or_fatal
or_fatal-Outcome message (ok a) (returns h) i = returns h
or_fatal-Outcome message (err e) (fails h) i = fails i
or_fatal-Outcome message panic (panics h) i = panics h

-- The ways in which the SDK makes the process panic: on its own, or by session.Must on the error of
-- the default session.
abbrev pub Broken : Setup → Type 0
Broken setup =
    ((region : Option Str) × (setup.credentials region ≡ panic))
    ⊎ ((topic_arn : Str) × (setup.arn_region topic_arn ≡ panic))
    ⊎ ((e : Str) × (setup.new_session none ≡ some e))

nil_or_error-Outcome : {F : Type 0} (reply : Option Str) → Outcome Any Any F (nil_or_error reply)
unfolding nil_or_error
nil_or_error-Outcome none = returns tt
nil_or_error-Outcome (some e) = fails tt

-- What the options of the queue make of its client.
abbrev pub Listens : Options → NotificationClient → Type 0
Listens o c =
    (c.queue_url ≡ o.concept_updates_queue_url)
    × (c.listen_params.queue_url ≡ o.concept_updates_queue_url)
    × (c.listen_params.max_number_of_messages ≡ o.messages_to_process)
    × (c.listen_params.visibility_timeout ≡ o.visibility_timeout)
    × (c.listen_params.wait_time_seconds ≡ o.wait_time)

module _ (setup : Setup) where
  provider-Outcome :
      (region : Option Str) (client_name : Str)
      → Outcome Any Any (Broken setup) (provider setup region client_name)
  unfolding provider
  provider-Outcome region client_name = elim (Res-cases (setup.credentials region)) [
    | inl (a, h) ↦ rw (provider, h) (returns tt)
    | inr (inl (e, h)) ↦ rw (provider, h) (fails tt)
    | inr (inr h) ↦ rw (provider, h) (panics (inl (region, h)))
  ]

  session-Outcome :
      (region : Option Str) (client_name : Str)
      → Outcome Any Any (Broken setup) (session_and_credentials setup region client_name)
  unfolding session_and_credentials
  session-Outcome region client_name =
      bind-Outcome _ _ (nil_or_error-Outcome (setup.new_session region))
        λ _ _. provider-Outcome region client_name

  pub S3_new_client-Outcome :
      (bucket_name aws_region : Str)
      → Outcome
          (λ c. c.bucket_name ≡ bucket_name)
          Any
          (Broken setup)
          (S3.new_client setup bucket_name aws_region)
  unfolding S3.new_client
  S3_new_client-Outcome bucket_name aws_region =
      bind-Outcome _ _ (session-Outcome (some aws_region) _) λ _ _. returns refl

  pub Concordances_new_client-Outcome :
      (address : Str)
      → Outcome
          (λ c. c.address ≡ address)
          Any
          (Broken setup)
          (Concordances.new_client setup address)
  unfolding Concordances.new_client
  Concordances_new_client-Outcome address = elim (Option-cases (setup.parse_url address)) [
    | inl h ↦ rw (Concordances.new_client, h) (returns refl)
    | inr (e, h) ↦ rw (Concordances.new_client, h) (fails tt)
  ]

  pub Sns_new_client-Outcome :
      (topic_arn : Str)
      → Outcome (λ c. c.topic_arn ≡ topic_arn) Any (Broken setup) (Sns.new_client setup topic_arn)
  unfolding Sns.new_client
  Sns_new_client-Outcome topic_arn = elim (Res-cases (setup.arn_region topic_arn)) [
    | inl (region, h) ↦ elim (Option-cases (setup.new_session (some region))) [
      | inl k ↦ rw (Sns.new_client, h) (rw (Sns.new_client, k) (returns refl))
      | inr (e, k) ↦ rw (Sns.new_client, h) (rw (Sns.new_client, k) (fails tt))
    ]
    | inr (inl (e, h)) ↦ rw (Sns.new_client, h) (fails tt)
    | inr (inr h) ↦ rw (Sns.new_client, h) (panics (inr (inl (topic_arn, h))))
  ]

  pub Sqs_new_client-Outcome :
      (o : Options)
      → Outcome (Listens o) Any (Broken setup) (
          Sqs.new_client setup o.sqs_region o.concept_updates_queue_url o.sqs_endpoint
            o.messages_to_process o.visibility_timeout o.wait_time)
  unfolding Sqs.new_client
  Sqs_new_client-Outcome o =
      bind-Outcome _ _ (session-Outcome (some o.sqs_region) _)
        λ _ _. returns (refl, refl, refl, refl, refl)

  must-Outcome :
      (reply : Option Str)
      → setup.new_session none ≡ reply
      → Outcome Any Any (Broken setup) (must reply)
  unfolding must
  must-Outcome none h = returns tt
  must-Outcome (some e) h = panics (inr (inr (e, h)))

  pub Kinesis_new_client-Outcome :
      {R : Type 0} (w : World R) (stream_name region arn : Str) (log : Log)
      → Outcome
          (λ c. c.stream_name ≡ stream_name)
          Any
          (Broken setup)
          (Kinesis.new_client w setup stream_name region arn log).0
  unfolding Kinesis.new_client
  Kinesis_new_client-Outcome w stream_name region arn log =
      continue-Outcome _ _ log (must-Outcome (setup.new_session none) refl) λ _ _.
        continue-Outcome _ _ log (provider-Outcome none _) λ _ _.
          continue-Outcome (nil_or_error (w.kinesis_describe_error log stream_name))
            (λ _. return (record { stream_name = stream_name }))
            (Call.kinesis_describe stream_name ∷ log) (nil_or_error-Outcome _) λ _ _. returns refl
