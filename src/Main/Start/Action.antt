-- ===== src/Main/Start/Action.antt =====
-- How app.Action of main.go puts the service together: what it makes, how it fails, what it calls.
use aggregate_concept_transf.Common.{
  List, [], ◌∷◌, Bool, true, false, ◌≡◌, refl, ◌⊎◌, inl, inr, Elem, if◌then◌else◌,
}
use aggregate_concept_transf.Text.{Str, codes}
use aggregate_concept_transf.Effects.{Res, Log, M, return}
use aggregate_concept_transf.World.{Setup, World}
use aggregate_concept_transf.Sqs.{NotificationClient}
use aggregate_concept_transf.Sns
use aggregate_concept_transf.Kinesis
use aggregate_concept_transf.Kinesis.{KinesisClient}
use aggregate_concept_transf.Concept.Service.{AggregateService}
use aggregate_concept_transf.Main.{Options, Writers, no_writers, or_fatal_m, new_writers, action}
use aggregate_concept_transf.Main.Start.{
  Outcome, returns, fails, panics, Broken, continue-Outcome, or_fatal-Outcome, Listens,
  S3_new_client-Outcome, Sqs_new_client-Outcome, Sns_new_client-Outcome,
  Concordances_new_client-Outcome, Kinesis_new_client-Outcome,
}

weaken :
    {A : Type 0} {P Q : A → Type 0} {E : Str → Type 0} {F : Type 0} {r : Res A}
    → Outcome P E F r
    → ((a : A) → P a → Q a)
    → Outcome Q E F r
weaken (returns h) k = returns (k _ h)
weaken (fails h) k = fails h
weaken (panics h) k = panics h

-- The messages of the fatal errors of the queue, the topic and the stream.
abbrev writer_messages : List Str
writer_messages =
    codes "Error creating concept updates SQS client"
    ∷ codes "Error creating concept events SNS client"
    ∷ codes "Error creating Kinesis client"
    ∷ []

abbrev pub messages : Bool → List Str
messages read_only =
    codes "Error creating S3 client for concept-normalised-store"
    ∷ codes "Error creating S3 client for external-concept-normalised-store"
    ∷ codes "Error creating Concordances client"
    ∷ (if read_only then [] else writer_messages)

-- What the options of a process that writes make of the clients it writes with.
abbrev Writes : Options → NotificationClient → Sns.Client → KinesisClient → Type 0
Writes o sqs sns kinesis =
    Listens o sqs
    × ((sns.topic_arn ≡ o.concept_updates_sns_topic_arn)
        × (kinesis.stream_name ≡ o.kinesis_stream_name))

-- Every field of the service is the option that is meant for it.
abbrev pub Wired : Options → AggregateService → Type 0
Wired o s =
    (s.n_store.bucket_name ≡ o.bucket_name)
    × (s.external_normalised_store.bucket_name ≡ o.external_bucket_name)
    × (s.concordances.address ≡ o.concordances_reader_address)
    × (s.neo_writer_address ≡ o.neo_writer_address)
    × (s.elasticsearch_writer_address ≡ o.elasticsearch_writer_address)
    × (s.varnish_purger_address ≡ o.varnish_purger_address)
    × (s.types_to_purge_from_public_endpoints ≡ o.types_to_purge_from_public_endpoints)
    × (s.read_only ≡ o.is_read_only)
    × ((o.is_read_only ≡ true) ⊎ Writes o s.concept_updates_sqs s.events_sns s.kinesis)

module _ {R : Type 0} (w : World R) (setup : Setup) (o : Options) where
  abbrev Made : Writers → Type 0
  Made c = Writes o c.concept_updates_sqs_client c.events_sns c.kinesis_client

  abbrev stream : M KinesisClient
  stream =
      or_fatal_m (codes "Error creating Kinesis client")
        (Kinesis.new_client w setup o.kinesis_stream_name o.kinesis_region o.cross_account_role_arn)

  stream-Outcome :
      (E : Str → Type 0) (log : Log)
      → E (codes "Error creating Kinesis client")
      → Outcome (λ c. c.stream_name ≡ o.kinesis_stream_name) E (Broken setup) (stream log).0
  unfolding or_fatal_m
  stream-Outcome E log i =
      or_fatal-Outcome _ _
        (Kinesis_new_client-Outcome setup w o.kinesis_stream_name o.kinesis_region
          o.cross_account_role_arn log)
        i

  new_writers-Outcome :
      (E : Str → Type 0) (log : Log)
      → ((e : Str) → Elem e writer_messages → E e)
      → Outcome Made E (Broken setup) (new_writers w setup o log).0
  unfolding new_writers
  new_writers-Outcome E log i =
      continue-Outcome _ _ log
        (or_fatal-Outcome _ _ (Sqs_new_client-Outcome setup o) (i _ (inl refl)))
        λ sqs a.
          continue-Outcome _ _ log
            (or_fatal-Outcome _ _ (Sns_new_client-Outcome setup _) (i _ (inr (inl refl))))
            λ sns b.
              continue-Outcome (stream log).0
                (λ kinesis. return (record {
                  concept_updates_sqs_client = sqs;
                  events_sns = sns;
                  kinesis_client = kinesis;
                }))
                (stream log).1 (stream-Outcome E log (i _ (inr (inr (inl refl)))))
                λ kinesis c. returns (a, (b, c))

  writers-Outcome :
      (read_only : Bool) (log : Log)
      → Outcome
          (λ c. (read_only ≡ true) ⊎ Made c)
          (λ e. Elem e (messages read_only))
          (Broken setup)
          ((if read_only then return no_writers else new_writers w setup o) log).0
  writers-Outcome true log = returns (inl refl)
  writers-Outcome false log =
      weaken (new_writers-Outcome _ log (λ e h. inr (inr (inr h)))) (λ c h. inr h)

  -- Whatever the SDK answers, app.Action makes a service every field of which is the option
  -- meant for it, or it ends with one of the fatal messages (in read-only mode with one of the
  -- first three only), or the SDK panics or refuses its default session.
  pub action-Outcome :
      (log : Log)
      → Outcome
          (Wired o)
          (λ e. Elem e (messages o.is_read_only))
          (Broken setup)
          (action w setup o log).0
  unfolding action
  action-Outcome log =
      continue-Outcome _ _ log (or_fatal-Outcome _ _ (S3_new_client-Outcome setup _ _) (inl refl))
        λ s3 a.
          continue-Outcome _ _ log
            (or_fatal-Outcome _ _ (S3_new_client-Outcome setup _ _) (inr (inl refl)))
            λ external b.
              continue-Outcome _ _ log
                (or_fatal-Outcome _ _ (Concordances_new_client-Outcome setup _)
                  (inr (inr (inl refl))))
                λ concordances c.
                  continue-Outcome _ _ _ (writers-Outcome o.is_read_only log)
                    λ writers d. returns (a, b, c, refl, refl, refl, refl, refl, d)
