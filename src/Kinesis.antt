-- ===== src/Kinesis.antt =====
-- Package kinesis (kinesis/client.go): the notification stream.
use aggregate_concept_transf.Common.{Option, none, some}
use aggregate_concept_transf.Text.{Str, codes}
use aggregate_concept_transf.Effects.{
  nil_or_error, Res, ok, panic, Call, M, ◌>>=◌, return, lift, perform,
}
use aggregate_concept_transf.Session.{provider}
use aggregate_concept_transf.World.{Setup, World}

pub record KinesisClient : Type 0 where
  pub stream_name : Str

-- session.Must
unfoldable pub must : Option Str → Res (Unit {0})
must none = ok tt
must (some e) = panic

-- NewClient. The region and the role are those of the SDK's client, which is the world's; the
-- credentials that are looked at are those of the default session.
unfoldable pub new_client :
    {R : Type 0} → World R → Setup → (stream_name region arn : Str) → M KinesisClient
unfolding must provider nil_or_error
new_client w setup stream_name region arn = do
  _ ← lift (must (setup.new_session none))
  _ ← lift (provider setup none (codes "kinesis client"))
  reply ←
      perform (Call.kinesis_describe stream_name) (λ log. w.kinesis_describe_error log stream_name)
  _ ← lift (nil_or_error reply)
  return (record { stream_name = stream_name })

module _ {R : Type 0} (w : World R) (c : KinesisClient) where
  -- (*KinesisClient).AddRecordToStream: the concept's type is the partition key
  unfoldable pub add_record_to_stream : (updated_concept concept_type : Str) → M (Unit {0})
  unfolding nil_or_error
  add_record_to_stream updated_concept concept_type = do
    reply ←
        perform (Call.kinesis_put c.stream_name concept_type updated_concept)
          (λ log. w.kinesis_put_record log concept_type updated_concept)
    lift (nil_or_error reply)
