-- ===== src/Session.antt =====
-- What NewClient of s3/client.go, sqs/client.go and kinesis/client.go have in common: a session of
-- the AWS SDK, and a look at the provider of its credentials.
use aggregate_concept_transf.Common.{◌++◌, Option}
use aggregate_concept_transf.Text.{Str, codes}
use aggregate_concept_transf.Effects
use aggregate_concept_transf.Effects.{Res, ok, err, panic, nil_or_error}
use aggregate_concept_transf.World.{Setup}

-- The provider of the credentials; the repository wraps the error with the client's name.
unfoldable pub provider : Setup → (region : Option Str) → (client_name : Str) → Res Str
provider setup region client_name = elim (setup.credentials region) [
  | ok name ↦ ok name
  | err e ↦ err (
      codes "failed to obtain AWS credentials for values with error: "
      ++ (e ++ (codes ", while creating " ++ client_name)))
  | panic ↦ panic
]

unfoldable pub session_and_credentials :
    Setup → (region : Option Str) → (client_name : Str) → Res Str
unfolding provider nil_or_error
session_and_credentials setup region client_name =
    Effects.bind (nil_or_error (setup.new_session region)) λ _. provider setup region client_name
