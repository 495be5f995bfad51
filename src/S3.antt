-- ===== src/S3.antt =====
-- Package s3 (s3/client.go): reading normalised concepts from a bucket.
pub mod Keys
use aggregate_concept_transf.Common.{
  [], ◌++◌, ◌∷◌, Bool, true, false, Option, none, some, if◌then◌else◌,
}
use aggregate_concept_transf.Text.{Str, codes, str_eq, is_empty, replace_byte}
use aggregate_concept_transf.Effects.{
  Res, ok, err, panic, Call, M, ◌>>=◌, return, fail, lift, perform,
}
use aggregate_concept_transf.Effects
use aggregate_concept_transf.Session.{session_and_credentials}
use aggregate_concept_transf.World.{
  Setup, SourceConcept, S3Reply, aws_error, other_error, object, HeadReply, head_error, metadata,
  World,
}

pub record Client : Type 0 where
  pub bucket_name : Str

-- getKey: the UUID with slashes for dashes
unfoldable pub get_key : Str → Str
get_key uuid = replace_byte b'-' b'/' uuid

unfoldable pub object_key : (publication uuid : Str) → Str
unfolding get_key is_empty
object_key publication uuid =
    if is_empty publication then get_key uuid else publication ++ b'/' ∷ get_key uuid

-- NewClient
unfoldable pub new_client : Setup → (bucket_name aws_region : Str) → Res Client
unfolding session_and_credentials
new_client setup bucket_name aws_region =
    Effects.bind (session_and_credentials setup (some aws_region) (codes "s3 client"))
      λ _. ok (record { bucket_name = bucket_name })

module _ {R : Type 0} (w : World R) where
  -- ontology.SourceConcept{}
  abbrev pub empty_source : SourceConcept R
  empty_source = record {
    uuid = [];
    concept_type = [];
    authority = [];
    authority_value = [];
    rest = w.no_rest;
  }

  -- return true, concept, *tid, nil
  with_transaction_id : Option Str → SourceConcept R → Res (Bool × SourceConcept R × Str)
  with_transaction_id none concept = panic
  with_transaction_id (some tid) concept = ok (true, concept, tid)

  read_object : HeadReply → Res Str → Res (Bool × SourceConcept R × Str)
  unfolding with_transaction_id
  read_object (head_error e) body = err e
  read_object (metadata tid) body = elim (w.decode_source_concept body) [
    | ok concept ↦ with_transaction_id tid concept
    | err e ↦ err e
    | panic ↦ panic
  ]

  unfoldable pub by_reply : (bucket key : Str) → S3Reply → M (Bool × SourceConcept R × Str)
  unfolding read_object
  by_reply bucket key (aws_error code text) =
      if str_eq code (codes "NoSuchKey") then return (false, empty_source, []) else fail text
  by_reply bucket key (other_error text) = fail text
  by_reply bucket key (object body) = do
    head ← perform (Call.s3_head bucket key) (λ log. w.s3_head_object log bucket key)
    lift (read_object head body)

  -- (*Client).GetConceptAndTransactionID: whether the concept was found, it, and the transaction
  unfoldable pub get_concept_and_transaction_id :
      Client → (publication uuid : Str) → M (Bool × SourceConcept R × Str)
  unfolding by_reply object_key
  get_concept_and_transaction_id c publication uuid = do
    let key = object_key publication uuid
    reply ← perform (Call.s3_get c.bucket_name key) (λ log. w.s3_get_object log c.bucket_name key)
    by_reply c.bucket_name key reply
