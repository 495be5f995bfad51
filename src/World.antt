-- ===== src/World.antt =====
-- The world around the service: the shapes of the data that it exchanges, and one record of
-- everything that is not in the repository. That record, `World`, is a parameter of the
-- definitions: cm-graph-ontology (CreateCanonicalConcept), encoding/json at the types of the
-- repository, net/http's parsing of a URL, the replies of the other systems, the order in which
-- Go walks a map, and which arm of a select with a deadline is taken.
-- `R` stands for content that the repository carries and never looks into: the other fields of a
-- concept and the details of an event.
use aggregate_concept_transf.Common.{ℕ, List, Option}
use aggregate_concept_transf.Text.{Str}
use aggregate_concept_transf.Effects.{Res, Log, Request, BatchEntry}

-- ontology.SourceConcept: the fields that the repository reads or writes, and the rest.
pub record SourceConcept (R : Type 0) : Type 0 where
  pub uuid : Str
  pub concept_type : Str
  pub authority : Str
  pub authority_value : Str
  pub rest : R

-- An element of a canonical concept's Relationships.
pub record Relationship : Type 0 where
  pub label : Str
  pub uuid : Str

-- ontology.CanonicalConcept, in the same way.
pub record CanonicalConcept (R : Type 0) : Type 0 where
  pub pref_uuid : Str
  pub concept_type : Str
  pub issued_by : Str
  pub source_representations : List (SourceConcept R)
  pub relationships : List Relationship
  pub rest : R

-- concordances/model.go
pub record ConcordanceRecord : Type 0 where
  pub uuid : Str
  pub authority : Str
  pub authority_value : Str

-- sns/model.go
pub record Event (R : Type 0) : Type 0 where
  pub concept_type : Str
  pub concept_uuid : Str
  pub aggregate_hash : Str
  pub transaction_id : Str
  pub event_details : R

-- sns/model.go
pub record ConceptChanges (R : Type 0) : Type 0 where
  pub changed_records : List (Event R)
  pub updated_ids : List Str

-- sqs/model.go: a decoded Record, with the key of S3.Object and the bookmark.
pub record NotificationRecord : Type 0 where
  pub key : Str
  pub bookmark : Str

-- An SQS message: the SDK's pointers may be nil.
pub record SqsMessage : Type 0 where
  pub receipt_handle : Option Str
  pub body : Option Str

-- What an HTTP call gives: an error, or a status and a body, which may fail when it is read.
pub data HttpReply : Type 0 where
  failed : Str → HttpReply
  response : (status : ℕ) → (body : Res Str) → HttpReply

-- What an S3 GetObject gives: an AWS error with its code and text, another error, or an object.
pub data S3Reply : Type 0 where
  aws_error : (code text : Str) → S3Reply
  other_error : Str → S3Reply
  object : (body : Res Str) → S3Reply

-- What an S3 HeadObject gives: an error, or the value of the metadata key Transaction_id.
pub data HeadReply : Type 0 where
  head_error : Str → HeadReply
  metadata : (transaction_id : Option Str) → HeadReply

-- One failed entry of an SNS batch: its Id and its Code.
pub record FailedEntry : Type 0 where
  pub id : Str
  pub code : Str

pub data PublishReply : Type 0 where
  publish_error : Str → PublishReply
  published : (failed_entries : List FailedEntry) → PublishReply

-- What a call of DeleteMessageWithContext comes to: no request is sent, with the error, or the
-- request is sent, with the error that it ends in, if any.
pub data DeleteReply : Type 0 where
  not_sent : Str → DeleteReply
  sent : (error : Option Str) → DeleteReply

pub record World (R : Type 0) : Type 0 where
  -- cm-graph-ontology: aggregate.CreateCanonicalConcept, and the zero value of the other fields.
  pub create_canonical_concept : SourceConcept R → List (SourceConcept R) → CanonicalConcept R
  pub no_rest : R
  -- fmt: the verb %q.
  pub quote : Str → Str
  -- encoding/json. A decoder reads a stream, which may fail; Unmarshal reads bytes.
  pub marshal_concept : CanonicalConcept R → Res Str
  pub decode_source_concept : Res Str → Res (SourceConcept R)
  pub decode_changes : Res Str → Res (ConceptChanges R)
  pub marshal_changes : ConceptChanges R → Res Str
  pub unmarshal_changes : Str → Res (ConceptChanges R)
  pub marshal_event : Event R → Res Str
  pub marshal_ids : List Str → Res Str
  pub unmarshal_concordances : Str → Res (List ConcordanceRecord)
  pub unmarshal_body : Str → Res Str
  -- Records is nil where the JSON has none.
  pub unmarshal_message : Str → Res (Option (List NotificationRecord))
  -- net/url: the text of a parsed address whose Path is extended by a path.
  pub extend_path : (address path : Str) → Str
  -- net/http: NewRequest on a method and a URL gives an error, or the query that the URL holds.
  pub new_request : (method url : Str) → Res (List (Str × Str))
  -- The other systems, which may answer differently after another log.
  pub http_do : Log → Request → HttpReply
  pub s3_get_object : Log → (bucket key : Str) → S3Reply
  pub s3_head_object : Log → (bucket key : Str) → HeadReply
  pub sqs_receive_message : Log → (queue_url : Str) → (max_number_of_messages : ℕ) → List SqsMessage
  -- with the error of the context, if it has ended
  pub sqs_delete_message :
      Log → (ctx_err : Option Str) → (receipt_handle : Option Str) → DeleteReply
  pub sns_publish : Log → List BatchEntry → PublishReply
  pub kinesis_put_record : Log → (partition_key data_bytes : Str) → Option Str
  pub s3_head_bucket_error : Log → (bucket : Str) → Option Str
  pub sqs_attributes_error : Log → (queue_url : Str) → Option Str
  pub kinesis_describe_error : Log → (stream_name : Str) → Option Str
  -- range over a map: the entries in some order.
  pub map_order : Log → List (Str × List ConcordanceRecord) → List (Str × List ConcordanceRecord)
  -- ctx.Err() of an update's context once ProcessMessage has ended: `some e` if its deadline has
  -- passed.
  pub expired : Log → Option Str
  -- select: `some e` if the arm of ctx.Done() is taken, with ctx.Err() = e.
  pub cancelled : Log → Option Str

-- The set-up of the clients, by the AWS SDK and net/url: an error of session.NewSession in a region
-- (or in the default one), the provider of the session's credentials, the region of an ARN, and the
-- error of url.Parse.
pub record Setup : Type 0 where
  pub new_session : (region : Option Str) → Option Str
  pub credentials : (region : Option Str) → Res Str
  pub arn_region : Str → Res Str
  pub parse_url : Str → Option Str
