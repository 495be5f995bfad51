-- ===== src/Concept/Changes.antt =====
-- The calls that may change another system, and what keeps a log free of them.
use aggregate_concept_transf.Common.{
  [], ◌∷◌, ◌++◌, Bool, true, false, if◌then◌else◌, All, ◌≡◌, refl, ap, ◌∙◌,
}
use aggregate_concept_transf.Text.{codes, str_eq}
use aggregate_concept_transf.Effects.{Call, Log, M}
use aggregate_concept_transf.Concept.Gather.Calls.{IsRead, OnlyReads}

-- A call that may change another system, or takes messages from the queue.
abbrev pub changes : Call → Bool
changes (Call.http req) = if str_eq req.method (codes "GET") then false else true
changes (Call.s3_get bucket key) = false
changes (Call.s3_head bucket key) = false
changes (Call.s3_head_bucket bucket) = false
changes (Call.sqs_receive url max_number) = true
changes (Call.sqs_delete url handle) = true
changes (Call.sqs_attributes url) = false
changes (Call.sns_publish_batch topic entries) = true
changes (Call.kinesis_put stream key bytes) = true
changes (Call.kinesis_describe stream) = false

abbrev keep_change : Bool → Call → Log → Log
keep_change true call log = call ∷ log
keep_change false call log = log

-- The calls of a log that may have changed another system.
abbrev pub writes : Log → Log
writes [] = []
writes (call ∷ log) = keep_change (changes call) call (writes log)

-- A handler at a request, and a function that makes calls, keep what is true of the log.
abbrev pub Keeps : {A : Type 0} → (Log → Type 0) → M A → Type 0
Keeps P m = (log : Log) → P log → P (m log).1

changes-IsRead : (call : Call) → IsRead call → changes call ≡ false
unfolding str_eq
changes-IsRead (Call.http req) h = rw h refl
changes-IsRead (Call.s3_get bucket key) h = refl
changes-IsRead (Call.s3_head bucket key) h = refl
changes-IsRead (Call.s3_head_bucket bucket) h = refl
changes-IsRead (Call.sqs_receive url max_number) h = absurd h
changes-IsRead (Call.sqs_delete url handle) h = absurd h
changes-IsRead (Call.sqs_attributes url) h = refl
changes-IsRead (Call.sns_publish_batch topic entries) h = absurd h
changes-IsRead (Call.kinesis_put stream key bytes) h = absurd h
changes-IsRead (Call.kinesis_describe stream) h = refl

writes-append : (calls log : Log) → All IsRead calls → writes (calls ++ log) ≡ writes log
writes-append [] log h = refl
writes-append (call ∷ calls) log (h, hs) = rw (changes-IsRead call h) (writes-append calls log hs)

pub writes-OnlyReads : (log log' : Log) → OnlyReads log log' → writes log' ≡ writes log
writes-OnlyReads log log' (calls, h, e) = ap writes e ∙ writes-append calls log h
