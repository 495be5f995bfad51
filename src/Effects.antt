-- ===== src/Effects.antt =====
-- What the service's functions have in common: results that may be errors or panics, and the log
-- of the calls that they make to other systems.
-- A Go error stands for its text, `err.Error()`. The log has the latest call first.
pub mod Gives
use aggregate_concept_transf.Common.{
  ℕ, List, ◌∷◌, ◌≡◌, ◌≢◌, ◌⊎◌, inl, inr, refl, Option, none, some,
}
use aggregate_concept_transf.Text.{Str}

-- A returned value, a returned error, or a run-time panic.
pub data Res {ℓ} (A : Type ℓ) : Type ℓ where
  ok : A → Res A
  err : Str → Res A
  panic : Res A

-- net/http's Request, as far as the repository fills it in: its method, its URL, the query
-- parameters and the headers added to it, and its body.
pub record Request : Type 0 where
  pub method : Str
  pub url : Str
  pub query : List (Str × Str)
  pub headers : List (Str × Str)
  pub body : Str

-- A call that gives nothing but an error or nil.
unfoldable pub nil_or_error : Option Str → Res (Unit {0})
nil_or_error none = ok tt
nil_or_error (some e) = err e

-- One entry of an SNS batch: its Id and its Message.
pub record BatchEntry : Type 0 where
  pub id : Str
  pub message : Str

-- The calls that leave the process.
pub data Call : Type 0 where
  http : Request → Call
  s3_get s3_head : (bucket key : Str) → Call
  s3_head_bucket : (bucket : Str) → Call
  sqs_receive : (queue_url : Str) → (max_number_of_messages : ℕ) → Call
  sqs_delete : (queue_url : Str) → (receipt_handle : Option Str) → Call
  sqs_attributes : (queue_url : Str) → Call
  sns_publish_batch : (topic_arn : Str) → List BatchEntry → Call
  kinesis_put : (stream_name partition_key data_bytes : Str) → Call
  kinesis_describe : (stream_name : Str) → Call

abbrev pub Log : Type 0
Log = List Call

-- A function that may make calls: from the log so far to its result and the log after it.
abbrev pub M {ℓ} : Type ℓ → Type ℓ
M A = Log → Res A × Log

-- What follows a step that has ended with a result.
abbrev pub continue {ℓ κ} : {A : Type ℓ} {B : Type κ} → Res A → (A → M B) → M B
continue (ok a) f log = f a log
continue (err e) f log = (err e, log)
continue panic f log = (panic, log)

infixl 5 ◌>>=◌ ◌>>◌
abbrev pub ◌>>=◌ {ℓ κ} : {A : Type ℓ} {B : Type κ} → M A → (A → M B) → M B
◌>>=◌ m f log = continue (m log).0 f (m log).1

abbrev pub ◌>>◌ {ℓ} : {B : Type ℓ} → M (Unit {0}) → M B → M B
m >> k = m >>= λ _. k

-- return a, nil
abbrev pub return {ℓ} : {A : Type ℓ} → A → M A
return a log = (ok a, log)

-- return err
abbrev pub fail {ℓ} : {A : Type ℓ} → Str → M A
fail e log = (err e, log)

-- A result that was computed without a call.
abbrev pub lift {ℓ} : {A : Type ℓ} → Res A → M A
lift r log = (r, log)

-- A call that is logged, and the reply that the world gives after the log so far.
abbrev pub perform : {A : Type 0} → Call → (Log → A) → M A
perform call reply log = (ok (reply log), call ∷ log)

-- The pure chain of fallible steps.
abbrev pub bind {ℓ κ} : {A : Type ℓ} {B : Type κ} → Res A → (A → Res B) → Res B
bind (ok a) f = f a
bind (err e) f = err e
bind panic f = panic

pub Res-cases {ℓ} :
    {A : Type ℓ} (r : Res A) → ((a : A) × (r ≡ ok a)) ⊎ ((e : Str) × (r ≡ err e)) ⊎ (r ≡ panic)
Res-cases (ok a) = inl (a, refl)
Res-cases (err e) = inr (inl (e, refl))
Res-cases panic = inr (inr refl)

pub ok-injective {ℓ} : {A : Type ℓ} {a b : A} → ok a ≡ ok b → a ≡ b
ok-injective h = cc

continue-ok {ℓ κ} :
    {A : Type ℓ} {B : Type κ} (r : Res A) (f : A → M B) (log : Log) {b : B}
    → (continue r f log).0 ≡ ok b
    → (a : A) × (r ≡ ok a) × ((f a log).0 ≡ ok b) × (continue r f log ≡ f a log)
continue-ok (ok a) f log h = (a, refl, h, refl)
continue-ok (err e) f log h = cc
continue-ok panic f log h = cc

-- Inversion of two steps that succeed together.
pub >>=-ok {ℓ κ} :
    {A : Type ℓ} {B : Type κ} (m : M A) (f : A → M B) (log : Log) {b : B}
    → ((m >>= f) log).0 ≡ ok b
    → (a : A) × ((m log).0 ≡ ok a) × ((f a (m log).1).0 ≡ ok b) × ((m >>= f) log ≡ f a (m log).1)
>>=-ok m f log h = continue-ok (m log).0 f (m log).1 h

continue-lift_log {ℓ κ} :
    {A : Type ℓ} {B : Type κ} (r : Res A) (f : A → Res B) (log : Log)
    → (continue r (λ a. lift (f a)) log).1 ≡ log
continue-lift_log (ok a) f log = refl
continue-lift_log (err e) f log = refl
continue-lift_log panic f log = refl

-- A step that makes no call leaves the log of the step before it.
pub >>=-lift_log {ℓ κ} :
    {A : Type ℓ} {B : Type κ} (m : M A) (f : A → Res B) (log : Log)
    → ((m >>= λ a. lift (f a)) log).1 ≡ (m log).1
>>=-lift_log m f log = continue-lift_log (m log).0 f (m log).1

-- Inversion of a pure chain that succeeds.
pub bind-ok {ℓ κ} :
    {A : Type ℓ} {B : Type κ} (r : Res A) (f : A → Res B) {b : B}
    → bind r f ≡ ok b
    → (a : A) × (r ≡ ok a) × (f a ≡ ok b)
bind-ok (ok a) f h = (a, refl, h)
bind-ok (err e) f h = cc
bind-ok panic f h = cc

-- The result is no error: it is a value or a panic.
abbrev pub NoError {ℓ} : {A : Type ℓ} → Res A → Type ℓ
NoError r = (e : Str) → r ≢ err e

pub bind-NoError {ℓ κ} :
    {A : Type ℓ} {B : Type κ} (r : Res A) (f : A → Res B)
    → NoError r
    → ((a : A) → NoError (f a))
    → NoError (bind r f)
bind-NoError (ok a) f h k = k a
bind-NoError (err e) f h k = absurd (h e refl)
bind-NoError panic f h k = λ e bad. cc

pub continue-NoError {ℓ κ} :
    {A : Type ℓ} {B : Type κ} (r : Res A) (f : A → M B) (log : Log)
    → NoError r
    → ((a : A) (log' : Log) → NoError (f a log').0)
    → NoError (continue r f log).0
continue-NoError (ok a) f log h k = k a log
continue-NoError (err e) f log h k = absurd (h e refl)
continue-NoError panic f log h k = λ e bad. cc
