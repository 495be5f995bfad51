-- ===== src/Effects/Gives.antt =====
-- Functions whose result does not depend on the calls made before: the steps of a run in a world
-- that does not change meanwhile.
use aggregate_concept_transf.Common.{◌≡◌, refl, sym, ap, ◌∙◌}
use aggregate_concept_transf.Effects.{
  Res, ok, err, panic, Call, Log, M, continue, ◌>>=◌, perform, bind,
}

-- The step gives `r` after every log.
abbrev pub Gives {ℓ} : {A : Type ℓ} → M A → Res A → Type ℓ
Gives m r = (log : Log) → (m log).0 ≡ r

continue-Gives {ℓ κ} :
    {A : Type ℓ} {B : Type κ} (r : Res A) (f : A → M B) (g : A → Res B)
    → ((a : A) → Gives (f a) (g a))
    → Gives (continue r f) (bind r g)
continue-Gives (ok a) f g h log = h a log
continue-Gives (err e) f g h log = refl
continue-Gives panic f g h log = refl

pub >>=-Gives {ℓ κ} :
    {A : Type ℓ} {B : Type κ} (m : M A) (f : A → M B) (r : Res A) (g : A → Res B)
    → Gives m r
    → ((a : A) → Gives (f a) (g a))
    → Gives (m >>= f) (bind r g)
>>=-Gives m f r g h k log =
    ap (λ s. (continue s f (m log).1).0) (h log) ∙ continue-Gives r f g k (m log).1

pub perform-Gives :
    {A : Type 0} (call : Call) (reply : Log → A) (a : A)
    → ((log : Log) → reply log ≡ a)
    → Gives (perform call reply) (ok a)
perform-Gives call reply a h log = ap (λ x. ok x) (h log)

-- Two steps run one after the other.
pub >>=-run {ℓ κ} :
    {A : Type ℓ} {B : Type κ} (m : M A) (f : A → M B) (log : Log) (a : A)
    → (m log).0 ≡ ok a
    → (m >>= f) log ≡ f a (m log).1
>>=-run m f log a h = ap (λ s. continue s f (m log).1) h

-- Any two runs of such a step have one result.
pub Gives-same {ℓ} : {A : Type ℓ} (m : M A) (r : Res A) (log : Log) → Gives m r → Gives m (m log).0
Gives-same m r log h log' = h log' ∙ sym (h log)
