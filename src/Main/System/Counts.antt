-- ===== src/Main/System/Counts.antt =====
-- The workers of the service counted by their places (main.go, concept/service.go).
use aggregate_concept_transf.Common.{
  ℕ, zero, suc, ◌+◌, List, [], ◌∷◌, ◌++◌, length, length-append, ◌≡◌, refl, arith,
}
use aggregate_concept_transf.Main.System.{
  WorkerPlace, polling, checked, receiving, batch, returned, finished, replicate,
}

-- The sum of a weight over the workers.
abbrev pub total : (WorkerPlace → ℕ) → List WorkerPlace → ℕ
total weight [] = 0
total weight (p ∷ workers) = weight p + total weight workers

pub total-at :
    (weight : WorkerPlace → ℕ) (before after : List WorkerPlace) (p : WorkerPlace)
    → total weight (before ++ p ∷ after) ≡ weight p + total weight (before ++ after)
total-at weight [] after p = refl
total-at weight (q ∷ before) after p = omega (arith, total-at weight before after p)

-- The workers that have not called Done.
abbrev pub active : WorkerPlace → ℕ
active finished = 0
active polling = 1
active checked = 1
active receiving = 1
active (batch left) = 1
active returned = 1

-- The workers that have left their loop.
abbrev pub stopped : WorkerPlace → ℕ
stopped finished = 1
stopped returned = 1
stopped polling = 0
stopped checked = 0
stopped receiving = 0
stopped (batch left) = 0

pub total-replicate :
    (weight : WorkerPlace → ℕ) (n : ℕ) → weight polling ≡ 0 → total weight (replicate n polling) ≡ 0
total-replicate weight zero h = refl
total-replicate weight (suc n) h = omega (arith, total-replicate weight n h)

pub total-replicate_one :
    (weight : WorkerPlace → ℕ) (n : ℕ) → weight polling ≡ 1 → total weight (replicate n polling) ≡ n
total-replicate_one weight zero h = refl
total-replicate_one weight (suc n) h = omega (arith, total-replicate_one weight n h)

pub length-replicate : (n : ℕ) → length (replicate n polling) ≡ n
length-replicate zero = refl
length-replicate (suc n) = omega (arith, length-replicate n)

pub length-at :
    (before after : List WorkerPlace) (p p' : WorkerPlace)
    → length (before ++ p ∷ after) ≡ length (before ++ p' ∷ after)
length-at before after p p' =
    omega (arith, length-append before (p ∷ after), length-append before (p' ∷ after))
