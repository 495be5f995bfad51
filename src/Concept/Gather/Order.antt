-- ===== src/Concept/Gather/Order.antt =====
-- The order in which the buckets are walked does not change what is gathered (concept/service.go).
use mathlib.Core.List.{Perm, Perm-prop, Permᴰ, perm_middle, perm_append_comm}
use mathlib.Core.List.Perm
use mathlib.Core.Logic.{∥∥₁_elim}
use aggregate_concept_transf.Common.{
  List, [], ◌∷◌, ◌++◌, append_assoc, append-nil, if◌then◌else◌, ◌≡◌, refl, sym, ◌∙◌, inl, inr,
  Bool-cases,
}
use aggregate_concept_transf.Text.{Str, str_eq, str_eq_iff}
use aggregate_concept_transf.World.{ConcordanceRecord}
use aggregate_concept_transf.Concept.Buckets.{Buckets, add_record, fill_buckets}
use aggregate_concept_transf.Concept.Gather.Reads.{rev_onto, piece, unskipped}

-- The records of other authorities, in their order.
abbrev pub without_authority : Str → List ConcordanceRecord → List ConcordanceRecord
without_authority a [] = []
without_authority a (v ∷ records) =
    if str_eq v.authority a then without_authority a records else v ∷ without_authority a records

pub exchange {ℓ} : {A : Type ℓ} (xs ys zs : List A) → Perm (xs ++ (ys ++ zs)) (ys ++ (xs ++ zs))
exchange xs ys zs =
    rw (← append_assoc xs ys zs, ← append_assoc ys xs zs)
      (Perm.append_right zs (perm_append_comm xs ys))

-- A list put together from a piece of each element: in another order of the elements it has the same
-- content.
module _ {ℓ κ} {A : Type ℓ} {B : Type κ} (piece_of : A → List B) (join : List A → List B)
    (join-cons : (x : A) (xs : List A) → join (x ∷ xs) ≡ piece_of x ++ join xs) where
  joinᴰ : {xs ys : List A} → Permᴰ xs ys → Perm (join xs) (join ys)
  joinᴰ Permᴰ.nil = Perm.refl (join [])
  joinᴰ (Permᴰ.cons {b = b} e p) =
      rw (e, join-cons, join-cons) (Perm.append_left (piece_of b) (joinᴰ p))
  joinᴰ (Permᴰ.swap {a = a} {b = b} {l = l} e f) =
      rw (← e, ← f, join-cons a (b ∷ l), join-cons b l, join-cons b (a ∷ l), join-cons a l)
        (exchange (piece_of a) (piece_of b) (join l))
  joinᴰ (Permᴰ.trans p q) = Perm.trans (joinᴰ p) (joinᴰ q)

  pub join-perm : (xs ys : List A) → Perm xs ys → Perm (join xs) (join ys)
  join-perm xs ys p = ∥∥₁_elim p Perm-prop joinᴰ

-- The order of the buckets does not change which records are gathered.
pub unskipped-perm :
    (primary : Str) (b c : Buckets) → Perm b c → Perm (unskipped primary b) (unskipped primary c)
unskipped-perm primary = join-perm (piece primary) (unskipped primary) (λ bucket buckets. refl)

-- A record that joins its bucket is gathered wherever the bucket stands.
piece-join :
    (primary authority : Str) (v : ConcordanceRecord) (records rest : List ConcordanceRecord)
    → authority ≡ v.authority
    → Perm
        (piece primary (authority, records ++ v ∷ []) ++ rest)
        (piece primary (v.authority, v ∷ []) ++ (piece primary (authority, records) ++ rest))
piece-join primary authority v records rest same = elim (Bool-cases (str_eq authority primary)) [
  | inl e ↦ rw (← same, e) (Perm.refl rest)
  | inr e ↦ rw (← same, e, append_assoc) (perm_middle records rest)
]

unskipped-add_record :
    (primary : Str) (v : ConcordanceRecord) (buckets : Buckets)
    → Perm
        (unskipped primary (add_record v buckets))
        (piece primary (v.authority, v ∷ []) ++ unskipped primary buckets)
unfolding add_record
unskipped-add_record primary v [] = Perm.refl _
unskipped-add_record primary v ((authority, records) ∷ buckets) =
    elim (Bool-cases (str_eq authority v.authority)) [
      | inl e ↦ rw e (
          piece-join primary authority v records (unskipped primary buckets)
            ((str_eq_iff authority v.authority).0 e))
      | inr e ↦ rw e (
          Perm.trans
            (Perm.append_left (piece primary (authority, records))
              (unskipped-add_record primary v buckets))
            (exchange (piece primary (authority, records)) (piece primary (v.authority, v ∷ []))
              (unskipped primary buckets)))
    ]

join-record :
    (primary : Str) (v : ConcordanceRecord) (others rest : List ConcordanceRecord)
    → Perm
        (others ++ (piece primary (v.authority, v ∷ []) ++ rest))
        ((if str_eq v.authority primary then others else v ∷ others) ++ rest)
join-record primary v others rest = elim (Bool-cases (str_eq v.authority primary)) [
  | inl e ↦ rw e (Perm.refl _)
  | inr e ↦ rw e (perm_middle others rest)
]

pub unskipped-fill_buckets :
    (primary : Str) (buckets : Buckets) (records : List ConcordanceRecord)
    → Perm
        (unskipped primary (fill_buckets buckets records))
        (without_authority primary records ++ unskipped primary buckets)
unfolding fill_buckets
unskipped-fill_buckets primary buckets [] = Perm.refl _
unskipped-fill_buckets primary buckets (v ∷ records) =
    Perm.trans (unskipped-fill_buckets primary (add_record v buckets) records) (
      Perm.trans
        (Perm.append_left (without_authority primary records)
          (unskipped-add_record primary v buckets))
        (join-record primary v (without_authority primary records) (unskipped primary buckets)))

pub rev_onto-perm {ℓ} :
    {A : Type ℓ} (xs ys : List A) → (r : List A) × (rev_onto xs ys ≡ r ++ ys) × Perm r xs
rev_onto-perm [] ys = ([], refl, Perm.refl [])
rev_onto-perm (x ∷ xs) ys =
    let (r, e, p) = rev_onto-perm xs (x ∷ ys) in
    (
      r ++ x ∷ [],
      e ∙ sym (append_assoc r (x ∷ []) ys),
      Perm.trans (perm_middle r []) (rw append-nil (Perm.cons x p)),
    )
