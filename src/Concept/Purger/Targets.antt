-- ===== src/Concept/Purger/Targets.antt =====
-- Which targets a purge names (sendToPurger and contains of concept/service.go).
use aggregate_concept_transf.Common.{
  List, [], ◌∷◌, true, ◌≡◌, refl, sym, ap, ◌∙◌, ◌⊎◌, inl, inr, ◌↔◌, Bool-cases, Elem, Elem-append,
  false≢true,
}
use aggregate_concept_transf.Text.{Str, codes, str_eq, str_eq_iff}
use aggregate_concept_transf.Concept.Paths.{resolve_concept_type}
use aggregate_concept_transf.Concept.Purger.{
  contains, target, always_purged, typed_targets, purge_targets,
}

-- The loop over the types finds the types of the list.
pub contains-Elem :
    (element : Str) (types : List Str) → (contains element types ≡ true) ↔ Elem element types
unfolding contains
contains-Elem element [] = (λ h. false≢true h, λ h. absurd h)
contains-Elem element (t ∷ types) =
    let (forth, back) = contains-Elem element types in
    let (eq, diff) = str_eq_iff element t in
    (
      λ h. elim (Bool-cases (str_eq element t)) [
        | inl e ↦ inl (eq e)
        | inr e ↦ inr (forth (rw e at h))
      ],
      λ h. elim h [
        | inl e ↦ rw (diff e) refl
        | inr k ↦ elim (Bool-cases (str_eq element t)) [ inl e ↦ rw e refl | inr e ↦ rw e (back k) ]
      ],
    )

-- One of the paths that are purged of every concept.
abbrev Always : Str → Str × Str → Type 0
Always uuid t = (t ≡ target (codes "/things") uuid) ⊎ (t ≡ target (codes "/concepts") uuid)

always_purged-Always :
    (t : Str × Str) (uuids : List Str)
    → Elem t (always_purged uuids) ↔ ((uuid : Str) × Elem uuid uuids × Always uuid t)
unfolding always_purged
always_purged-Always t [] = (λ h. absurd h, λ (uuid, bad, _). absurd bad)
always_purged-Always t (u ∷ uuids) =
    let (forth, back) = always_purged-Always t uuids in
    (
      λ h. elim h [
        | inl e ↦ (u, inl refl, inl e)
        | inr k ↦ elim k [
          | inl e ↦ (u, inl refl, inr e)
          | inr more ↦ let (v, at, e) = forth more in (v, inr at, e)
        ]
      ],
      λ (v, at, e). elim at [
        | inl same ↦ elim e [
          | inl a ↦ inl (a ∙ ap (target (codes "/things")) same)
          | inr b ↦ inr (inl (b ∙ ap (target (codes "/concepts")) same))
        ]
        | inr later ↦ inr (inr (back (v, later, e)))
      ],
    )

typed_targets-Elem :
    (t : Str × Str) (param : Str) (uuids : List Str)
    → Elem t (typed_targets param uuids)
      ↔ ((uuid : Str) × Elem uuid uuids × (t ≡ target (b'/' ∷ param) uuid))
unfolding typed_targets
typed_targets-Elem t param [] = (λ h. absurd h, λ (uuid, bad, _). absurd bad)
typed_targets-Elem t param (u ∷ uuids) =
    let (forth, back) = typed_targets-Elem t param uuids in
    (
      λ h. elim h [
        | inl e ↦ (u, inl refl, e)
        | inr more ↦ let (v, at, e) = forth more in (v, inr at, e)
      ],
      λ (v, at, e). elim at [
        | inl same ↦ inl (e ∙ ap (target (b'/' ∷ param)) same)
        | inr later ↦ inr (back (v, later, e))
      ],
    )

-- A target of a concept: its path under /things, its path under /concepts, or, for the types with
-- a public endpoint, its path there.
abbrev pub TargetOf : (concept_type : Str) → List Str → Str → Str × Str → Type 0
TargetOf concept_type types uuid t =
    Always uuid t
    ⊎ Elem concept_type types × (t ≡ target (b'/' ∷ resolve_concept_type concept_type) uuid)

-- A purge names exactly the targets of its concepts: for each the paths under /things and
-- /concepts, and the path of its type where the type is among those with a public endpoint.
pub purge_targets-TargetOf :
    (t : Str × Str) (uuids : List Str) (concept_type : Str) (types : List Str)
    → Elem t (purge_targets uuids concept_type types)
      ↔ ((uuid : Str) × Elem uuid uuids × TargetOf concept_type types uuid t)
unfolding purge_targets
purge_targets-TargetOf t uuids concept_type types =
    let (forth, back) = always_purged-Always t uuids in
    let (forth', back') = typed_targets-Elem t (resolve_concept_type concept_type) uuids in
    let (apart, join) =
      Elem-append t (always_purged uuids)
        (typed_targets (resolve_concept_type concept_type) uuids) in
    let (listed, unlisted) = contains-Elem concept_type types in
    elim (Bool-cases (contains concept_type types)) [
      | inl e ↦ rw e (
        λ h. elim (apart h) [
          | inl a ↦ let (v, at, k) = forth a in (v, at, inl k)
          | inr b ↦ let (v, at, k) = forth' b in (v, at, inr (listed e, k))
        ],
        λ (v, at, k). elim k [
          | inl a ↦ join (inl (back (v, at, a)))
          | inr (_, b) ↦ join (inr (back' (v, at, b)))
        ],
      )
      | inr e ↦ rw e (
        λ h. let (v, at, k) = forth h in (v, at, inl k),
        λ (v, at, k). elim k [
          | inl a ↦ back (v, at, a)
          | inr (found, _) ↦ absurd (false≢true (sym e ∙ unlisted found))
        ],
      )
    ]
