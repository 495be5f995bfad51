-- ===== src/Sns/Ids.antt =====
-- The Ids of a batch of events (sns/client.go): SNS refuses a batch with two entries of one Id.
use aggregate_concept_transf.Common.{
  ℕ, suc, ◌≤◌, List, [], ◌∷◌, ◌++◌, ◌≡◌, ◌≢◌, refl, sym, ap, ◌∙◌, arith, All, inl, inr,
}
use aggregate_concept_transf.Text.{Str}
use aggregate_concept_transf.Text.Matching.{Lacks}
use aggregate_concept_transf.Text.Itoa.{itoa, itoa_injective, itoa-underscore}
use aggregate_concept_transf.Effects.{ok, BatchEntry, bind-ok, ok-injective, Res-cases}
use aggregate_concept_transf.World.{Event, World}
use aggregate_concept_transf.Sns.{batch_entry, batch_entries}

not-Lacks : (sep : ℕ) (s t : Str) → Lacks sep (s ++ sep ∷ t) → ⊥
not-Lacks sep [] t (h, _) = h refl
not-Lacks sep (x ∷ s) t (_, h) = not-Lacks sep s t h

head-injective : {x y : ℕ} {s t : Str} → x ∷ s ≡ y ∷ t → s ≡ t
head-injective h = cc

-- What stands behind the last separator is determined.
last_part_injective :
    (sep : ℕ) (s t : Str) {a b : Str}
    → Lacks sep a
    → Lacks sep b
    → s ++ sep ∷ a ≡ t ++ sep ∷ b
    → a ≡ b
last_part_injective sep [] [] ha hb e = head-injective e
last_part_injective sep [] (y ∷ t) {b = b} ha hb e =
    absurd (not-Lacks sep t b (rw (← head-injective e) ha))
last_part_injective sep (x ∷ s) [] {a = a} ha hb e =
    absurd (not-Lacks sep s a (rw (head-injective e) hb))
last_part_injective sep (x ∷ s) (y ∷ t) ha hb e =
    last_part_injective sep s t ha hb (head-injective e)

-- The Id ends in the number of a place from `i` on.
abbrev From : ℕ → BatchEntry → Type 0
From i entry = (u : Str) × (j : ℕ) × (i ≤ j) × (entry.id ≡ u ++ b'_' ∷ itoa j)

-- The Id of `entry` differs from the Ids of all of `entries`.
abbrev pub Fresh : BatchEntry → List BatchEntry → Type 0
Fresh entry = All (λ other. entry.id ≢ other.id)

-- No two entries have one Id.
abbrev pub Distinct : List BatchEntry → Type 0
Distinct [] = Unit {0}
Distinct (entry ∷ entries) = Fresh entry entries × Distinct entries

From-weaken :
    (i : ℕ) (entries : List BatchEntry) → All (From (suc i)) entries → All (From i) entries
From-weaken i [] h = tt
From-weaken i (e ∷ entries) ((u, j, l, same), h) =
    ((u, j, omega arith, same), From-weaken i entries h)

Fresh-From :
    (i : ℕ) (u : Str) (entry : BatchEntry) (entries : List BatchEntry)
    → entry.id ≡ u ++ b'_' ∷ itoa i
    → All (From (suc i)) entries
    → Fresh entry entries
Fresh-From i u entry [] e h = tt
Fresh-From i u entry (other ∷ entries) e ((v, j, l, same), h) = (
  λ k. absurd (
      omega (
        arith,
        itoa_injective i j (
            last_part_injective b'_' u v (itoa-underscore i) (itoa-underscore j)
              (sym e ∙ k ∙ same)),
      )),
  Fresh-From i u entry entries e h,
)

module _ {R : Type 0} (w : World R) where
  batch_entry-id :
      (i : ℕ) (ev : Event R) (entry : BatchEntry)
      → batch_entry w i ev ≡ ok entry
      → entry.id ≡ ev.concept_uuid ++ b'_' ∷ itoa i
  unfolding batch_entry
  batch_entry-id i ev entry h = elim (Res-cases (w.marshal_event ev)) [
    | inl (ev_data, e) ↦ ap (λ b. b.id) (sym (ok-injective (rw (e, batch_entry) at h)))
    | inr (inl (t, e)) ↦ absurd (let k = rw (e, batch_entry) at h in cc)
    | inr (inr e) ↦ absurd (let k = rw (e, batch_entry) at h in cc)
  ]

  batch_entries-From :
      (i : ℕ) (events : List (Event R)) (entries : List BatchEntry)
      → batch_entries w i events ≡ ok entries
      → All (From i) entries × Distinct entries
  unfolding batch_entries
  batch_entries-From i [] entries h = rw (← ok-injective h) (tt, tt)
  batch_entries-From i (ev ∷ events) entries h =
      let (entry, h1, h2) = bind-ok (batch_entry w i ev) _ h in
      let (rest, h3, h4) = bind-ok (batch_entries w (suc i) events) _ h2 in
      let same = batch_entry-id i ev entry h1 in
      let (from, distinct) = batch_entries-From (suc i) events rest h3 in
      rw (← ok-injective h4) (
        ((ev.concept_uuid, i, omega arith, same), From-weaken i rest from),
        (Fresh-From i ev.concept_uuid entry rest same from, distinct),
      )

  -- The entries that PublishEvents puts into a batch have Ids that are all different, whatever
  -- events it is given, also two events of one concept.
  pub batch_entries-Distinct :
      (events : List (Event R)) (entries : List BatchEntry)
      → batch_entries w 0 events ≡ ok entries
      → Distinct entries
  batch_entries-Distinct events entries h = (batch_entries-From 0 events entries h).1
