-- ===== src/Text/Swap.antt =====
-- A UUID whose separators are replaced: dashes by slashes in s3/client.go, slashes by dashes in
-- sqs/client.go.
use aggregate_concept_transf.Common.{
  ℕ, zero, suc, List, [], ◌∷◌, ◌++◌, ◌==◌, if◌then◌else◌, none, some, ◌≡◌, ◌≢◌, refl, sym, ap, ap₂,
  ◌∙◌, inl, inr, ◌⊎◌, Option-cases, Bool-cases, arith, true, false, false≢true, ==_iff, All, subst,
}
use aggregate_concept_transf.Text.{Str, replace_byte}
use aggregate_concept_transf.Text.Regex.{
  Class, hex, byte, is_hex, accepts, match_here, cons_match, find_from,
}
use aggregate_concept_transf.Text.Matching.{Lacks, match_here-cons}

-- The text has a match somewhere.
abbrev pub HasMatch : List Class → Str → Type 0
HasMatch p [] = ⊥
HasMatch p (x ∷ s) = (match_here p (x ∷ s) ≢ none) ⊎ HasMatch p s

pub HasMatch-of_found :
    (p : List Class) (n skip : ℕ) (s : Str) → find_from p n skip s ≢ [] → HasMatch p s
unfolding find_from
HasMatch-of_found p n skip [] h = absurd (h refl)
HasMatch-of_found p zero skip (x ∷ s) h = absurd (h refl)
HasMatch-of_found p (suc n) (suc skip) (x ∷ s) h = inr (HasMatch-of_found p (suc n) skip s h)
HasMatch-of_found p (suc n) zero (x ∷ s) h = elim (Option-cases (match_here p (x ∷ s))) [
  | inl e ↦ inr (HasMatch-of_found p (suc n) zero s (λ k. h (rw (e, find_from) k)))
  | inr (m, e) ↦ inl (λ bad. cc)
]

pub found-of_HasMatch :
    (p : List Class) (n : ℕ) (s : Str) → HasMatch p s → find_from p (suc n) zero s ≢ []
unfolding find_from
found-of_HasMatch p n [] h k = absurd h
found-of_HasMatch p n (x ∷ s) h k = elim (Option-cases (match_here p (x ∷ s))) [
  | inl e ↦ elim h [
    | inl bad ↦ bad e
    | inr later ↦ found-of_HasMatch p n s later (rw (e, find_from) at k)
  ]
  | inr ((m, rest), e) ↦ absurd (nothing (rw (e, find_from) at k))
]
  where
    nothing : {m : Str} {l : List Str} → m ∷ l ≡ [] → ⊥
    nothing bad = cc

pub HasMatch-append : (p : List Class) (t s : Str) → HasMatch p s → HasMatch p (t ++ s)
HasMatch-append p [] s h = h
HasMatch-append p (x ∷ t) s h = inr (HasMatch-append p t s h)

-- The same row of classes with another separator.
abbrev pub swap : (old new : ℕ) → ℕ → ℕ
swap old new x = if x == old then new else x

abbrev swap_class : (old new : ℕ) → Class → Class
swap_class old new hex = hex
swap_class old new (byte b) = byte (swap old new b)

abbrev pub swap_classes : (old new : ℕ) → List Class → List Class
swap_classes old new [] = []
swap_classes old new (c ∷ p) = swap_class old new c ∷ swap_classes old new p

module _ (old new : ℕ) (plain : is_hex old ≡ false) where
  accepts-swap :
      (c : Class) (x : ℕ)
      → accepts c x ≡ true
      → accepts (swap_class old new c) (swap old new x) ≡ true
  unfolding accepts
  accepts-swap hex x h = elim (Bool-cases (x == old)) [
    | inl e ↦ absurd (false≢true (sym plain ∙ ap is_hex (sym ((==_iff x old).0 e)) ∙ h))
    | inr e ↦ rw e h
  ]
  accepts-swap (byte b) x h = ground arith

  match-swap :
      (p : List Class) (s : Str) {r : Str × Str}
      → match_here p s ≡ some r
      → match_here (swap_classes old new p) (replace_byte old new s) ≢ none
  unfolding match_here replace_byte
  match-swap [] s h k = cc
  match-swap (c ∷ p) [] h k = cc
  match-swap (c ∷ p) (x ∷ s) h k =
      let (m, ok_x, inner, _) = match_here-cons c p x s h in
      elim (Option-cases (match_here (swap_classes old new p) (replace_byte old new s))) [
        | inl e ↦ match-swap p s inner e
        | inr (found, e) ↦ absurd (still (rw (accepts-swap c x ok_x, e) at k))
      ]
    where
      still : {f : Str × Str} → cons_match (swap old new x) (some f) ≡ none → ⊥
      still bad = ground arith

  -- A text with a match has one for the other separator once the bytes are replaced.
  pub HasMatch-swap :
      (p : List Class) (s : Str)
      → HasMatch p s
      → HasMatch (swap_classes old new p) (replace_byte old new s)
  unfolding replace_byte
  HasMatch-swap p [] h = absurd h
  HasMatch-swap p (x ∷ s) (inl found) = elim (Option-cases (match_here p (x ∷ s))) [
    | inl e ↦ absurd (found e)
    | inr (r, e) ↦ inl (match-swap p (x ∷ s) e)
  ]
  HasMatch-swap p (x ∷ s) (inr later) = inr (HasMatch-swap p s later)

pub replace-append :
    (old new : ℕ) (s t : Str)
    → replace_byte old new (s ++ t) ≡ replace_byte old new s ++ replace_byte old new t
unfolding replace_byte
replace-append old new [] t = refl
replace-append old new (x ∷ s) t = ap (λ l. swap old new x ∷ l) (replace-append old new s t)

-- Nothing is replaced in a text without the byte.
pub replace-Lacks : (old new : ℕ) (s : Str) → Lacks old s → replace_byte old new s ≡ s
unfolding replace_byte
replace-Lacks old new [] h = refl
replace-Lacks old new (x ∷ s) (d, h) = ap₂ ◌∷◌ (ground arith) (replace-Lacks old new s h)

-- Replacing back.
pub replace-replace :
    (old new : ℕ) (s : Str) → Lacks new s → replace_byte new old (replace_byte old new s) ≡ s
unfolding replace_byte
replace-replace old new [] h = refl
replace-replace old new (x ∷ s) (d, h) = ap₂ ◌∷◌ (ground arith) (replace-replace old new s h)

-- A match has no byte that all its classes refuse.
pub match_here-Lacks :
    (b : ℕ) (p : List Class) (s : Str) {m rest : Str}
    → All (λ c. accepts c b ≡ false) p
    → match_here p s ≡ some (m, rest)
    → Lacks b m
unfolding match_here
match_here-Lacks b [] s {m} l h = let e : [] ≡ m = ground arith in subst (Lacks b) e tt
match_here-Lacks b (c ∷ p) [] l h = cc
match_here-Lacks b (c ∷ p) (x ∷ s) (refused, l) h =
    let (m, taken, inner, e) = match_here-cons c p x s h in
    rw e (
      (λ same. false≢true (sym refused ∙ ap (accepts c) (sym same) ∙ taken)),
      match_here-Lacks b p s l inner,
    )
