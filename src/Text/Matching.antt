-- ===== src/Text/Matching.antt =====
-- What a match of a row of byte classes says about the text: its length, its digits and where its
-- separators stand. Used for UUIDs in concept/service.go and for keys in sqs/client.go.
use aggregate_concept_transf.Common.{
  ℕ, zero, suc, List, [], ◌∷◌, ◌++◌, true, false, none, some, length, All, ◌≡◌, refl, ap, ◌≢◌, ◌⊎◌,
  inl, inr, arith, Option-cases,
}
use aggregate_concept_transf.Text.{Str}
use aggregate_concept_transf.Text.Regex.{Class, hex, byte, is_hex, accepts, hexes, match_here}

-- The text has no byte `sep`.
abbrev pub Lacks : ℕ → Str → Type 0
Lacks sep = All (λ c. c ≢ sep)

-- A match of one class more is an accepted byte and a match of the others.
pub match_here-cons :
    (c : Class) (p : List Class) (x : ℕ) (s : Str) {m' rest : Str}
    → match_here (c ∷ p) (x ∷ s) ≡ some (m', rest)
    → (m : Str) × (accepts c x ≡ true) × (match_here p s ≡ some (m, rest)) × (m' ≡ x ∷ m)
unfolding match_here
match_here-cons c p x s h = elim (Option-cases (match_here p s)) [
  | inl e ↦ absurd (ground arith)
  | inr ((m, rest), e) ↦ (m, ground arith, ground arith, ground arith)
]

-- A match is the beginning of the text, one byte for each class.
pub match_here-parts :
    (p : List Class) (s : Str) {m rest : Str}
    → match_here p s ≡ some (m, rest)
    → (s ≡ m ++ rest) × (length m ≡ length p)
match_here-parts [] s h = unfold match_here in ground arith
match_here-parts (c ∷ p) [] h = unfold match_here in cc
match_here-parts (c ∷ p) (x ∷ s) h =
    let (m, _, inner, e) = match_here-cons c p x s h in
    let (text, size) = match_here-parts p s inner in (rw (e, text) refl, rw e (ap suc size))

-- More text behind a match changes only what is left.
pub match_here-append :
    (p : List Class) (s t : Str) {m rest : Str}
    → match_here p s ≡ some (m, rest)
    → match_here p (s ++ t) ≡ some (m, rest ++ t)
unfolding match_here
match_here-append [] s t h = ground arith
match_here-append (c ∷ p) [] t h = cc
match_here-append (c ∷ p) (x ∷ s) t h =
    let (m, ok, inner, e) = match_here-cons c p x s h in rw (ok, match_here-append p s t inner, e)

-- A match matches itself, with nothing left.
pub match_here_self :
    (p : List Class) (s : Str) {m rest : Str}
    → match_here p s ≡ some (m, rest)
    → match_here p m ≡ some (m, [])
unfolding match_here
match_here_self [] s h = ground arith
match_here_self (c ∷ p) [] h = cc
match_here_self (c ∷ p) (x ∷ s) h =
    let (m, ok, inner, e) = match_here-cons c p x s h in
    rw e (rw (ok, match_here_self p s inner) refl)

-- Text without a separator in front of one is matched by exactly so many digits, or not at all.
pub digits_run :
    (n sep : ℕ) (p : List Class) (q t : Str)
    → Lacks sep q
    → is_hex sep ≡ false
    → (match_here (hexes n (byte sep ∷ p)) (q ++ sep ∷ t) ≡ none)
      ⊎ (n ≡ length q) × (match_here p t ≢ none)
unfolding match_here
digits_run zero sep p [] t l h = elim (Option-cases (match_here p t)) [
  | inl e ↦ inl (rw e (ground arith))
  | inr (r, e) ↦ inr (refl, λ bad. cc)
]
digits_run zero sep p (x ∷ q) t l h = inl (ground arith)
digits_run (suc n) sep p [] t l h = inl (ground arith)
digits_run (suc n) sep p (x ∷ q) t (_, l) h = elim (digits_run n sep p q t l h) [
  | inl e ↦ inl (rw e (ground arith))
  | inr (size, found) ↦ inr (ap suc size, found)
]

hex-ne : (x sep : ℕ) → is_hex sep ≡ false → is_hex x ≡ true → x ≢ sep
hex-ne x sep h k e = cc

-- A text that is matched by n digits and a separator has them in front.
pub digits-split :
    (n sep : ℕ) (p : List Class) (s : Str) {m rest : Str}
    → is_hex sep ≡ false
    → match_here (hexes n (byte sep ∷ p)) s ≡ some (m, rest)
    → (q t : Str) × (s ≡ q ++ sep ∷ t) × (length q ≡ n) × Lacks sep q
unfolding is_hex accepts
digits-split zero sep p [] h e = absurd (unfold match_here in cc)
digits-split (suc n) sep p [] h e = absurd (unfold match_here in cc)
digits-split zero sep p (x ∷ s) h e =
    let (m, ok, _, _) = match_here-cons (byte sep) p x s e in
    ([], s, ap (λ c. c ∷ s) (unfold accepts in ground arith), refl, tt)
digits-split (suc n) sep p (x ∷ s) h e =
    let (m, ok, inner, _) = match_here-cons hex (hexes n (byte sep ∷ p)) x s e in
    let (q, t, text, size, l) = digits-split n sep p s h inner in
    (x ∷ q, t, ap (λ c. x ∷ c) text, ap suc size, (hex-ne x sep h ok, l))
