-- ===== src/Concept/Paths/Spaced.antt =====
-- Where toSnakeCase puts its dashes (concept/service.go).
use aggregate_concept_transf.Common.{
  ℕ, sym, [], ◌∷◌, map, Bool, true, false, ◌==◌, ◌≡◌, refl, ap, ◌∙◌, if◌then◌else◌, arith,
  Bool-cases, inl, inr, not, ◌&&◌, ◌||◌,
}
use aggregate_concept_transf.Text.{Str}
use aggregate_concept_transf.Concept.Paths.{
  is_upper, is_lower, is_digit, to_lower, starts_lower, replace_first_cap, replace_all_cap,
  to_snake_case,
}

-- A capital begins a word behind a lower-case letter or a digit, and, where a lower-case letter
-- follows it, behind every byte but a line feed.
abbrev pub starts_word : (before capital : ℕ) → (rest : Str) → Bool
starts_word x u rest =
    is_upper u && ((is_lower x || is_digit x) || (starts_lower rest && not (x == 10)))

-- The name with a dash before each capital that begins a word, in one pass.
unfoldable pub spaced : Str → Str
spaced [] = []
spaced (x ∷ []) = x ∷ []
spaced (x ∷ u ∷ rest) =
    let spread = spaced (u ∷ rest) in if starts_word x u rest then x ∷ b'-' ∷ spread else x ∷ spread

not_upper-digit : (u : ℕ) → is_upper u ≡ true → (is_lower u || is_digit u) ≡ false
unfolding is_upper is_lower is_digit
not_upper-digit u h = ground (arith, h)

lower-not_upper : (v : ℕ) → is_lower v ≡ true → is_upper v ≡ false
unfolding is_upper is_lower
lower-not_upper v h = ground (arith, h)

-- The second pass puts no dash behind a capital.
replace_all_cap-capital :
    (u : ℕ) (s : Str) → is_upper u ≡ true → replace_all_cap (u ∷ s) ≡ u ∷ replace_all_cap s
unfolding replace_all_cap
replace_all_cap-capital u [] h = refl
replace_all_cap-capital u (v ∷ s) h = rw (not_upper-digit u h) refl

and_right : (a b : Bool) → (a && b) ≡ true → b ≡ true
and_right a b h = ground (arith, h)

replace_all_cap-split :
    (x u : ℕ) (t : Str)
    → ((is_lower x || is_digit x) && is_upper u) ≡ true
    → replace_all_cap (x ∷ u ∷ t) ≡ x ∷ b'-' ∷ replace_all_cap (u ∷ t)
unfolding replace_all_cap
replace_all_cap-split x u t e =
    rw e (ap (λ (l : Str). x ∷ b'-' ∷ l) (sym (replace_all_cap-capital u t (and_right _ _ e))))

replace_all_cap-passed :
    (x u : ℕ) (t : Str)
    → ((is_lower x || is_digit x) && is_upper u) ≡ false
    → replace_all_cap (x ∷ u ∷ t) ≡ x ∷ replace_all_cap (u ∷ t)
unfolding replace_all_cap
replace_all_cap-passed x u t e = rw e refl

spaced-word :
    (x u : ℕ) (rest : Str)
    → starts_word x u rest ≡ true
    → spaced (x ∷ u ∷ rest) ≡ x ∷ b'-' ∷ spaced (u ∷ rest)
unfolding spaced
spaced-word x u rest e = rw e refl

spaced-passed :
    (x u : ℕ) (rest : Str)
    → starts_word x u rest ≡ false
    → spaced (x ∷ u ∷ rest) ≡ x ∷ spaced (u ∷ rest)
unfolding spaced
spaced-passed x u rest e = rw e refl

-- No word begins behind a capital that a lower-case letter follows.
spaced-capital :
    (u : ℕ) (rest : Str)
    → (is_upper u && starts_lower rest) ≡ true
    → spaced (u ∷ rest) ≡ u ∷ spaced rest
unfolding spaced starts_lower
spaced-capital u [] e = cc
spaced-capital u (v ∷ rest) e = rw (lower-not_upper v (and_right (is_upper u) (is_lower v) e)) refl

-- The second pass puts no dash beside a dash.
replace_all_cap-dash :
    (x : ℕ) (s : Str) → replace_all_cap (x ∷ b'-' ∷ s) ≡ x ∷ b'-' ∷ replace_all_cap s
unfolding replace_all_cap is_upper is_lower is_digit
replace_all_cap-dash x [] = elim (Bool-cases (is_lower x || is_digit x)) [
  | inl e ↦ rw e refl
  | inr e ↦ rw e refl
]
replace_all_cap-dash x (v ∷ s) = elim (Bool-cases (is_lower x || is_digit x)) [
  | inl e ↦ rw e refl
  | inr e ↦ rw e refl
]

abbrev StartsWith : ℕ → Str → Type 0
StartsWith u s = (t : Str) × (s ≡ u ∷ t)

StartsWith-if :
    (b : Bool) (u : ℕ) (s s' : Str)
    → StartsWith u s
    → StartsWith u s'
    → StartsWith u (if b then s else s')
StartsWith-if true u s s' h k = h
StartsWith-if false u s s' h k = k

-- The first pass keeps the first byte.
replace_first_cap-StartsWith :
    (in_word : Bool) (u : ℕ) (rest : Str) → StartsWith u (replace_first_cap in_word (u ∷ rest))
unfolding replace_first_cap
replace_first_cap-StartsWith in_word u [] = ([], refl)
replace_first_cap-StartsWith in_word u (v ∷ rest) =
    StartsWith-if (in_word && is_lower u) u (u ∷ replace_first_cap true (v ∷ rest))
      (if not (u == 10) && (is_upper v && starts_lower rest)
        then u ∷ b'-' ∷ v ∷ replace_first_cap true rest
        else u ∷ replace_first_cap false (v ∷ rest))
      (_, refl)
      (StartsWith-if (not (u == 10) && (is_upper v && starts_lower rest)) u
        (u ∷ b'-' ∷ v ∷ replace_first_cap true rest) (u ∷ replace_first_cap false (v ∷ rest))
        (_, refl) (_, refl))

-- Where the first pass puts no dash, the second one decides.
passed-spaced :
    (in_word : Bool) (x u : ℕ) (rest : Str)
    → starts_word x u rest ≡ ((is_lower x || is_digit x) && is_upper u)
    → replace_all_cap (replace_first_cap in_word (u ∷ rest)) ≡ spaced (u ∷ rest)
    → replace_all_cap (x ∷ replace_first_cap in_word (u ∷ rest)) ≡ spaced (x ∷ u ∷ rest)
passed-spaced in_word x u rest same h =
    let (t, e) = replace_first_cap-StartsWith in_word u rest in rw e (after t (rw e at h))
  where
    after :
        (t : Str)
        → replace_all_cap (u ∷ t) ≡ spaced (u ∷ rest)
        → replace_all_cap (x ∷ u ∷ t) ≡ spaced (x ∷ u ∷ rest)
    after t k = elim (Bool-cases ((is_lower x || is_digit x) && is_upper u)) [
      | inl e ↦
          replace_all_cap-split x u t e
          ∙ ap (λ (l : Str). x ∷ b'-' ∷ l) k
          ∙ sym (spaced-word x u rest (same ∙ e))
      | inr e ↦
          replace_all_cap-passed x u t e
          ∙ ap (λ (l : Str). x ∷ l) k
          ∙ sym (spaced-passed x u rest (same ∙ e))
    ]

-- Where the first pass puts a dash.
split-spaced :
    (x u : ℕ) (rest : Str)
    → (not (x == 10) && (is_upper u && starts_lower rest)) ≡ true
    → replace_all_cap (replace_first_cap true rest) ≡ spaced rest
    → replace_all_cap (x ∷ b'-' ∷ u ∷ replace_first_cap true rest) ≡ spaced (x ∷ u ∷ rest)
split-spaced x u rest e h =
    let capital = and_right _ _ e in
    replace_all_cap-dash x (u ∷ replace_first_cap true rest)
    ∙ ap (λ (l : Str). x ∷ b'-' ∷ l)
        (replace_all_cap-capital u (replace_first_cap true rest) (upper (is_upper u) _ capital)
          ∙ ap (λ (l : Str). u ∷ l) h
          ∙ sym (spaced-capital u rest capital))
    ∙ sym (
        spaced-word x u rest
          (begins (not (x == 10)) (is_upper u) (is_lower x) (is_digit x) (starts_lower rest) e))
  where
    upper : (a b : Bool) → (a && b) ≡ true → a ≡ true
    upper a b h = ground (arith, h)

    begins : (n u l d f : Bool) → (n && (u && f)) ≡ true → (u && ((l || d) || (f && n))) ≡ true
    begins n u l d f h = ground (arith, h)

flat :
    (n u l d f : Bool) → (n && (u && f)) ≡ false → (u && ((l || d) || (f && n))) ≡ ((l || d) && u)
flat n u l d f h = ground (arith, h)

behind_lower : (u l d f n : Bool) → l ≡ true → (u && ((l || d) || (f && n))) ≡ ((l || d) && u)
behind_lower u l d f n h = ground (arith, h)

passes-spaced :
    (in_word : Bool) (s : Str) → replace_all_cap (replace_first_cap in_word s) ≡ spaced s
unfolding replace_first_cap
passes-spaced in_word [] = unfold replace_all_cap in unfold spaced in refl
passes-spaced in_word (x ∷ []) = unfold replace_all_cap in unfold spaced in refl
passes-spaced in_word (x ∷ u ∷ rest) = elim (Bool-cases (in_word && is_lower x)) [
  | inl e ↦ rw e (
      passed-spaced true x u rest
        (behind_lower (is_upper u) (is_lower x) (is_digit x) (starts_lower rest) (not (x == 10))
          (and_right _ _ e))
        (passes-spaced true (u ∷ rest)))
  | inr e ↦ elim (Bool-cases (not (x == 10) && (is_upper u && starts_lower rest))) [
    | inl f ↦ rw (e, f) (split-spaced x u rest f (passes-spaced true rest))
    | inr f ↦
        rw (e, f)
          (passed-spaced false x u rest
            (flat (not (x == 10)) (is_upper u) (is_lower x) (is_digit x) (starts_lower rest) f)
            (passes-spaced false (u ∷ rest)))
  ]
]

-- The name in snake case is the name in lower case, with a dash before each capital that stands
-- behind a lower-case letter or a digit, and before each capital that is followed by a lower-case
-- letter and stands behind any byte but a line feed.
pub to_snake_case-spaced : (str : Str) → to_snake_case str ≡ map to_lower (spaced str)
unfolding to_snake_case
to_snake_case-spaced str = ap (map to_lower) (passes-spaced false str)
