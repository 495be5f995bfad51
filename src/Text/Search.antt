-- ===== src/Text/Search.antt =====
-- What FindAllString finds: steps of the search, and what every result has in common.
use aggregate_concept_transf.Common.{
  ℕ, zero, suc, ◌-◌, ◌≤◌, List, [], ◌∷◌, ◌++◌, none, some, length, length-append, All, ◌≡◌, refl,
  ap, ◌≢◌, inl, inr, arith, Option-cases,
}
use aggregate_concept_transf.Text.{Str}
use aggregate_concept_transf.Text.Regex.{Class, match_here, find_from}
use aggregate_concept_transf.Text.Matching.{match_here-parts, match_here_self}

module _ (p : List Class) where
  -- The text is matched whole.
  abbrev pub IsMatch : Str → Type 0
  IsMatch m = match_here p m ≡ some (m, [])

  pub find_from-miss :
      (n x : ℕ) (s : Str)
      → match_here p (x ∷ s) ≡ none
      → find_from p (suc n) zero (x ∷ s) ≡ find_from p (suc n) zero s
  unfolding find_from
  find_from-miss n x s h = rw (h, find_from) refl

  pub find_from-skip :
      (n : ℕ) (t s : Str) → find_from p (suc n) (length t) (t ++ s) ≡ find_from p (suc n) zero s
  unfolding find_from
  find_from-skip n [] s = refl
  find_from-skip n (x ∷ t) s = find_from-skip n t s

  pub find_from-hit :
      (n x : ℕ) (s : Str) {m rest : Str}
      → match_here p (x ∷ s) ≡ some (m, rest)
      → find_from p (suc n) zero (x ∷ s) ≡ m ∷ find_from p n (length p - 1) s
  unfolding find_from
  find_from-hit n x s h = rw (h, find_from) refl

  -- Whatever is found is a match of the whole pattern.
  pub find_from-IsMatch : (limit skip : ℕ) (s : Str) → All IsMatch (find_from p limit skip s)
  unfolding find_from
  find_from-IsMatch limit skip [] = tt
  find_from-IsMatch zero skip (x ∷ s) = tt
  find_from-IsMatch (suc limit) (suc skip) (x ∷ s) = find_from-IsMatch (suc limit) skip s
  find_from-IsMatch (suc limit) zero (x ∷ s) = elim (Option-cases (match_here p (x ∷ s))) [
    | inl e ↦ rw (e, find_from) (find_from-IsMatch (suc limit) zero s)
    | inr ((m, rest), e) ↦
        rw (e, find_from) (match_here_self p (x ∷ s) e, find_from-IsMatch limit (length p - 1) s)
  ]

  -- A text in which something is found is as long as the pattern at least.
  pub find_from-length :
      (limit skip : ℕ) (s : Str) → find_from p limit skip s ≢ [] → length p ≤ length s
  unfolding find_from
  find_from-length limit skip [] h = absurd (h refl)
  find_from-length zero skip (x ∷ s) h = absurd (h refl)
  find_from-length (suc limit) (suc skip) (x ∷ s) h =
      omega (arith, find_from-length (suc limit) skip s h)
  find_from-length (suc limit) zero (x ∷ s) h = elim (Option-cases (match_here p (x ∷ s))) [
    | inl e ↦ omega (arith, find_from-length (suc limit) zero s (λ k. h (rw (e, find_from) k)))
    | inr ((m, rest), e) ↦
        let (text, size) = match_here-parts p (x ∷ s) e in
        omega (arith, ap length text, length-append m rest)
  ]
