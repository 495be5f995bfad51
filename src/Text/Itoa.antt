-- ===== src/Text/Itoa.antt =====
-- strconv.Itoa on the natural numbers, for the places of a batch (sns/client.go) and for HTTP
-- statuses (concept/service.go).
use aggregate_concept_transf.Common.{
  ℕ, zero, suc, ◌+◌, ◌-◌, ◌*◌, ◌/◌, ◌%◌, ◌<◌, [], ◌∷◌, ◌++◌, ltb, if◌then◌else◌, ◌≡◌, refl, ◌≢◌,
  sym, ap, ◌∙◌, inl, inr, Bool-cases, All, All-append, arith,
}
use aggregate_concept_transf.Text.{Str}

-- The decimal digits; the fuel bounds their number.
decimal : ℕ → ℕ → Str
decimal zero n = []
decimal (suc fuel) n =
    let more = decimal fuel (n / 10) ++ (b'0' + n % 10) ∷ [] in
    if ltb n 10 then (b'0' + n) ∷ [] else more

unfoldable pub itoa : ℕ → Str
unfolding decimal
itoa n = decimal (suc n) n

-- The number that a row of digits stands for, after the digits already read.
abbrev value_from : ℕ → Str → ℕ
value_from acc [] = acc
value_from acc (d ∷ ds) = value_from (acc * 10 + (d - b'0')) ds

value_from-last :
    (acc d : ℕ) (ds : Str) → value_from acc (ds ++ d ∷ []) ≡ value_from acc ds * 10 + (d - b'0')
value_from-last acc d [] = refl
value_from-last acc d (e ∷ ds) = value_from-last (acc * 10 + (e - b'0')) d ds

value-decimal : (fuel n : ℕ) → n < fuel → value_from 0 (decimal fuel n) ≡ n
unfolding decimal
value-decimal zero n h = absurd (omega arith)
value-decimal (suc fuel) n h = elim (Bool-cases (ltb n 10)) [
  | inl small ↦ rw small (ground arith)
  | inr large ↦ rw large (
      rw (value_from-last 0 (b'0' + n % 10) (decimal fuel (n / 10)))
        (ground (arith, value-decimal fuel (n / 10))))
]

-- Reading back what was printed.
pub value-itoa : (n : ℕ) → value_from 0 (itoa n) ≡ n
unfolding itoa
value-itoa n = value-decimal (suc n) n (omega arith)

pub itoa_injective : (m n : ℕ) → itoa m ≡ itoa n → m ≡ n
itoa_injective m n e = sym (value-itoa m) ∙ ap (value_from 0) e ∙ value-itoa n

digits-ne : (sep fuel n : ℕ) → b'9' < sep → All (λ d. d ≢ sep) (decimal fuel n)
unfolding decimal
digits-ne sep zero n h = tt
digits-ne sep (suc fuel) n h = elim (Bool-cases (ltb n 10)) [
  | inl small ↦ rw small (ground arith)
  | inr large ↦ rw large (
      All-append (λ d. d ≢ sep) (decimal fuel (n / 10)) _ (digits-ne sep fuel (n / 10) h)
        (ground arith))
]

-- A printed number has no underscore.
pub itoa-underscore : (n : ℕ) → All (λ d. d ≢ b'_') (itoa n)
unfolding itoa
itoa-underscore n = digits-ne b'_' (suc n) n (omega arith)
