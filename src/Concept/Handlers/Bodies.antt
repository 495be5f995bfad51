-- ===== src/Concept/Handlers/Bodies.antt =====
-- The JSON of the error responses (GetHandler and SendHandler of concept/handlers.go).
use aggregate_concept_transf.Common.{
  ℕ, ◌+◌, ◌≤◌, ◌<◌, List, [], ◌∷◌, ◌++◌, length, length-append, drop, Bool, true, false, ◌==◌,
  ==_iff, ltb, if◌then◌else◌, Option, none, some, some-injective, All, ◌≡◌, ◌≢◌, ◌↔◌, refl, sym, ap,
  ◌∙◌, Bool-cases, inl, inr, arith,
}
use aggregate_concept_transf.Text.{Str, codes, str_eq, str_eq→eq, has_prefix}
use aggregate_concept_transf.Concept.Handlers.{error_response}

-- A reader of JSON strings, by RFC 8259, that knows all escapes but the one with four digits.
abbrev escapes : List (ℕ × ℕ)
escapes =
    (b'"', b'"')
    ∷ (b'\\', b'\\')
    ∷ (b'/', b'/')
    ∷ (b'b', 8)
    ∷ (b'f', 12)
    ∷ (b'n', 10)
    ∷ (b'r', 13)
    ∷ (b't', 9)
    ∷ []

abbrev lookup : ℕ → List (ℕ × ℕ) → Option ℕ
lookup c [] = none
lookup c ((key, byte) ∷ table) = if key == c then some byte else lookup c table

abbrev push : ℕ → Option (Str × Str) → Option (Str × Str)
push c none = none
push c (some (text, rest)) = some (c ∷ text, rest)

abbrev push_escaped : Option ℕ → Option (Str × Str) → Option (Str × Str)
push_escaped none r = none
push_escaped (some c) r = push c r

-- Behind the opening quote, or behind a backslash: the text, and what follows the closing quote.
read_chars : (escaped : Bool) → Str → Option (Str × Str)
read_chars escaped [] = none
read_chars true (c ∷ s) = let rest = read_chars false s in push_escaped (lookup c escapes) rest
read_chars false (c ∷ s) =
    let rest = read_chars false s in
    let escaped = read_chars true s in
    if c == b'"'
    then some ([], s)
    else if c == b'\\'
    then escaped
    else if ltb c 32
    then none
    else push c rest

abbrev opening : Str
opening = codes "{\"message\":\""

abbrev closed : Option (Str × Str) → Option Str
closed none = none
closed (some (text, rest)) = if str_eq rest (codes "}") then some text else none

-- The message of a JSON object that has this one member.
pub read_message : Str → Option Str
unfolding read_chars has_prefix
read_message body =
    if has_prefix body opening then closed (read_chars false (drop (length opening) body)) else none

-- No quote, no backslash, no control byte.
abbrev pub Plain : Str → Type 0
Plain = All (λ c. (c ≢ b'"') × (c ≢ b'\\') × (32 ≤ c))

-- What the reader makes of a byte.
data Read (c : ℕ) (s : Str) : Type 0 where
  closing : c ≡ b'"' → read_chars false (c ∷ s) ≡ some ([], s) → Read c s
  escape : c ≡ b'\\' → read_chars false (c ∷ s) ≡ read_chars true s → Read c s
  control : c < 32 → read_chars false (c ∷ s) ≡ none → Read c s
  plain :
      (c ≢ b'"') × (c ≢ b'\\') × (32 ≤ c)
      → read_chars false (c ∷ s) ≡ push c (read_chars false s)
      → Read c s

read : (c : ℕ) (s : Str) → Read c s
unfolding read_chars
read c s = elim (Bool-cases (c == b'"')) [
  | inl q ↦ closing ((==_iff c b'"').0 q) (rw q refl)
  | inr q ↦ elim (Bool-cases (c == b'\\')) [
    | inl b ↦ escape ((==_iff c b'\\').0 b) (rw (q, b) refl)
    | inr b ↦ elim (Bool-cases (ltb c 32)) [
      | inl l ↦ control (ground arith) (rw (q, b, l) refl)
      | inr l ↦ plain (ground arith) (rw (q, b, l) refl)
    ]
  ]
]

push-some :
    (c : ℕ) (r : Option (Str × Str)) (text rest : Str)
    → push c r ≡ some (text, rest)
    → (t : Str) × (r ≡ some (t, rest)) × (text ≡ c ∷ t)
push-some c none text rest h = cc
push-some c (some (t, rest')) text rest h = (t, cc, cc)

push_escaped-some :
    (o : Option ℕ) (r : Option (Str × Str)) (text rest : Str)
    → push_escaped o r ≡ some (text, rest)
    → (c : ℕ) × (push c r ≡ some (text, rest))
push_escaped-some none r text rest h = cc
push_escaped-some (some c) r text rest h = (c, h)

-- The reader takes a byte for each byte of the text, and the closing quote.
read_chars-length :
    (escaped : Bool) (s text rest : Str)
    → read_chars escaped s ≡ some (text, rest)
    → length text + length rest + 1 ≤ length s
unfolding read_chars
read_chars-length escaped [] text rest h = cc
read_chars-length true (c ∷ s) text rest h =
    let (d, k) = push_escaped-some (lookup c escapes) (read_chars false s) text rest h in
    let (t, e, same) = push-some d (read_chars false s) text rest k in
    let shorter = read_chars-length false s t rest e in rw same (omega (arith, shorter))
read_chars-length false (c ∷ s) text rest h = elim (read c s) [
  | closing q e ↦
      let same = some-injective _ _ (sym e ∙ h) in
      omega
        (arith, ap (λ (p : Str × Str). length p.0) same, ap (λ (p : Str × Str). length p.1) same)
  | escape b e ↦
      let shorter = read_chars-length true s text rest (sym e ∙ h) in omega (arith, shorter)
  | control l e ↦ let bad = sym e ∙ h in cc
  | plain p e ↦
      let (t, k, same) = push-some c (read_chars false s) text rest (sym e ∙ h) in
      let shorter = read_chars-length false s t rest k in rw same (omega (arith, shorter))
]

-- What stands behind the text in the body.
abbrev ending : Str
ending = codes "\"}"

read_chars-Plain : (e : Str) → Plain e → read_chars false (e ++ ending) ≡ some (e, codes "}")
unfolding read_chars
read_chars-Plain [] h = refl
read_chars-Plain (c ∷ e) (h, hs) = elim (read c (e ++ ending)) [
  | closing q k ↦ absurd (h.0 q)
  | escape b k ↦ absurd (h.1 b)
  | control l k ↦ absurd (omega (arith, h.2, l))
  | plain p k ↦ k ∙ ap (push c) (read_chars-Plain e hs)
]

read_chars_iff : (e : Str) → (read_chars false (e ++ ending) ≡ some (e, codes "}")) ↔ Plain e
read_chars_iff e = (all_plain e, read_chars-Plain e)
  where
    too_short :
        (c : ℕ) (e : Str) (escaped : Bool)
        → read_chars escaped (e ++ ending) ≡ some (c ∷ e, codes "}")
        → ⊥
    too_short c e escaped h =
        let shorter = read_chars-length escaped (e ++ ending) (c ∷ e) (codes "}") h in
        omega (arith, shorter, length-append e ending)

    all_plain : (e : Str) → read_chars false (e ++ ending) ≡ some (e, codes "}") → Plain e
    all_plain [] h = tt
    all_plain (c ∷ e) h = elim (read c (e ++ ending)) [
      | closing q k ↦ let bad = sym k ∙ h in cc
      | escape b k ↦ absurd (too_short c e true (sym k ∙ h))
      | control l k ↦ let bad = sym k ∙ h in cc
      | plain p k ↦
          let (t, r, same) =
            push-some c (read_chars false (e ++ ending)) (c ∷ e) (codes "}") (sym k ∙ h) in
          (p, all_plain e (r ∙ ap (λ u. some (u, codes "}")) cc))
    ]

closed-some : (r : Option (Str × Str)) (e : Str) → closed r ≡ some e → r ≡ some (e, codes "}")
closed-some none e h = cc
closed-some (some (t, rest)) e h = elim (Bool-cases (str_eq rest (codes "}"))) [
  | inl q ↦
      let same = some-injective _ _ (rw q at h) in
      rw (str_eq→eq rest (codes "}") q) (ap (λ u. some (u, codes "}")) same)
  | inr q ↦ let bad = rw q at h in cc
]

-- The body of an error response is a JSON object whose one member, the message, is read back as the
-- text of the error, exactly if the text has no quote, no backslash and no control byte.
pub error_response-Plain : (e : Str) → (read_message (error_response e).body ≡ some e) ↔ Plain e
unfolding read_message error_response has_prefix
error_response-Plain e =
    let (forth, back) = read_chars_iff e in
    (
      λ h. forth (closed-some (read_chars false (e ++ ending)) e h),
      λ h. ap closed (back h) ∙ unfold str_eq in refl,
    )
