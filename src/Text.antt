-- ===== src/Text.antt =====
-- Go strings as lists of bytes, with the functions of package strings that the service calls:
-- ==, Contains, TrimRight, Replace and SplitN with a separator of one byte, Join of two parts.
pub mod Regex
pub mod Matching
pub mod Search
pub mod Swap
pub mod Itoa
pub mod Clean
use Prim.Native.Char.{code}
use aggregate_concept_transf.Common.{
  ℕ, String, List, [], ◌∷◌, Bool, true, false, ◌&&◌, ◌||◌, ◌==◌, if◌then◌else◌, ◌≡◌, refl, ◌↔◌,
  arith,
}

-- The bytes of a string.
abbrev pub Str : Type 0
Str = List ℕ

-- The bytes of an ASCII literal. `String` has its own `[]` and `∷`.
abbrev pub codes : String → Str
codes String.[] = []
codes (String.◌∷◌ c s) = code c ∷ codes s

-- s == t
unfoldable pub str_eq : Str → Str → Bool
str_eq [] [] = true
str_eq (x ∷ xs) (y ∷ ys) = x == y && str_eq xs ys
str_eq [] (_ ∷ _) = false
str_eq (_ ∷ _) [] = false

pub str_eq→eq : (s t : Str) → str_eq s t ≡ true → s ≡ t
unfolding str_eq
str_eq→eq [] [] h = refl
str_eq→eq (x ∷ xs) (y ∷ ys) h = ground (arith, str_eq→eq xs ys)
str_eq→eq [] (_ ∷ _) h = cc
str_eq→eq (_ ∷ _) [] h = cc

pub str_eq_refl : (s : Str) → str_eq s s ≡ true
unfolding str_eq
str_eq_refl [] = refl
str_eq_refl (x ∷ xs) = ground (arith, str_eq_refl xs)

pub str_eq_iff : (s t : Str) → (str_eq s t ≡ true) ↔ (s ≡ t)
str_eq_iff s t = (str_eq→eq s t, λ e. rw e (str_eq_refl t))

-- s == ""
unfoldable pub is_empty : Str → Bool
is_empty [] = true
is_empty (_ ∷ _) = false

-- strings.HasPrefix, the test that strings.Contains makes at each position.
unfoldable pub has_prefix : Str → Str → Bool
has_prefix s [] = true
has_prefix [] (_ ∷ _) = false
has_prefix (x ∷ s) (y ∷ p) = x == y && has_prefix s p

-- strings.Contains(s, sub)
unfoldable pub contains_text : Str → Str → Bool
unfolding has_prefix
contains_text [] sub = has_prefix [] sub
contains_text (x ∷ s) sub = has_prefix (x ∷ s) sub || contains_text s sub

-- Whether a byte stands in a cutset.
unfoldable pub has_byte : Str → ℕ → Bool
has_byte [] c = false
has_byte (x ∷ cutset) c = x == c || has_byte cutset c

-- strings.TrimRight(s, cutset): all trailing bytes that stand in the cutset go.
unfoldable pub trim_right : Str → Str → Str
unfolding has_byte is_empty
trim_right [] cutset = []
trim_right (x ∷ s) cutset =
    let rest = trim_right s cutset in if is_empty rest && has_byte cutset x then [] else x ∷ rest

-- strings.Replace(s, old, new, -1) for an old and a new of one byte
unfoldable pub replace_byte : ℕ → ℕ → Str → Str
replace_byte old new [] = []
replace_byte old new (x ∷ s) = (if x == old then new else x) ∷ replace_byte old new s

-- A byte in front of the first part.
push_head : ℕ → List Str → List Str
push_head x [] = []
push_head x (part ∷ parts) = (x ∷ part) ∷ parts

-- strings.SplitN(s, sep, 2): the part before the first separator, and the rest if there is one.
unfoldable pub split_two : ℕ → Str → List Str
unfolding push_head
split_two sep [] = [] ∷ []
split_two sep (x ∷ s) =
    let rest = split_two sep s in if x == sep then [] ∷ s ∷ [] else push_head x rest
