-- ===== src/Text/Regex.antt =====
-- regexp.MustCompile for the two patterns of the repository that are a fixed row of byte classes,
-- UUIDMatcher of concept/service.go and keyMatcher of sqs/client.go, and their FindAllString.
use aggregate_concept_transf.Common.{
  ℕ, zero, suc, ◌-◌, List, [], ◌∷◌, Bool, ◌&&◌, ◌||◌, ◌==◌, leb, if◌then◌else◌, Option, none, some,
  length,
}
use aggregate_concept_transf.Text.{Str}

-- A class of bytes: [0-9a-f], or one byte.
pub data Class : Type 0 where
  hex : Class
  byte : ℕ → Class

unfoldable pub is_hex : ℕ → Bool
is_hex c = (leb b'0' c && leb c b'9') || (leb b'a' c && leb c b'f')

unfoldable pub accepts : Class → ℕ → Bool
unfolding is_hex
accepts hex c = is_hex c
accepts (byte b) c = c == b

-- n hexadecimal digits, then the rest of the pattern.
abbrev pub hexes : ℕ → List Class → List Class
hexes zero p = p
hexes (suc n) p = hex ∷ hexes n p

-- [0-9a-f]{8}SEP[0-9a-f]{4}SEP[0-9a-f]{4}SEP[0-9a-f]{4}SEP[0-9a-f]{12}
abbrev pub uuid_pattern : ℕ → List Class
uuid_pattern sep =
    hexes 8 (byte sep ∷ hexes 4 (byte sep ∷ hexes 4 (byte sep ∷ hexes 4 (byte sep ∷ hexes 12 []))))

abbrev pub uuid_matcher : List Class
uuid_matcher = uuid_pattern b'-'

abbrev pub key_matcher : List Class
key_matcher = uuid_pattern b'/'

unfoldable pub cons_match : ℕ → Option (Str × Str) → Option (Str × Str)
cons_match x none = none
cons_match x (some (m, rest)) = some (x ∷ m, rest)

-- The match that starts at the first byte, and what follows it.
unfoldable pub match_here : List Class → Str → Option (Str × Str)
unfolding cons_match accepts
match_here [] s = some ([], s)
match_here (c ∷ p) [] = none
match_here (c ∷ p) (x ∷ s) = if accepts c x then cons_match x (match_here p s) else none

-- The search for at most `limit` matches: the leftmost first, none overlapping the one before.
-- `skip` is how many bytes of the last match are still ahead.
unfoldable pub find_from : List Class → (limit skip : ℕ) → Str → List Str
find_from p limit skip [] = []
find_from p zero skip (x ∷ s) = []
find_from p (suc limit) (suc skip) (x ∷ s) = find_from p (suc limit) skip s
find_from p (suc limit) zero (x ∷ s) = elim (match_here p (x ∷ s)) [
  | none ↦ find_from p (suc limit) zero s
  | some (m, _) ↦ m ∷ find_from p limit (length p - 1) s
]

-- FindAllString(s, limit); Go's nil is the empty list.
unfoldable pub find_all : List Class → ℕ → Str → List Str
unfolding find_from match_here
find_all p limit s = find_from p limit zero s
