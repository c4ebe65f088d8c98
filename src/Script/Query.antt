-- ===== src/Script/Query.antt =====
-- src/script.rs: `parse_query`, the decoded pairs of a raw query.
use stuntdouble.Common.{
  ℕ, ◌≡◌, refl, ◌∙◌, inl, inr, Bool, true, false, Option, none, some, List, [], ◌∷◌, map, ◌==◌,
  if◌then◌else◌, arith, Bool-cases,
}
use stuntdouble.Common.Bytes.{Bytes, split_on, is_empty, ◌==ᵇ◌}
use stuntdouble.Common.Text.{split_once}
use stuntdouble.Common.Dict.{Dict, lookup, insert, lookup-insert}
use stuntdouble.Matcher.{percent_decode}

-- `replace('+', " ")`
plus_to_space : Bytes → Bytes
plus_to_space s = map (λ c. if c == b'+' then b' ' else c) s

-- One pair of a query; without an equals sign the value is empty.
abbrev query_pair : Bytes → Bytes × Bytes
query_pair pair = elim (split_once b'=' pair) [
  | none ↦ (percent_decode (plus_to_space pair), percent_decode (plus_to_space []))
  | some (key, value) ↦ (percent_decode (plus_to_space key), percent_decode (plus_to_space value))
]

nonempty : List Bytes → List Bytes
nonempty [] = []
nonempty (s ∷ parts) = if is_empty s then nonempty parts else s ∷ nonempty parts

-- `collect` into a map: a later pair takes the place of an earlier one.
collect : List (Bytes × Bytes) → Dict Bytes → Dict Bytes
collect [] m = m
collect ((k, v) ∷ pairs) m = collect pairs (insert k v m)

pub query_pairs : Bytes → List (Bytes × Bytes)
query_pairs raw = map query_pair (nonempty (split_on b'&' raw))

pub parse_query : Bytes → Dict Bytes
parse_query raw = collect (query_pairs raw) []

-- The value of the last pair with a key, and a value to fall back to.
abbrev pub last_value : Bytes → List (Bytes × Bytes) → Option Bytes → Option Bytes
last_value k [] default = default
last_value k ((j, v) ∷ pairs) default = last_value k pairs (if j ==ᵇ k then some v else default)

lookup-collect :
    (k : Bytes) (pairs : List (Bytes × Bytes)) (m : Dict Bytes)
    → lookup k (collect pairs m) ≡ last_value k pairs (lookup k m)
unfolding collect
lookup-collect k [] m = refl
lookup-collect k ((j, v) ∷ pairs) m =
    lookup-collect k pairs (insert j v m) ∙ rw (lookup-insert j k v m) refl

-- A key of a query has the value of the last pair that gives it.
pub lookup-parse_query :
    (k raw : Bytes) → lookup k (parse_query raw) ≡ last_value k (query_pairs raw) none
unfolding parse_query stuntdouble.Common.Dict.lookup
lookup-parse_query k raw = lookup-collect k (query_pairs raw) []
