-- ===== src/Matcher.antt =====
-- src/matcher.rs: which route answers a request, and what its parameters are.
pub mod Decode
pub mod Segments
pub mod Routes
pub mod Methods
mod Tests
use stuntdouble.Common.{
  ℕ, suc, ◌+◌, ◌*◌, ◌-◌, Bool, true, false, ◌&&◌, ◌||◌, not, Option, none, some, List, [], ◌∷◌,
  ◌++◌, leb, ltb, ◌==◌, if◌then◌else◌, length,
}
use stuntdouble.Common.Bytes.{Bytes, ◌==ᵇ◌, is_empty, split_on, strip_prefix, to_ascii_uppercase}
use stuntdouble.Common.Dict.{Dict, insert}
use stuntdouble.Common.Utf8.{from_utf8_lossy}

-- `config::Route`. The path of the script file is opaque text.
pub record Route : Type 0 where
  pub name : Option Bytes
  pub method : Bytes
  pub path : Bytes
  pub script : Bytes

pub record Match : Type 0 where
  pub route_index : ℕ
  pub params : Dict Bytes

abbrev keep_nonempty : List Bytes → List Bytes
keep_nonempty [] = []
keep_nonempty (part ∷ parts) =
    let rest = keep_nonempty parts in if is_empty part then rest else part ∷ rest

pub split : Bytes → List Bytes
unfolding split_on
split value = keep_nonempty (split_on b'/' value)

-- `char::to_digit(16)`
pub hex_digit : ℕ → Option ℕ
hex_digit c =
    if leb b'0' c && leb c b'9'
    then some (c - b'0')
    else if leb b'a' c && leb c b'f'
    then some (c - b'a' + 10)
    else if leb b'A' c && leb c b'F'
    then some (c - b'A' + 10)
    else none

abbrev two_digits : Option ℕ → Option ℕ → Option ℕ
two_digits (some hi) (some lo) = some (hi * 16 + lo)
two_digits _ _ = none

-- `u8::from_str_radix(h, 16)` of two bytes. It accepts a leading plus sign.
pub hex_byte : ℕ → ℕ → Option ℕ
unfolding hex_digit
hex_byte a b = if a == b'+' then hex_digit b else two_digits (hex_digit a) (hex_digit b)

-- The loop of `percent_decode`, before the bytes are read as UTF-8.
pub decode_bytes : Bytes → Bytes
decode_bytes (c ∷ a ∷ b ∷ rest) =
    let skipped = decode_bytes rest in
    let kept = decode_bytes (a ∷ b ∷ rest) in
    if c == b'%'
    then elim (hex_byte a b) [ some byte ↦ byte ∷ skipped | none ↦ c ∷ kept ]
    else c ∷ kept
decode_bytes (c ∷ a ∷ []) = c ∷ a ∷ []
decode_bytes (c ∷ []) = c ∷ []
decode_bytes [] = []

pub percent_decode : Bytes → Bytes
unfolding decode_bytes hex_byte
percent_decode bytes = from_utf8_lossy (decode_bytes bytes)

-- One round of the loop of `match_segments`; `none` is its early return.
pub match_one : Bytes → Bytes → Dict Bytes → Option (Dict Bytes)
match_one expected actual params = elim (strip_prefix b':' expected) [
  | some name ↦ if is_empty name then none else some (insert name (percent_decode actual) params)
  | none ↦ if expected ==ᵇ actual then some params else none
]

-- The loop, over the zipped lists.
pub match_each : List Bytes → List Bytes → Dict Bytes → Option (Dict Bytes)
match_each (expected ∷ pattern) (actual ∷ segments) params =
    elim (match_one expected actual params) [
      | none ↦ none
      | some captured ↦ match_each pattern segments captured
    ]
match_each _ _ params = some params

pub match_segments : Bytes → List Bytes → Option (Dict Bytes)
match_segments pattern segments =
    if length (split pattern) == length segments
    then match_each (split pattern) segments []
    else none

-- The loop of `match_route`, from the route with this index.
pub find_route : ℕ → List Route → Bytes → List Bytes → Option Match
find_route index [] method segments = none
find_route index (route ∷ routes) method segments =
    let later = find_route (suc index) routes method segments in
    if not (route.method ==ᵇ method) then later else elim (match_segments route.path segments) [
      | some params ↦ some (record { route_index = index; params = params })
      | none ↦ later
    ]

pub match_route : List Route → Bytes → Bytes → Option Match
match_route routes method path = find_route 0 routes (to_ascii_uppercase method) (split path)

abbrev pub contains : List Bytes → Bytes → Bool
contains [] m = false
contains (x ∷ xs) m = x ==ᵇ m || contains xs m

-- The loop of `allowed_methods`: `seen` is the hash set, `methods` the answer so far.
pub collect_methods : List Route → List Bytes → List Bytes → List Bytes → List Bytes
collect_methods [] segments seen methods = methods
collect_methods (route ∷ routes) segments seen methods =
    let upper = to_ascii_uppercase route.method in
    let skip = collect_methods routes segments seen methods in
    let add = collect_methods routes segments (upper ∷ seen) (methods ++ upper ∷ []) in
    elim (match_segments route.path segments) [
      | none ↦ skip
      | some _ ↦ if contains seen upper then skip else add
    ]

pub allowed_methods : List Route → Bytes → List Bytes
allowed_methods routes path = collect_methods routes (split path) [] []

abbrev pub is_none_left : List Bytes → Bool
is_none_left [] = true
is_none_left (_ ∷ _) = false

unfoldable pub has_path_match : List Route → Bytes → Bool
has_path_match routes path = not (is_none_left (allowed_methods routes path))
