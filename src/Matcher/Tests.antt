-- ===== src/Matcher/Tests.antt =====
-- Runs of the matcher at concrete requests, and the theorems applied to them.
use stuntdouble.Common.{ℕ, arith, ◌≡◌, ◌↔◌, refl, Bool, false, none, some, List, [], ◌∷◌, All}
use stuntdouble.Common.Bytes.{Bytes, codes, to_ascii_uppercase, split_on}
use stuntdouble.Common.Dict.{lookup, insert, remove}
use stuntdouble.Common.Utf8.{is_utf8, from_utf8_lossy}
use stuntdouble.Matcher.{
  Route, Match, split, match_segments, match_route, allowed_methods, has_path_match, percent_decode,
  match_one, match_each, find_route, collect_methods, hex_byte, decode_bytes, hex_digit,
}
use stuntdouble.Matcher.Decode.{percent_encode, percent_decode-percent_encode}
use stuntdouble.Matcher.Segments.{FitAll, param, match_segments-param}
use stuntdouble.Matcher.Routes.{Answers, IsFirst, match_route-IsFirst, match_route-none_iff}
use stuntdouble.Matcher.Methods.{nub, fitting_methods, allowed_methods-nub}

abbrev item_route : Route
item_route = record {
  name = none;
  method = codes "GET";
  path = codes "/items/:id";
  script = codes "item.js";
}

abbrev new_route : Route
new_route = record {
  name = none;
  method = codes "GET";
  path = codes "/items/new";
  script = codes "new.js";
}

abbrev post_route : Route
post_route = record {
  name = none;
  method = codes "POST";
  path = codes "/items/:id";
  script = codes "post.js";
}

abbrev routes : List Route
routes = item_route ∷ new_route ∷ post_route ∷ []

matcher_runs : Unit {0}
unfolding split split_on match_segments match_route match_one match_each find_route percent_decode
    decode_bytes hex_byte hex_digit allowed_methods collect_methods has_path_match lookup insert
    remove from_utf8_lossy to_ascii_uppercase
matcher_runs = tt

abbrev new_found : Match
new_found = record { route_index = 0; params = (codes "id", codes "new") ∷ [] }

-- The earlier declared parameter route shadows the later literal one.
shadow_test : match_route routes (codes "get") (codes "/items//new/") ≡ some new_found
unfolding matcher_runs
shadow_test = refl

missing_test : match_route routes (codes "PUT") (codes "/items/new") ≡ none
unfolding matcher_runs
missing_test = refl

methods_test : allowed_methods routes (codes "/items/7") ≡ codes "GET" ∷ codes "POST" ∷ []
unfolding matcher_runs
methods_test = refl

decode_test : percent_decode (codes "a%20b%zz%4") ≡ codes "a b%zz%4"
unfolding matcher_runs
decode_test = refl

-- A plus sign passes for the first digit of an escape.
plus_test : percent_decode (codes "%+5") ≡ 5 ∷ []
unfolding matcher_runs
plus_test = refl

captured_test :
    match_segments (codes "/items/:id") (codes "items" ∷ codes "a%2Fb" ∷ [])
    ≡ some ((codes "id", codes "a/b") ∷ [])
unfolding matcher_runs
captured_test = refl

match_route-IsFirst_example :
    IsFirst
      (to_ascii_uppercase (codes "get"))
      (split (codes "/items//new/"))
      routes
      0
      ((codes "id", codes "new") ∷ [])
match_route-IsFirst_example =
    match_route-IsFirst routes (codes "get") (codes "/items//new/") new_found shadow_test

match_route-none_iff_example :
    (match_route routes (codes "PUT") (codes "/items/new") ≡ none)
    ↔ All
        (λ route. ¬ Answers (to_ascii_uppercase (codes "PUT")) (split (codes "/items/new")) route)
        routes
match_route-none_iff_example = match_route-none_iff routes (codes "PUT") (codes "/items/new")

match_segments-param_example :
    FitAll (split (codes "/items/:id")) (codes "items" ∷ codes "a%2Fb" ∷ [])
    × ((name : Bytes)
        → lookup name ((codes "id", codes "a/b") ∷ [])
          ≡ param name (split (codes "/items/:id")) (codes "items" ∷ codes "a%2Fb" ∷ []) none)
match_segments-param_example =
    match_segments-param (codes "/items/:id") (codes "items" ∷ codes "a%2Fb" ∷ [])
      ((codes "id", codes "a/b") ∷ []) captured_test

allowed_methods-nub_example :
    allowed_methods routes (codes "/items/7")
    ≡ nub (fitting_methods routes (split (codes "/items/7")))
allowed_methods-nub_example = allowed_methods-nub routes (codes "/items/7")

abbrev never : ℕ → Bool
never c = false

percent_decode-percent_encode_example :
    percent_decode (percent_encode never (codes "a%")) ≡ codes "a%"
unfolding is_utf8
percent_decode-percent_encode_example =
    percent_decode-percent_encode never (codes "a%") refl (omega arith, (omega arith, tt)) refl
