-- ===== src/Server/Tests.antt =====
-- Small responses and relays, and the theorems applied to them.
use stuntdouble.Common.{
  ℕ, zero, suc, ◌+◌, ◌≡◌, ◌↔◌, ◌⊎◌, min, refl, ap, true, false, none, some, List, [], ◌∷◌, arith,
  length, length-take, take, drop,
}
use stuntdouble.Common.Bytes.{Bytes, codes}
use stuntdouble.Json.{Json}
use stuntdouble.Matcher.{Route, allowed_methods, split}
use stuntdouble.Matcher.Methods.{FitsSome}
use stuntdouble.Files.{FileBody, file_error}
use stuntdouble.Script.Record.{Outcome, text}
use stuntdouble.Server.Headers.{Http, Headers}
use stuntdouble.Server.Response.{not_found}
use stuntdouble.Server.Relay.{Relay, relay_file_stream, seek_first, stop}
use stuntdouble.Server.Relay.Delivered.{IsFile, Ends, relay_file_stream-Ends}
use stuntdouble.Server.Fallback.{MatchKind, method_not_allowed, classify, handle_unmatched}
use stuntdouble.Server.Fallback.Checked.{IsChecked, handle_unmatched-IsChecked}

abbrev http : Http
http = record {
  header_name = λ s. some s;
  header_value = λ s. some s;
  to_str = λ s. some s;
  debug = λ s. s;
}

abbrev file : FileBody ℕ
file = record {
  file = 0;
  size = 10;
  offset = 0;
  len = 10;
  call = record { index = 0; started = 0; finished = false };
  guard = none;
}

abbrev asked : Headers
asked = (codes "range", codes "bytes=2-4") ∷ []

abbrev fine : ℕ
fine = 200

abbrev no_json : Json → Bytes
no_json j = []

-- A file of five bytes that gives two at a time, and a client that takes everything. The world is the
-- position.
abbrev contents : Bytes
contents = codes "hello"

abbrev relay : Relay
relay = record {
  World = ℕ;
  seek = λ n w. (true, n);
  read = λ n w. let got = take (min n 2) (drop w contents) in (some got, w + length got);
  send = λ bytes w. (true, w);
}

take-length : (k : ℕ) (s : Bytes) → take k s ≡ take (length (take k s)) s
take-length zero s = refl
take-length (suc k) [] = refl
take-length (suc k) (c ∷ s) = ap (λ t. c ∷ t) (take-length k s)

relay-IsFile : IsFile relay contents (λ w. w)
relay-IsFile = record {
  seeks = λ n w e. refl;
  reads = λ n w bytes e.
      let same : take (min n 2) (drop w contents) ≡ bytes = ground (arith, e) in
      let few = length-take (min n 2) (drop w contents) in
      (
        rw (← same) (omega (arith, few)),
        rw (← same) (take-length (min n 2) (drop w contents)),
        rw (← same) refl,
      );
  sends = λ bytes w. refl;
}

relay_file_stream-Ends_example :
    (((seek_first relay 1 0).0 ≡ false)
      × (relay_file_stream relay 1 3 0
          ≡ some (stop relay file_error 0 true (seek_first relay 1 0).1)))
    ⊎ Ends relay contents (λ w. w) relay-IsFile 1 0 3 (relay_file_stream relay 1 3 0)
relay_file_stream-Ends_example =
    relay_file_stream-Ends relay contents (λ w. w) relay-IsFile 1 3 0 (omega arith) refl

abbrev routes : List Route
routes = record { name = none; method = codes "GET"; path = codes "/a"; script = codes "a.js" } ∷ []

abbrev answer : MatchKind → List Bytes → Outcome ℕ ℕ
answer kind allowed = record {
  response =
      some (record { status = 405; headers = (codes "allow", codes "X") ∷ []; body = text [] });
  logs = [];
  error = none;
}

handle_unmatched-IsChecked_example :
    let allowed = allowed_methods routes (codes "/a") in
    let kind = classify allowed in
    ((kind ≡ method_not_allowed) ↔ FitsSome routes (split (codes "/a")))
    × IsChecked kind allowed
        (answer kind allowed).response
        (answer kind allowed).error
        (handle_unmatched routes (codes "/a") true answer)
    × (handle_unmatched routes (codes "/a") false answer ≡ not_found)
handle_unmatched-IsChecked_example = handle_unmatched-IsChecked routes (codes "/a") answer
