-- ===== src/Upstream/Tests.antt =====
-- Runs of the upstream loop against a small network, and the theorems applied to them.
use stuntdouble.Common.{
  ℕ, ◌+◌, ◌-◌, ◌/◌, ◌≤◌, ◌<◌, min, ◌≡◌, ◌↔◌, inl, inr, refl, Bool, true, false, Option, none, some,
  List, [], ◌∷◌, if◌then◌else◌, ◌==◌, length, Result, ok, err,
}
use stuntdouble.Common.Bytes.{Bytes, codes, to_ascii_lowercase, eq_ignore_ascii_case}
use stuntdouble.RequestLog.{update}
use stuntdouble.Upstream.{
  Net, Access, Error, policy, redirect, Session, budget, validate, validate_host, locate,
  decide_hop, fetch, follow, send_following_redirects,
}
use stuntdouble.Upstream.Budget.{wanted, budget-bounds}
use stuntdouble.Upstream.Allowed.{IsAllowed, validate_iff}
use stuntdouble.Json
use stuntdouble.Json.{Json, string, number, pos_int, object, array, cons, nil, members_of, find_str}
use stuntdouble.Upstream.Calls.{
  PipeCall, parse_get_call, parse_pipe_call, no_unknown, unknown_key, pipe_status, pipe_headers,
  header_pairs, header_pair, get_timeout,
}
use stuntdouble.Upstream.Calls.Accepted.{
  AreKeys, GivesStatus, GivesHeaders, GivesTimeout, parse_pipe_call-accepted,
  parse_get_call-accepted,
}
use stuntdouble.Upstream.Redirects.{IsRun, send_following_redirects-IsRun}

-- Url 9 answers 200, url 3 redirects without a target, url 1 redirects to itself, url 2 to url 7,
-- which is on another host, and every other url to url 9. The clock moves on at each reading.
abbrev net : Net
net = record {
  Url = ℕ;
  Response = ℕ;
  HeaderValue = ℕ;
  World = ℕ;
  Duration = ℕ;
  join = λ _ text. if length text == 0 then err (codes "empty") else ok (length text);
  scheme = λ _. codes "https";
  host = λ url. some (if url == 7 then codes "other.test" else codes "API.test");
  host_str = λ _. some (codes "api.test");
  path = λ _. codes "/";
  now = λ w. (w, w + 1);
  call = λ url _ _ w. (ok url, w);
  response_status = λ url. if url == 9 then 200 else 302;
  location = λ url. if url == 3 then none else some url;
  to_str = λ url.
      if url == 1
      then some (codes "1")
      else if url == 2
      then some (codes "1234567")
      else some (codes "123456789");
  debug = λ text. text;
  elapsed_ms = λ n. n;
}

abbrev access : Access
access = record {
  allow_hosts = codes "api.TEST" ∷ [];
  default_timeout = 500;
  script_deadline = 1000;
}

abbrev start : Session net
start = record { world = 0; calls = []; sent = [] }

upstream_runs : Unit {0}
unfolding send_following_redirects follow fetch decide_hop locate validate validate_host update
    eq_ignore_ascii_case to_ascii_lowercase budget
upstream_runs = tt

abbrev run : ℕ → Bool → Option (Result ℕ Error × Session net)
run url missing =
    send_following_redirects net access url 900 none (codes "ctx.http.get") redirect missing 0 start

-- What a run hands on, and the urls that it sent.
abbrev outcome : Option (Result ℕ Error × Session net) → Option (Result ℕ Error × List ℕ)
outcome none = none
outcome (some (answer, s)) = some (answer, s.sent)

followed_test : outcome (run 5 true) ≡ some (ok 9, 5 ∷ 9 ∷ [])
unfolding upstream_runs
followed_test = refl

limit_test :
    outcome (run 1 true)
    ≡ some (
      err (redirect (codes "ctx.http.get: redirect limit exceeded (max 3 hops)")),
      1 ∷ 1 ∷ 1 ∷ 1 ∷ [],
    )
unfolding upstream_runs
limit_test = refl

foreign_test :
    outcome (run 2 true)
    ≡ some (err (policy (codes "upstream host other.test is not in upstream.allow_hosts")), 2 ∷ [])
unfolding upstream_runs
foreign_test = refl

no_target_test : outcome (run 3 false) ≡ some (ok 3, 3 ∷ [])
unfolding upstream_runs
no_target_test = refl

IsAllowed-start : IsAllowed net access 5
unfolding to_ascii_lowercase
IsAllowed-start = (inr refl, (codes "API.test", refl, inl refl))

send_following_redirects-IsRun_example : IsRun net access true start 4 (run 5 true)
send_following_redirects-IsRun_example =
    send_following_redirects-IsRun net access 5 900 none (codes "ctx.http.get") redirect true 0
      start IsAllowed-start

validate_iff_example : (validate net access 7 policy ≡ ok tt) ↔ IsAllowed net access 7
validate_iff_example = validate_iff net access 7 policy

all_time_test : budget access (some 5000) 0 ≡ ok 900
unfolding upstream_runs
all_time_test = refl

budget-bounds_example :
    (0 < 900)
    × (900 ≤ wanted access (some 5000))
    × (0 + 900 ≤ 1000)
    × (1000 - 0 ≤ wanted access (some 5000) → 900 + min ((1000 - 0) / 10) 100000000 ≤ 1000 - 0)
budget-bounds_example = budget-bounds access (some 5000) 0 900 all_time_test

-- A pipe payload with a status and one header.
abbrev pipe_payload : Json.Members
pipe_payload = members_of (
    (codes "url", string (codes "https://a.test/"))
    ∷ (codes "status", number (pos_int 206))
    ∷ (
      codes "headers",
      array (cons (array (cons (string (codes "X-A")) (cons (string (codes "b")) nil))) nil),
    )
    ∷ [])

abbrev pipe_call : PipeCall
pipe_call = record {
  pipe_url = codes "https://a.test/";
  status = some 206;
  headers = (codes "X-A", codes "b") ∷ [];
}

abbrev plain : Bytes → Bytes
plain text = text

pipe_call_test : parse_pipe_call plain (object pipe_payload) ≡ ok pipe_call
unfolding parse_pipe_call no_unknown unknown_key pipe_status pipe_headers header_pairs header_pair
    Json.find_str Json.find
pipe_call_test = refl

get_call_test :
    parse_get_call plain (
      object (
        members_of
          ((codes "url", string (codes "u")) ∷ (codes "timeout_ms", number (pos_int 5)) ∷ [])))
    ≡ ok (record { url = codes "u"; timeout = some 5000000 })
unfolding parse_get_call no_unknown unknown_key get_timeout Json.find_str Json.find
get_call_test = refl

parse_pipe_call-accepted_example :
    AreKeys
      (codes "url" ∷ codes "status" ∷ codes "headers" ∷ [])
      (codes "url" ∷ codes "status" ∷ codes "headers" ∷ [])
    × (find_str (codes "url") pipe_payload ≡ some (codes "https://a.test/"))
    × GivesStatus (Json.find (codes "status") pipe_payload) (some 206)
    × GivesHeaders (Json.find (codes "headers") pipe_payload) ((codes "X-A", codes "b") ∷ [])
parse_pipe_call-accepted_example =
    parse_pipe_call-accepted plain pipe_payload pipe_call pipe_call_test

parse_get_call-accepted_example :
    AreKeys (codes "url" ∷ codes "timeout_ms" ∷ []) (codes "url" ∷ codes "timeout_ms" ∷ [])
    × (find_str (codes "url") (
          members_of
            ((codes "url", string (codes "u")) ∷ (codes "timeout_ms", number (pos_int 5)) ∷ []))
        ≡ some (codes "u"))
    × GivesTimeout
        (Json.find (codes "timeout_ms") (
          members_of
            ((codes "url", string (codes "u")) ∷ (codes "timeout_ms", number (pos_int 5)) ∷ [])))
        (some 5000000)
parse_get_call-accepted_example =
    parse_get_call-accepted plain
      (members_of
        ((codes "url", string (codes "u")) ∷ (codes "timeout_ms", number (pos_int 5)) ∷ []))
      (record { url = codes "u"; timeout = some 5000000 }) get_call_test
