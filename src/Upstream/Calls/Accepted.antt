-- ===== src/Upstream/Calls/Accepted.antt =====
-- src/upstream.rs: which payloads of `ctx.http.get` and `ctx.http.pipe` are accepted, and what they give.
use stuntdouble.Common.{
  ℕ, ◌≤◌, ◌<◌, ◌≡◌, inl, inr, refl, ap, ◌∙◌, ◌*◌, true, Option, none, some, List, [], ◌∷◌, any, All,
  Result, ok, err, ok_or, and_then, arith, Bool-cases, Option-cases, Result-cases,
}
use stuntdouble.Common.Bytes.{Bytes, codes, ◌==ᵇ◌}
use stuntdouble.Json.{
  Json, null, bool, number, pos_int, object, string, array, Items, nil, cons, Members, find,
  find_str, as_u64, as_u64-some, keys,
}
use stuntdouble.Upstream.{Error}
use stuntdouble.Upstream.Calls.{
  GetCall, PipeCall, unknown_key, get_timeout, client_status, pipe_status, header_pair,
  header_pairs, pipe_headers, no_unknown, parse_get_call, parse_pipe_call,
}

-- Every key is one of these.
abbrev pub AreKeys : List Bytes → List Bytes → Type 0
AreKeys allowed names = All (λ name. any (λ n. name ==ᵇ n) allowed ≡ true) names

-- The status that a field gives: none if it is absent or null, and otherwise its integer, from 100 to
-- 599.
abbrev pub GivesStatus : Option Json → Option ℕ → Type 0
GivesStatus none given = given ≡ none
GivesStatus (some null) given = given ≡ none
GivesStatus (some value) given =
    (n : ℕ) × (value ≡ number (pos_int n)) × (given ≡ some n) × (100 ≤ n) × (n ≤ 599)

-- The row of a header, and the rows of some headers.
abbrev row_of : Bytes × Bytes → Json
row_of (name, value) = array (cons (string name) (cons (string value) nil))

abbrev pub rows_of : List (Bytes × Bytes) → Items
rows_of [] = nil
rows_of (pair ∷ pairs) = cons (row_of pair) (rows_of pairs)

-- The headers that a field gives: none if it is absent or null, and otherwise those of its rows.
abbrev pub GivesHeaders : Option Json → List (Bytes × Bytes) → Type 0
GivesHeaders none given = given ≡ []
GivesHeaders (some null) given = given ≡ []
GivesHeaders (some value) given = value ≡ array (rows_of given)

-- The timeout in nanoseconds that a field gives: none if it is absent, and otherwise that of its
-- positive number of milliseconds.
abbrev pub GivesTimeout : Option Json → Option ℕ → Type 0
GivesTimeout none given = given ≡ none
GivesTimeout (some value) given =
    (ms : ℕ) × (value ≡ number (pos_int ms)) × (0 < ms) × (given ≡ some (ms * 1000000))

unknown_key-AreKeys :
    (allowed names : List Bytes) → unknown_key allowed names ≡ none → AreKeys allowed names
unfolding unknown_key
unknown_key-AreKeys allowed [] h = tt
unknown_key-AreKeys allowed (name ∷ names) h = elim (Bool-cases (any (λ n. name ==ᵇ n) allowed)) [
  | inl known ↦ (known, unknown_key-AreKeys allowed names (rw (unknown_key, known) at h))
  | inr other ↦ absurd (cc (rw (unknown_key, other) at h))
]

client_status-ok :
    (value : Json) (given : Option ℕ)
    → client_status (as_u64 value) ≡ ok given
    → (n : ℕ) × (value ≡ number (pos_int n)) × (given ≡ some n) × (100 ≤ n) × (n ≤ 599)
client_status-ok value given h = elim (Option-cases (as_u64 value)) [
  | inl bad ↦ absurd (cc (rw bad at h))
  | inr (n, good) ↦
      let known = rw good at h in
      (
        n,
        as_u64-some value n good,
        ground (arith, known),
        ground (arith, known),
        ground (arith, known),
      )
]

pipe_status-GivesStatus :
    (value : Option Json) (given : Option ℕ)
    → pipe_status value ≡ ok given
    → GivesStatus value given
unfolding pipe_status
pipe_status-GivesStatus none given h = ground (arith, h)
pipe_status-GivesStatus (some null) given h = ground (arith, h)
pipe_status-GivesStatus (some (bool b)) given h = client_status-ok (bool b) given h
pipe_status-GivesStatus (some (number n)) given h = client_status-ok (number n) given h
pipe_status-GivesStatus (some (string s)) given h = client_status-ok (string s) given h
pipe_status-GivesStatus (some (array xs)) given h = client_status-ok (array xs) given h
pipe_status-GivesStatus (some (object m)) given h = client_status-ok (object m) given h

get_timeout-GivesTimeout :
    (value : Option Json) (given : Option ℕ)
    → get_timeout value ≡ ok given
    → GivesTimeout value given
unfolding get_timeout
get_timeout-GivesTimeout none given h = ground (arith, h)
get_timeout-GivesTimeout (some value) given h = elim (Option-cases (as_u64 value)) [
  | inl bad ↦ absurd (cc (rw (get_timeout, bad) at h))
  | inr (ms, good) ↦
      let known = rw (get_timeout, good) at h in
      (ms, as_u64-some value ms good, ground (arith, known), ground (arith, known))
]

-- Both steps of a chain that succeeds have succeeded.
and_then-ok :
    {A B : Type 0} (r : Result A Error) (f : A → Result B Error) (b : B)
    → and_then r f ≡ ok b
    → (a : A) × (r ≡ ok a) × (f a ≡ ok b)
and_then-ok (ok a) f b h = (a, refl, h)
and_then-ok (err e) f b h = cc

ok_or-ok : {A : Type 0} (o : Option A) (e : Error) (a : A) → ok_or o e ≡ ok a → o ≡ some a
ok_or-ok none e a h = cc
ok_or-ok (some x) e a h = ground (arith, h)

header_pair-ok : (row : Json) (pair : Bytes × Bytes) → header_pair row ≡ ok pair → row ≡ row_of pair
unfolding header_pair
header_pair-ok (array (cons (string name) (cons (string value) nil))) pair h =
    let same : (name, value) ≡ pair = ground (arith, h) in rw (← same) refl
header_pair-ok _ pair h = cc

header_pairs-ok :
    (rows : Items) (pairs : List (Bytes × Bytes))
    → header_pairs rows ≡ ok pairs
    → rows ≡ rows_of pairs
unfolding header_pairs
header_pairs-ok nil pairs h = let same : [] ≡ pairs = ground (arith, h) in rw (← same) refl
header_pairs-ok (cons row rows) pairs h =
    let (pair, first, h1) = and_then-ok _ _ pairs h in
    elim (Result-cases (header_pairs rows)) [
      | inr (e, bad) ↦ absurd (cc (rw bad at h1))
      | inl (rest, good) ↦
          let same : pair ∷ rest ≡ pairs = ground (arith, rw good at h1) in
          rw (← same) (
            ap (λ r. cons r rows) (header_pair-ok row pair first)
            ∙ ap (cons (row_of pair)) (header_pairs-ok rows rest good))
    ]

pipe_headers-GivesHeaders :
    (value : Option Json) (given : List (Bytes × Bytes))
    → pipe_headers value ≡ ok given
    → GivesHeaders value given
unfolding pipe_headers
pipe_headers-GivesHeaders none given h = ground (arith, h)
pipe_headers-GivesHeaders (some null) given h = ground (arith, h)
pipe_headers-GivesHeaders (some (array rows)) given h = ap array (header_pairs-ok rows given h)
pipe_headers-GivesHeaders (some (bool b)) given h = absurd (cc h)
pipe_headers-GivesHeaders (some (number n)) given h = absurd (cc h)
pipe_headers-GivesHeaders (some (string s)) given h = absurd (cc h)
pipe_headers-GivesHeaders (some (object m)) given h = absurd (cc h)

no_unknown-AreKeys :
    (debug : Bytes → Bytes) (call : Bytes) (allowed : List Bytes) (fields : Members) (u : Unit {0})
    → no_unknown debug call allowed fields ≡ ok u
    → AreKeys allowed (keys fields)
unfolding no_unknown
no_unknown-AreKeys debug call allowed fields u h =
    elim (Option-cases (unknown_key allowed (keys fields))) [
      | inl fine ↦ unknown_key-AreKeys allowed (keys fields) fine
      | inr (key, found) ↦ absurd (cc (rw (no_unknown, found) at h))
    ]

module _ (debug : Bytes → Bytes) (fields : Members) where
  -- A pipe payload that is accepted has no other keys than url, status and headers. Its url is a text.
  -- Its status is absent or null, or an integer from 100 to 599, and its headers are absent or null, or
  -- rows of two texts; the call has that url, that status and those headers.
  pub parse_pipe_call-accepted :
      (call : PipeCall)
      → parse_pipe_call debug (object fields) ≡ ok call
      → AreKeys (codes "url" ∷ codes "status" ∷ codes "headers" ∷ []) (keys fields)
        × (find_str (codes "url") fields ≡ some call.pipe_url)
        × GivesStatus (find (codes "status") fields) call.status
        × GivesHeaders (find (codes "headers") fields) call.headers
  unfolding parse_pipe_call
  parse_pipe_call-accepted call h =
      let (known, k, h1) = and_then-ok _ _ call h in
      let (url, u, h2) = and_then-ok _ _ call h1 in
      let (status, s, h3) =
        and_then-ok (pipe_status (find (codes "status") fields))
          (λ status.
            and_then (pipe_headers (find (codes "headers") fields))
              (λ headers. ok (record { pipe_url = url; status = status; headers = headers })))
          call h2 in
      let (headers, rows, h4) =
        and_then-ok (pipe_headers (find (codes "headers") fields))
          (λ headers. ok (record { pipe_url = url; status = status; headers = headers })) call h3 in
      let same : record { pipe_url = url; status = status; headers = headers } ≡ call =
        ground (arith, h4) in
      rw (← same) (
        no_unknown-AreKeys debug _ _ fields known k,
        ok_or-ok _ _ url u,
        pipe_status-GivesStatus _ status s,
        pipe_headers-GivesHeaders _ headers rows,
      )

  -- A get payload that is accepted has no other keys than url and timeout_ms. Its url is a text, and its
  -- timeout is absent or a positive integer; the call has that url and that timeout, in nanoseconds.
  pub parse_get_call-accepted :
      (call : GetCall)
      → parse_get_call debug (object fields) ≡ ok call
      → AreKeys (codes "url" ∷ codes "timeout_ms" ∷ []) (keys fields)
        × (find_str (codes "url") fields ≡ some call.url)
        × GivesTimeout (find (codes "timeout_ms") fields) call.timeout
  unfolding parse_get_call
  parse_get_call-accepted call h =
      let (known, k, h1) = and_then-ok _ _ call h in
      let (url, u, h2) = and_then-ok _ _ call h1 in
      let (timeout, t, h3) = and_then-ok _ _ call h2 in
      let same : record { url = url; timeout = timeout } ≡ call = ground (arith, h3) in
      rw (← same) (
        no_unknown-AreKeys debug _ _ fields known k,
        ok_or-ok _ _ url u,
        get_timeout-GivesTimeout _ timeout t,
      )
