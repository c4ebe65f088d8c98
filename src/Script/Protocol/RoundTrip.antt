-- ===== src/Script/Protocol/RoundTrip.antt =====
-- src/script.rs: a script's result on its way from the worker to the host.
use stuntdouble.Common.{◌≡◌, ◌⊎◌, inl, inr, refl, false, Option, none, some, Result, ok, err}
use stuntdouble.Common.Bytes.{Bytes, codes}
use stuntdouble.Json
use stuntdouble.Json.{Json}
use stuntdouble.Script.Protocol.{
  Error, failed, timed_out, memory_limit_exceeded, capacity_exceeded, worker_terminated,
  no_response, upstream_unreachable, FinalErrorKind, memory_limit, timeout, dns, transport,
  FinalError, into_error, FinalResult, success, failure, report, from_upstream, serialize,
  deserialize, parse_error, parse_kind, kind_of, detail, error_value, shape,
}

parse_error-error_value :
    (kind : Option FinalErrorKind) (msg : Bytes)
    → let e : FinalError = record { kind = kind; message = msg } in
      parse_error (error_value e) ≡ some e
unfolding parse_error kind_of parse_kind Json.find Json.find_str
parse_error-error_value none msg = refl
parse_error-error_value (some memory_limit) msg = refl
parse_error-error_value (some timeout) msg = refl
parse_error-error_value (some dns) msg = refl
parse_error-error_value (some transport) msg = refl

shape-failure :
    (j : Json) (e : FinalError)
    → parse_error j ≡ some e
    → shape false none (some j) ≡ some (failure e)
shape-failure j e h = rw (shape, h) refl

-- Every result is read back from what is written of it.
pub deserialize-serialize : (r : FinalResult) → deserialize (serialize r) ≡ some r
unfolding deserialize serialize Json.find
deserialize-serialize (success result) = refl
deserialize-serialize (failure e) =
    shape-failure (error_value e) e (parse_error-error_value e.kind e.message)

-- The kind of an upstream failure is one of the three that the host knows.
abbrev pub IsKnown : Error → Type 0
IsKnown (upstream_unreachable msg kind) =
    (kind ≡ codes "timeout") ⊎ ((kind ≡ codes "dns") ⊎ (kind ≡ codes "transport"))
IsKnown _ = Unit

-- What the host makes of an error of the worker: the failures of the host itself are mere failures
-- there, with their detail as the message.
abbrev pub arrived : Error → Error
arrived timed_out = failed (detail timed_out)
arrived capacity_exceeded = failed (detail capacity_exceeded)
arrived worker_terminated = failed (detail worker_terminated)
arrived no_response = failed (detail no_response)
arrived e = e

-- What the host is told of the evaluation.
abbrev pub told : FinalResult → Result Json Error
told (success result) = ok result
told (failure e) = err (into_error e)

abbrev pub sent : Result Json Error → Result Json Error
sent (ok result) = ok result
sent (err e) = err (arrived e)

abbrev pub AreKnown : Result Json Error → Type 0
AreKnown (ok result) = Unit
AreKnown (err e) = IsKnown e

abbrev pub Arrives : Result Json Error → Option FinalResult → Type 0
Arrives r none = ⊥
Arrives r (some final) = (deserialize (serialize final) ≡ some final) × (told final ≡ sent r)

-- What the worker sends of its evaluation is read back by the host, which is then told the result, or
-- the error: the kind and the message of an upstream failure, the memory limit, the message of a
-- failed script, and every other error as a failed script with its detail. The kind of an upstream
-- failure must be one of the three that the protocol knows.
pub report-Arrives : (r : Result Json Error) → AreKnown r → Arrives r (report r)
unfolding report from_upstream into_error
report-Arrives (ok result) h = (deserialize-serialize _, refl)
report-Arrives (err (failed msg)) h = (deserialize-serialize _, refl)
report-Arrives (err timed_out) h = (deserialize-serialize _, refl)
report-Arrives (err memory_limit_exceeded) h = (deserialize-serialize _, refl)
report-Arrives (err capacity_exceeded) h = (deserialize-serialize _, refl)
report-Arrives (err worker_terminated) h = (deserialize-serialize _, refl)
report-Arrives (err no_response) h = (deserialize-serialize _, refl)
report-Arrives (err (upstream_unreachable msg kind)) (inl e) = rw e (deserialize-serialize _, refl)
report-Arrives (err (upstream_unreachable msg kind)) (inr (inl e)) =
    rw e (deserialize-serialize _, refl)
report-Arrives (err (upstream_unreachable msg kind)) (inr (inr e)) =
    rw e (deserialize-serialize _, refl)
