-- ===== src/Upstream/Calls.antt =====
-- src/upstream.rs: the payloads of `ctx.http.get` and `ctx.http.pipe`, checked on the host's side.
pub mod Accepted
use stuntdouble.Common.{
  ℕ, ◌≤◌, ◌<◌, ◌≡◌, inl, inr, refl, ap, ◌∙◌, ◌*◌, true, ◌&&◌, Option, none, some, List, [], ◌∷◌,
  ◌++◌, ltb, leb, if◌then◌else◌, any, All, Result, ok, err, ok_or, and_then, map_ok, arith,
  Bool-cases, Option-cases, Result-cases,
}
use stuntdouble.Common.Bytes.{Bytes, codes, ◌==ᵇ◌}
use stuntdouble.Json.{
  Json, null, bool, number, pos_int, object, string, array, Items, nil, cons, Members, find,
  find_str, as_u64, as_u64-some, keys,
}
use stuntdouble.State.{from_millis}
use stuntdouble.Upstream.{Error, policy}

pub record GetCall : Type 0 where
  pub url : Bytes
  pub timeout : Option ℕ

pub record PipeCall : Type 0 where
  pub pipe_url : Bytes
  pub status : Option ℕ
  pub headers : List (Bytes × Bytes)

-- The first key that is not expected, in the order of the map.
unfoldable pub unknown_key : List Bytes → List Bytes → Option Bytes
unknown_key allowed [] = none
unknown_key allowed (key ∷ rest) =
    let later = unknown_key allowed rest in
    if any (λ name. key ==ᵇ name) allowed then later else some key

abbrev positive_ms : Option ℕ → Result (Option ℕ) Error
positive_ms none = err (policy (codes "ctx.http.get: opts.timeout_ms must be a positive integer"))
positive_ms (some ms) =
    if ltb 0 ms
    then ok (some (from_millis ms))
    else err (policy (codes "ctx.http.get: opts.timeout_ms must be a positive integer"))

unfoldable pub get_timeout : Option Json → Result (Option ℕ) Error
get_timeout none = ok none
get_timeout (some value) = positive_ms (as_u64 value)

-- A client status: `u16::try_from`, then the range.
abbrev client_status : Option ℕ → Result (Option ℕ) Error
client_status none = err (policy (codes "ctx.http.pipe: status must be an integer in [100, 599]"))
client_status (some n) =
    if leb n 65535 && (leb 100 n && leb n 599)
    then ok (some n)
    else err (policy (codes "ctx.http.pipe: status must be an integer in [100, 599]"))

unfoldable pub pipe_status : Option Json → Result (Option ℕ) Error
pipe_status none = ok none
pipe_status (some null) = ok none
pipe_status (some value) = client_status (as_u64 value)

abbrev bad_pairs : Error
bad_pairs = policy (codes "ctx.http.pipe: headers must be [name, value] pairs")

-- One row: an array of two texts.
unfoldable pub header_pair : Json → Result (Bytes × Bytes) Error
header_pair (array (cons (string name) (cons (string value) nil))) = ok (name, value)
header_pair _ = err bad_pairs

unfoldable pub header_pairs : Items → Result (List (Bytes × Bytes)) Error
header_pairs nil = ok []
header_pairs (cons row rows) =
    and_then (header_pair row) λ pair. map_ok (λ pairs. pair ∷ pairs) (header_pairs rows)

unfoldable pub pipe_headers : Option Json → Result (List (Bytes × Bytes)) Error
pipe_headers none = ok []
pipe_headers (some null) = ok []
pipe_headers (some (array rows)) = header_pairs rows
pipe_headers (some _) = err bad_pairs

module _ (debug : Bytes → Bytes) where
  unfoldable pub no_unknown : Bytes → List Bytes → Members → Result (Unit {0}) Error
  no_unknown call allowed fields = elim (unknown_key allowed (keys fields)) [
    | none ↦ ok tt
    | some key ↦ err (policy (call ++ codes ": unknown opts key " ++ debug key))
  ]

  unfoldable pub parse_get_call : Json → Result GetCall Error
  parse_get_call (object fields) =
      and_then (no_unknown (codes "ctx.http.get") (codes "url" ∷ codes "timeout_ms" ∷ []) fields)
        λ _.
          and_then
            (ok_or (find_str (codes "url") fields)
              (policy (codes "ctx.http.get: url must be a string")))
            λ url.
              and_then (get_timeout (find (codes "timeout_ms") fields))
                λ timeout. ok (record { url = url; timeout = timeout })
  parse_get_call _ = err (policy (codes "ctx.http.get: call payload must be an object"))

  unfoldable pub parse_pipe_call : Json → Result PipeCall Error
  parse_pipe_call (object fields) =
      and_then
        (no_unknown (codes "ctx.http.pipe") (codes "url" ∷ codes "status" ∷ codes "headers" ∷ [])
          fields)
        λ _.
          and_then
            (ok_or (find_str (codes "url") fields)
              (policy (codes "ctx.http.pipe: url must be a string")))
            λ url. and_then (pipe_status (find (codes "status") fields)) λ status.
              and_then (pipe_headers (find (codes "headers") fields))
                λ headers. ok (record { pipe_url = url; status = status; headers = headers })
  parse_pipe_call _ = err (policy (codes "ctx.http.pipe: call payload must be an object"))
