-- ===== src/Script/Protocol.antt =====
-- src/script.rs: the errors of a script, and the messages between the host and its worker.
pub mod RoundTrip
use stuntdouble.Common.{
  ℕ, Bool, true, false, Option, none, some, List, [], ◌∷◌, ◌++◌, if◌then◌else◌, Result, ok, err,
}
use stuntdouble.Common.Bytes.{Bytes, codes, ◌==ᵇ◌}
use stuntdouble.Json
use stuntdouble.Json.{
  Json, null, bool, string, array, nil, cons, object, member, end, Members, find, find_str, json,
  members_of,
}

pub data Error : Type 0 where
  failed : Bytes → Error
  timed_out : Error
  memory_limit_exceeded : Error
  capacity_exceeded : Error
  worker_terminated : Error
  no_response : Error
  -- `upstream_unreachable message kind`
  upstream_unreachable : Bytes → Bytes → Error

unfoldable pub class : Error → Bytes
class no_response = codes "script_no_response"
class (upstream_unreachable _ _) = codes "upstream_unreachable"
class _ = codes "script_error"

unfoldable pub status : Error → ℕ
status (upstream_unreachable _ _) = 502
status _ = 500

pub detail : Error → Bytes
detail (failed _) = codes "script execution failed"
detail timed_out = codes "script exceeded the configured timeout"
detail memory_limit_exceeded = codes "script exceeded the configured memory limit"
detail capacity_exceeded = codes "script worker capacity exhausted"
detail worker_terminated = codes "script worker terminated unexpectedly"
detail no_response = codes "script finished without calling ctx.respond"
detail (upstream_unreachable _ kind) =
    if kind ==ᵇ codes "timeout"
    then codes "upstream transport failure: timeout"
    else if kind ==ᵇ codes "dns"
    then codes "upstream transport failure: dns"
    else codes "upstream transport failure: transport"

pub data BridgeName : Type 0 where
  http_get : BridgeName
  http_pipe : BridgeName
  file : BridgeName
  upload : BridgeName
  state : BridgeName
  validate_headers : BridgeName
  crypto : BridgeName

abbrev pub bridge_str : BridgeName → Bytes
bridge_str http_get = codes "__sd_http_get"
bridge_str http_pipe = codes "__sd_http_pipe"
bridge_str file = codes "__sd_file"
bridge_str upload = codes "__sd_upload"
bridge_str state = codes "__sd_state"
bridge_str validate_headers = codes "__sd_validate_headers"
bridge_str crypto = codes "__sd_crypto"

pub data FinalErrorKind : Type 0 where
  memory_limit : FinalErrorKind
  timeout : FinalErrorKind
  dns : FinalErrorKind
  transport : FinalErrorKind

abbrev pub upstream_str : FinalErrorKind → Option Bytes
upstream_str memory_limit = none
upstream_str timeout = some (codes "timeout")
upstream_str dns = some (codes "dns")
upstream_str transport = some (codes "transport")

pub from_upstream : Bytes → Option FinalErrorKind
from_upstream kind =
    if codes "timeout" ==ᵇ kind
    then some timeout
    else if codes "dns" ==ᵇ kind
    then some dns
    else if codes "transport" ==ᵇ kind
    then some transport
    else none

-- `FinalErrorKind::into_error`; the kind of an upstream failure has a text.
abbrev kind_into_error : FinalErrorKind → Bytes → Error
kind_into_error memory_limit msg = memory_limit_exceeded
kind_into_error timeout msg = upstream_unreachable msg (codes "timeout")
kind_into_error dns msg = upstream_unreachable msg (codes "dns")
kind_into_error transport msg = upstream_unreachable msg (codes "transport")

pub record FinalError : Type 0 where
  pub kind : Option FinalErrorKind
  pub message : Bytes

abbrev from_kind : Option FinalErrorKind → Bytes → Error
from_kind none msg = failed msg
from_kind (some kind) msg = kind_into_error kind msg

-- `FinalError::into_error`
pub into_error : FinalError → Error
into_error e = from_kind e.kind e.message

pub data FinalResult : Type 0 where
  success : Json → FinalResult
  failure : FinalError → FinalResult

pub data WorkerMessage : Type 0 where
  host_call : BridgeName → Json → WorkerMessage
  final_result : FinalResult → WorkerMessage

-- What `run_job` sends for the result of an evaluation; none where it fails itself.
pub report : Result Json Error → Option FinalResult
report (ok result) = some (success result)
report (err (upstream_unreachable msg kind)) = elim (from_upstream kind) [
  | none ↦ none
  | some k ↦ some (failure (record { kind = some k; message = msg }))
]
report (err (failed msg)) = some (failure (record { kind = none; message = msg }))
report (err memory_limit_exceeded) =
    some (failure (record { kind = some memory_limit; message = detail memory_limit_exceeded }))
report (err error) = some (failure (record { kind = none; message = detail error }))

-- What the attributes of serde make of a kind and of a `FinalError`: names in snake case, and a kind
-- that is left out when there is none.
abbrev kind_name : FinalErrorKind → Bytes
kind_name memory_limit = codes "memory_limit"
kind_name timeout = codes "timeout"
kind_name dns = codes "dns"
kind_name transport = codes "transport"

abbrev kind_members : Option FinalErrorKind → List (Bytes × Json)
kind_members none = []
kind_members (some kind) = (codes "kind", string (kind_name kind)) ∷ []

abbrev pub error_value : FinalError → Json
error_value e = json (kind_members e.kind ++ (codes "message", string e.message) ∷ [])

parse_kind : Bytes → Option FinalErrorKind
parse_kind text =
    if text ==ᵇ codes "memory_limit"
    then some memory_limit
    else if text ==ᵇ codes "timeout"
    then some timeout
    else if text ==ᵇ codes "dns"
    then some dns
    else if text ==ᵇ codes "transport"
    then some transport
    else none

-- An absent kind and `null` are no kind; the outer `none` is a refusal. What serde derives reads a
-- variant as its name, or as an object with its name and `null`.
kind_of : Option Json → Option (Option FinalErrorKind)
kind_of none = some none
kind_of (some null) = some none
kind_of (some (string text)) = elim (parse_kind text) [ none ↦ none | some k ↦ some (some k) ]
kind_of (some (object (member text null end))) = elim (parse_kind text) [
  | none ↦ none
  | some k ↦ some (some k)
]
kind_of (some _) = none

-- The fields by name, or in the order of their declaration.
pub parse_error : Json → Option FinalError
parse_error (object m) = elim (kind_of (find (codes "kind") m)) [
  | none ↦ none
  | some kind ↦ elim (find_str (codes "message") m) [
    | none ↦ none
    | some msg ↦ some (record { kind = kind; message = msg })
  ]
]
parse_error (array (cons kind (cons (string msg) nil))) = elim (kind_of (some kind)) [
  | none ↦ none
  | some k ↦ some (record { kind = k; message = msg })
]
parse_error _ = none

-- `Serialize for FinalResult`: the members, the tag aside.
pub serialize : FinalResult → Members
serialize (success result) = members_of ((codes "ok", bool true) ∷ (codes "result", result) ∷ [])
serialize (failure error) =
    members_of ((codes "ok", bool false) ∷ (codes "error", error_value error) ∷ [])

-- `FinalResultWire`: `ok`, which must be a truth value, and all other members.
abbrev as_bool : Option Json → Option Bool
as_bool (some (bool b)) = some b
as_bool _ = none

-- The match of `Deserialize for FinalResult`, on the members `result` and `error`.
abbrev shape : Bool → Option Json → Option Json → Option FinalResult
shape true (some result) none = some (success result)
shape false none (some error) = elim (parse_error error) [ none ↦ none | some e ↦ some (failure e) ]
shape _ _ _ = none

pub deserialize : Members → Option FinalResult
deserialize m = elim (as_bool (find (codes "ok") m)) [
  | none ↦ none
  | some flag ↦ shape flag (find (codes "result") m) (find (codes "error") m)
]
