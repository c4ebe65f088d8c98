-- ===== src/Script/Record.antt =====
-- src/script.rs: what the host makes of the record that a script leaves.
pub mod Reads
use stuntdouble.Common.{
  ℕ, Bool, true, false, Option, none, some, List, [], ◌∷◌, ltb, if◌then◌else◌, get_elem?, Result,
  ok, err,
}
use stuntdouble.Common.Bytes.{Bytes, codes}
use stuntdouble.Json
use stuntdouble.Json.{
  Json, null, bool, string, array, object, Items, nil, cons, items, get, get_str, as_str, as_u64,
}
use stuntdouble.Files.{FileBody, Streams, take_stream}
use stuntdouble.Script.Protocol.{Error, failed, no_response}

pub record LogRecord : Type 0 where
  pub level : Bytes
  pub message : Bytes

-- The body of a piped upstream answer and an open file are types of other components.
pub data ResponseBody (Pipe File : Type 0) : Type 0 where
  text : Bytes → ResponseBody Pipe File
  bytes : Bytes → ResponseBody Pipe File
  stream : Pipe → ResponseBody Pipe File
  file : FileBody File → ResponseBody Pipe File

pub record ScriptResponse (Pipe File : Type 0) : Type 0 where
  pub status : ℕ
  pub headers : List (Bytes × Bytes)
  pub body : ResponseBody Pipe File

-- `Outcome`; the two chains of calls are added by the caller.
pub record Outcome (Pipe File : Type 0) : Type 0 where
  pub response : Option (ScriptResponse Pipe File)
  pub logs : List LogRecord
  pub error : Option Error

abbrev as_array : Option Json → List Json
as_array (some (array xs)) = items xs
as_array _ = []

-- `filter_map`
abbrev pub filter_map {ℓ κ} : {A : Type ℓ} {B : Type κ} → (A → Option B) → List A → List B
filter_map f [] = []
filter_map f (x ∷ xs) = elim (f x) [ none ↦ filter_map f xs | some b ↦ b ∷ filter_map f xs ]

pub log_of : Json → Option LogRecord
log_of entry = elim (get_str (codes "level") entry) [
  | none ↦ none
  | some l ↦ elim (get_str (codes "message") entry) [
    | none ↦ none
    | some msg ↦ some (record { level = l; message = msg })
  ]
]

pub parse_script_logs : Json → List LogRecord
parse_script_logs host = filter_map log_of (as_array (get (codes "logs") host))

abbrev str_at : ℕ → List Json → Option Bytes
str_at i row = elim (get_elem? row i) [ none ↦ none | some v ↦ as_str v ]

-- A row of two texts at least.
pub header_of : Json → Option (Bytes × Bytes)
header_of (array row) = elim (str_at 0 (items row)) [
  | none ↦ none
  | some name ↦ elim (str_at 1 (items row)) [ none ↦ none | some value ↦ some (name, value) ]
]
header_of _ = none

pub parse_script_headers : Json → List (Bytes × Bytes)
parse_script_headers response = filter_map header_of (as_array (get (codes "headers") response))

-- A number that fits a byte.
pub byte_of : Json → Option ℕ
byte_of v = elim (as_u64 v) [ none ↦ none | some n ↦ if ltb n 256 then some n else none ]

-- `response.get("body")…get(name)` as a handle
handle_of : Bytes → Json → Option ℕ
handle_of name response = elim (get (codes "body") response) [
  | none ↦ none
  | some body ↦ elim (get name body) [ none ↦ none | some v ↦ as_u64 v ]
]

is_true : Option Json → Bool
is_true (some (bool b)) = b
is_true _ = false

module _ {Pipe File : Type 0} where
  -- The body behind a handle of an access, if there is one.
  claim : Bytes → Bytes → Option (Streams File) → ℕ → Result (ResponseBody Pipe File) Error
  claim no_access no_handle none handle = err (failed no_access)
  claim no_access no_handle (some streams) handle = elim (take_stream handle streams).0 [
    | none ↦ err (failed no_handle)
    | some body ↦ ok (file body)
  ]

  buffered : Option Json → ResponseBody Pipe File
  buffered (some (string s)) = text s
  buffered (some (array xs)) = bytes (filter_map byte_of (items xs))
  buffered _ = text []

  piped : Option Pipe → Result (ResponseBody Pipe File) Error
  piped none = err (failed (codes "ctx.http.pipe: streamed response was not recorded"))
  piped (some pipe) = ok (stream pipe)

  pub parse_script_body :
      Json
      → Option Pipe
      → Option (Streams File)
      → Option (Streams File)
      → Result (ResponseBody Pipe File) Error
  parse_script_body response pipe files uploads =
      if is_true (get (codes "stream") response)
      then piped pipe
      else elim (handle_of (codes "file") response) [
        | some handle ↦
            claim (codes "ctx.file.stream: file access was not recorded")
              (codes "ctx.file.stream: handle was not recorded") files handle
        | none ↦ elim (handle_of (codes "upload") response) [
          | some handle ↦
              claim (codes "ctx.request.files: upload access was not recorded")
                (codes "ctx.request.files: upload stream was not recorded") uploads handle
          | none ↦ ok (buffered (get (codes "body") response))
        ]
      ]

  -- `script_outcome`
  abbrev script_outcome :
      Option (ScriptResponse Pipe File) → List LogRecord → Option Error → Outcome Pipe File
  script_outcome response logs error = record { response = response; logs = logs; error = error }

  -- `Outcome::failed`
  pub outcome_failed : Error → Outcome Pipe File
  outcome_failed error = script_outcome none [] (some error)

  with_body : ℕ → Json → List LogRecord → Result (ResponseBody Pipe File) Error → Outcome Pipe File
  with_body code response logs (err error) = script_outcome none logs (some error)
  with_body code response logs (ok body) =
      script_outcome
        (some (record { status = code; headers = parse_script_headers response; body = body })) logs
        none

  -- `value.is_null()` is filtered out.
  responded :
      Option Json
      → List LogRecord
      → Option Pipe
      → Option (Streams File)
      → Option (Streams File)
      → Outcome Pipe File
  responded none logs pipe files uploads = script_outcome none logs (some no_response)
  responded (some null) logs pipe files uploads = script_outcome none logs (some no_response)
  responded (some response) logs pipe files uploads = elim (get (codes "status") response) [
    | none ↦ script_outcome none logs (some (failed (codes "ctx.respond: status was not recorded")))
    | some value ↦ elim (as_u64 value) [
      | none ↦
          script_outcome none logs (some (failed (codes "ctx.respond: status was not recorded")))
      | some code ↦
          if ltb code 65536
          then with_body code response logs (parse_script_body response pipe files uploads)
          else script_outcome none logs
              (some (failed (codes "ctx.respond: status was not recorded")))
    ]
  ]

  pub parse_host_record :
      Json → Option Pipe → Option (Streams File) → Option (Streams File) → Outcome Pipe File
  parse_host_record host pipe files uploads =
      responded (get (codes "response") host) (parse_script_logs host) pipe files uploads
