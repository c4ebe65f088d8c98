-- ===== src/Script/Record/Reads.antt =====
-- src/script.rs: a response that a script has recorded is the response that the host maps.
use stuntdouble.Common.{
  ℕ, ◌<◌, ◌≡◌, refl, ap, true, Option, none, some, List, [], ◌∷◌, map, ltb, All, ok, err, arith,
  inl, inr, Option-cases,
}
use stuntdouble.Common.Bytes.{Bytes, codes}
use stuntdouble.Json
use stuntdouble.Json.{
  Json, bool, string, number, pos_int, array, Items, nil, cons, items, json, get, get_str,
}
use stuntdouble.Files.{FileBody, Streams, take_stream}
use stuntdouble.Script.Protocol.{Error, failed}
use stuntdouble.Script.Record.{
  LogRecord, ResponseBody, text, bytes, stream, file, Outcome, filter_map, log_of, header_of,
  byte_of, parse_script_logs, parse_script_headers, parse_script_body, parse_host_record, claim,
  responded, with_body, piped, handle_of, is_true, buffered,
}

-- What `ctx.respond` and `ctx.http.pipe` record as the body.
pub data Recorded : Type 0 where
  of_text : Bytes → Recorded
  of_bytes : Bytes → Recorded
  of_file : ℕ → Recorded
  of_upload : ℕ → Recorded
  of_pipe : Recorded

abbrev pub listed : List Json → Items
listed [] = nil
listed (x ∷ xs) = cons x (listed xs)

abbrev header_row : Bytes × Bytes → Json
header_row (name, value) = array (cons (string name) (cons (string value) nil))

abbrev log_row : LogRecord → Json
log_row l = json ((codes "level", string l.level) ∷ (codes "message", string l.message) ∷ [])

abbrev answer_json : ℕ → List (Bytes × Bytes) → Json → Json
answer_json code headers body = json (
    (codes "status", number (pos_int code))
    ∷ (codes "headers", array (listed (map header_row headers)))
    ∷ (codes "body", body)
    ∷ [])

abbrev response_of : ℕ → List (Bytes × Bytes) → Recorded → Json
response_of code headers (of_text s) = answer_json code headers (string s)
response_of code headers (of_bytes s) =
    answer_json code headers (array (listed (map (λ n. number (pos_int n)) s)))
response_of code headers (of_file handle) =
    answer_json code headers (json ((codes "file", number (pos_int handle)) ∷ []))
response_of code headers (of_upload handle) =
    answer_json code headers (json ((codes "upload", number (pos_int handle)) ∷ []))
response_of code headers of_pipe = json (
    (codes "stream", bool true)
    ∷ (codes "status", number (pos_int code))
    ∷ (codes "headers", array (listed (map header_row headers)))
    ∷ [])

-- The extracted record.
abbrev pub record_of : List LogRecord → ℕ → List (Bytes × Bytes) → Recorded → Json
record_of logs code headers body = json (
    (codes "response", response_of code headers body)
    ∷ (codes "logs", array (listed (map log_row logs)))
    ∷ [])

abbrev pub AreBytes : Recorded → Type 0
AreBytes (of_bytes s) = All (λ n. n < 256) s
AreBytes _ = Unit

filter_map-listed {ℓ} :
    {A : Type ℓ} (f : Json → Option A) (g : A → Json) (xs : List A)
    → ((a : A) → f (g a) ≡ some a)
    → filter_map f (items (listed (map g xs))) ≡ xs
filter_map-listed f g [] h = refl
filter_map-listed f g (x ∷ xs) h = rw (h x) (ap (λ t. x ∷ t) (filter_map-listed f g xs h))

filter_map-byte_of :
    (s : Bytes)
    → All (λ n. n < 256) s
    → filter_map byte_of (items (listed (map (λ n. number (pos_int n)) s))) ≡ s
unfolding byte_of
filter_map-byte_of [] h = refl
filter_map-byte_of (n ∷ s) (h, k) =
    let small : ltb n 256 ≡ true = ground (arith, h) in
    rw (filter_map, byte_of, small) (ap (λ t. n ∷ t) (filter_map-byte_of s k))

log_of-log_row : (l : LogRecord) → log_of (log_row l) ≡ some l
unfolding log_of Json.get_str Json.get Json.find
log_of-log_row l = refl

header_of-header_row : (h : Bytes × Bytes) → header_of (header_row h) ≡ some h
unfolding header_of
header_of-header_row (name, value) = refl

logs_are :
    (logs : List LogRecord) (response : Json)
    → parse_script_logs (
        json
          ((codes "response", response) ∷ (codes "logs", array (listed (map log_row logs))) ∷ []))
      ≡ logs
unfolding parse_script_logs Json.get Json.find
logs_are logs response = filter_map-listed log_of log_row logs log_of-log_row

headers_are :
    (headers : List (Bytes × Bytes))
    → filter_map header_of (items (listed (map header_row headers))) ≡ headers
headers_are headers = filter_map-listed header_of header_row headers header_of-header_row

fits : (code : ℕ) → code < 65536 → ltb code 65536 ≡ true
fits code h = ground (arith, h)

module _ {Pipe File : Type 0} where
  abbrev found : Option (FileBody File) → Option (ResponseBody Pipe File)
  found none = none
  found (some body) = some (file body)

  abbrev held : Option (Streams File) → ℕ → Option (ResponseBody Pipe File)
  held none handle = none
  held (some streams) handle = found (take_stream handle streams).0

  abbrev wrap : Option Pipe → Option (ResponseBody Pipe File)
  wrap none = none
  wrap (some pipe) = some (stream pipe)

  -- The body that is recorded, if the host has it.
  abbrev pub body_of :
      Option Pipe
      → Option (Streams File)
      → Option (Streams File)
      → Recorded
      → Option (ResponseBody Pipe File)
  body_of pipe files uploads (of_text s) = some (text s)
  body_of pipe files uploads (of_bytes s) = some (bytes s)
  body_of pipe files uploads (of_file handle) = held files handle
  body_of pipe files uploads (of_upload handle) = held uploads handle
  body_of pipe files uploads of_pipe = wrap pipe

  -- The logs are kept; the response has the status, the headers and the body if there is one, and
  -- otherwise there is an error in its place.
  abbrev pub Maps :
      List LogRecord
      → ℕ
      → List (Bytes × Bytes)
      → Option (ResponseBody Pipe File)
      → Outcome Pipe File
      → Type 0
  Maps logs code headers none out =
      (out.logs ≡ logs) × (out.response ≡ none) × ((e : Error) × (out.error ≡ some e))
  Maps logs code headers (some body) out = out ≡ record {
    response = some (record { status = code; headers = headers; body = body });
    logs = logs;
    error = none;
  }

  -- A body that the host has: the response is mapped.
  responded-ok :
      (logs : List LogRecord) (code : ℕ) (headers : List (Bytes × Bytes)) (recorded : Recorded)
      (pipe : Option Pipe) (files uploads : Option (Streams File)) (body : ResponseBody Pipe File)
      → code < 65536
      → parse_script_body (response_of code headers recorded) pipe files uploads ≡ ok body
      → Maps logs code headers
          (some body)
          (parse_host_record (record_of logs code headers recorded) pipe files uploads)
  unfolding parse_host_record responded with_body parse_script_headers Json.get Json.find
  responded-ok logs code headers (of_text s) pipe files uploads body small e =
      rw (fits code small, e, with_body, headers_are headers, logs_are logs _) refl
  responded-ok logs code headers (of_bytes s) pipe files uploads body small e =
      rw (fits code small, e, with_body, headers_are headers, logs_are logs _) refl
  responded-ok logs code headers (of_file handle) pipe files uploads body small e =
      rw (fits code small, e, with_body, headers_are headers, logs_are logs _) refl
  responded-ok logs code headers (of_upload handle) pipe files uploads body small e =
      rw (fits code small, e, with_body, headers_are headers, logs_are logs _) refl
  responded-ok logs code headers of_pipe pipe files uploads body small e =
      rw (fits code small, e, with_body, headers_are headers, logs_are logs _) refl

  responded-err :
      (logs : List LogRecord) (code : ℕ) (headers : List (Bytes × Bytes)) (recorded : Recorded)
      (pipe : Option Pipe) (files uploads : Option (Streams File)) (error : Error)
      → code < 65536
      → parse_script_body {Pipe = Pipe} (response_of code headers recorded) pipe files uploads
        ≡ err error
      → Maps logs code headers none
          (parse_host_record (record_of logs code headers recorded) pipe files uploads)
  unfolding parse_host_record responded with_body Json.get Json.find
  responded-err logs code headers (of_text s) pipe files uploads error small e =
      rw (fits code small, e, with_body, logs_are logs _) (refl, refl, (error, refl))
  responded-err logs code headers (of_bytes s) pipe files uploads error small e =
      rw (fits code small, e, with_body, logs_are logs _) (refl, refl, (error, refl))
  responded-err logs code headers (of_file handle) pipe files uploads error small e =
      rw (fits code small, e, with_body, logs_are logs _) (refl, refl, (error, refl))
  responded-err logs code headers (of_upload handle) pipe files uploads error small e =
      rw (fits code small, e, with_body, logs_are logs _) (refl, refl, (error, refl))
  responded-err logs code headers of_pipe pipe files uploads error small e =
      rw (fits code small, e, with_body, logs_are logs _) (refl, refl, (error, refl))

  -- A recorded response is mapped to the response that was recorded: its status below 65536, its
  -- headers in order, and its body, which is the text, the bytes, the file that waits behind the
  -- handle, or the piped body. A body that the host does not have gives an error and no response. The
  -- logs are kept in either case.
  pub parse_host_record-Maps :
      (logs : List LogRecord) (code : ℕ) (headers : List (Bytes × Bytes)) (body : Recorded)
      (pipe : Option Pipe) (files uploads : Option (Streams File))
      → code < 65536
      → AreBytes body
      → Maps logs code headers
          (body_of pipe files uploads body)
          (parse_host_record (record_of logs code headers body) pipe files uploads)
  unfolding parse_script_body claim piped handle_of is_true buffered Json.get Json.find
  parse_host_record-Maps logs code headers (of_text s) pipe files uploads small h =
      responded-ok logs code headers (of_text s) pipe files uploads (text s) small refl
  parse_host_record-Maps logs code headers (of_bytes s) pipe files uploads small h =
      responded-ok logs code headers (of_bytes s) pipe files uploads (bytes s) small
        (rw (filter_map-byte_of s h) refl)
  parse_host_record-Maps logs code headers of_pipe none files uploads small h =
      responded-err logs code headers of_pipe none files uploads _ small refl
  parse_host_record-Maps logs code headers of_pipe (some pipe) files uploads small h =
      responded-ok logs code headers of_pipe (some pipe) files uploads (stream pipe) small refl
  parse_host_record-Maps logs code headers (of_file handle) pipe none uploads small h =
      responded-err logs code headers (of_file handle) pipe none uploads _ small refl
  parse_host_record-Maps logs code headers (of_file handle) pipe (some streams) uploads small h =
      elim (Option-cases (take_stream handle streams).0) [
        | inl gone ↦ rw gone (
            responded-err logs code headers (of_file handle) pipe (some streams) uploads
              (failed (codes "ctx.file.stream: handle was not recorded")) small
              (rw (claim, gone) refl))
        | inr (body, there) ↦ rw there (
            responded-ok logs code headers (of_file handle) pipe (some streams) uploads (file body)
              small (rw (claim, there) refl))
      ]
  parse_host_record-Maps logs code headers (of_upload handle) pipe files none small h =
      responded-err logs code headers (of_upload handle) pipe files none _ small refl
  parse_host_record-Maps logs code headers (of_upload handle) pipe files (some streams) small h =
      elim (Option-cases (take_stream handle streams).0) [
        | inl gone ↦ rw gone (
            responded-err logs code headers (of_upload handle) pipe files (some streams)
              (failed (codes "ctx.request.files: upload stream was not recorded")) small
              (rw (claim, gone) refl))
        | inr (body, there) ↦ rw there (
            responded-ok logs code headers (of_upload handle) pipe files (some streams) (file body)
              small (rw (claim, there) refl))
      ]
