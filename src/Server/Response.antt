-- ===== src/Server/Response.antt =====
-- src/server.rs: `map_handled`, from what a request has led to, to what the client is answered.
pub mod Requested
pub mod Framed
use stuntdouble.Common.{
  ℕ, zero, ◌+◌, ◌-◌, Bool, true, false, not, Option, none, some, List, [], ◌∷◌, ◌++◌, leb, ◌==◌,
  if◌then◌else◌, ◌&&◌, length, Result, ok, err,
}
use stuntdouble.Common.Bytes.{Bytes, codes}
use stuntdouble.Common.Text.{to_text}
use stuntdouble.Json.{Json, string, json}
use stuntdouble.Files.{FileBody}
use stuntdouble.Files.Multipart
use stuntdouble.Files.Multipart.{ParseFailure, failure_code, detail}
use stuntdouble.Files.Range.{RangeDecision, full, partial, unsatisfiable, decide_range}
use stuntdouble.Script.Protocol
use stuntdouble.Script.Protocol.{Error, failed, class, status}
use stuntdouble.Script.Record.{ScriptResponse, ResponseBody, text, bytes, stream, file}
use stuntdouble.Server.Headers.{
  Http, Headers, get_all, has, put, put_text, set_content_length, response_headers,
}

pub data Handled (Pipe File : Type 0) : Type 0 where
  not_found : Handled Pipe File
  body_too_large : Handled Pipe File
  request_timeout : Handled Pipe File
  upload_failed : ParseFailure → Handled Pipe File
  script_failed : Error → Handled Pipe File
  responded : ScriptResponse Pipe File → Handled Pipe File

pub data MappedBody (Pipe File : Type 0) : Type 0 where
  ready : Bytes → MappedBody Pipe File
  piped : Pipe → MappedBody Pipe File
  opened : FileBody File → MappedBody Pipe File

pub record Mapped (Pipe File : Type 0) : Type 0 where
  pub code : ℕ
  pub error_class : Bytes
  pub headers : Headers
  pub body : MappedBody Pipe File
  pub body_bytes : Option ℕ

-- `StatusCode::from_u16` accepts 100 to 999.
pub script_status : ℕ → ℕ
script_status n = if leb 100 n && leb n 999 then n else 500

-- `verbose.then_some(more)`
abbrev pub when : Bool → Bytes → Option Bytes
when true more = some more
when false more = none

abbrev detail_member : Option Bytes → List (Bytes × Json)
detail_member none = []
detail_member (some more) = (codes "detail", string more) ∷ []

pub data RangeRequest : Type 0 where
  no_range : RangeRequest
  single : Bytes → RangeRequest
  unusable : RangeRequest

pub decide : ℕ → RangeRequest → RangeDecision
decide size no_range = decide_range size none
decide size (single value) = decide_range size (some value)
decide size unusable = unsatisfiable

-- `framing_header`: the first of the three that is there.
pub framing_header : Headers → Option Bytes
framing_header headers =
    if has (codes "content-length") headers
    then some (codes "content-length")
    else if has (codes "content-range") headers
    then some (codes "content-range")
    else if has (codes "accept-ranges") headers
    then some (codes "accept-ranges")
    else none

-- `to_vec` is `serde_json::to_vec`.
module _ (http : Http) (to_vec : Json → Bytes) where
  pub error_body : Bytes → Bytes → Option Bytes → Bytes
  error_body request_id name more = to_vec (
      json (
        (codes "request_id", string request_id)
        ∷ (codes "error", string name)
        ∷ detail_member more))

  abbrev range_of : List Bytes → RangeRequest
  range_of [] = no_range
  range_of (value ∷ []) = elim (http.to_str value) [ none ↦ unusable | some header ↦ single header ]
  range_of (value ∷ _ ∷ _) = unusable

  pub range_request : Headers → RangeRequest
  range_request headers =
      if has (codes "if-range") headers
      then no_range
      else range_of (get_all (codes "range") headers)

  module _ {Pipe File : Type 0} where
    -- An error in the envelope of the project.
    abbrev enveloped : ℕ → Bytes → Option Bytes → Bytes → Mapped Pipe File
    enveloped code name more request_id = record {
      code = code;
      error_class = name;
      headers = [];
      body = ready (error_body request_id name more);
      body_bytes = some (length (error_body request_id name more));
    }

    pub failed_mapped : Error → Bytes → Bool → Mapped Pipe File
    failed_mapped error request_id verbose =
        enveloped (status error) (class error) (when verbose (Protocol.detail error)) request_id

    pub upload_failed_mapped : ParseFailure → Bytes → Bool → Mapped Pipe File
    upload_failed_mapped failure request_id verbose =
        enveloped (script_status (Multipart.status_code failure)) (failure_code failure)
          (when verbose (detail failure)) request_id

    pub buffered_mapped : ℕ → Headers → Bytes → Mapped Pipe File
    buffered_mapped code headers body = record {
      code = script_status code;
      error_class = [];
      headers = headers;
      body = ready body;
      body_bytes = some (length body);
    }

    -- The answer to a decision, with the headers that the script may set.
    pub answer_range : ℕ → Headers → FileBody File → RangeDecision → Mapped Pipe File
    answer_range code headers body full = record {
      code = script_status code;
      error_class = [];
      headers = set_content_length http body.size headers;
      body = opened body;
      body_bytes = none;
    }
    answer_range code headers body (partial start len) = record {
      code = 206;
      error_class = [];
      headers = set_content_length http len (
          put_text http (codes "content-range")
            (codes "bytes "
              ++ to_text start
              ++ codes "-"
              ++ to_text (start + len - 1)
              ++ codes "/"
              ++ to_text body.size)
            headers);
      body = opened (record {
        file = body.file;
        size = body.size;
        offset = start;
        len = len;
        call = body.call;
        guard = body.guard;
      });
      body_bytes = none;
    }
    answer_range code headers body unsatisfiable = record {
      code = 416;
      error_class = [];
      headers =
          set_content_length http 0
            (put_text http (codes "content-range") (codes "bytes */" ++ to_text body.size) headers);
      body = ready [];
      body_bytes = some 0;
    }

    abbrev framed_by : Option Bytes → Mapped Pipe File → Bytes → Bool → Mapped Pipe File
    framed_by none answer request_id verbose = answer
    framed_by (some name) answer request_id verbose =
        failed_mapped
          (failed (codes "ctx.respond: the host owns " ++ name ++ codes " for file streams"))
          request_id verbose

    pub map_file_response : ℕ → Headers → FileBody File → Headers → Bytes → Bool → Mapped Pipe File
    map_file_response code headers body request_headers request_id verbose =
        if not (code == 200)
        then failed_mapped (failed (codes "ctx.respond: a file stream body requires status 200"))
            request_id verbose
        else framed_by (framing_header headers)
            (answer_range code (put (codes "accept-ranges") (codes "bytes") headers) body
              (decide body.size (range_request request_headers)))
            request_id verbose

    -- A script's response once its headers have been accepted.
    map_body : ℕ → Headers → ResponseBody Pipe File → Headers → Bytes → Bool → Mapped Pipe File
    map_body code headers (text s) request_headers request_id verbose =
        buffered_mapped code headers s
    map_body code headers (bytes s) request_headers request_id verbose =
        buffered_mapped code headers s
    map_body code headers (stream pipe) request_headers request_id verbose = record {
      code = script_status code;
      error_class = [];
      headers = headers;
      body = piped pipe;
      body_bytes = none;
    }
    map_body code headers (file body) request_headers request_id verbose =
        map_file_response code headers body request_headers request_id verbose

    map_responded :
        ScriptResponse Pipe File → Result Headers Bytes → Headers → Bytes → Bool → Mapped Pipe File
    map_responded response (err reason) request_headers request_id verbose =
        failed_mapped (failed reason) request_id verbose
    map_responded response (ok headers) request_headers request_id verbose =
        map_body response.status headers response.body request_headers request_id verbose

    pub map_handled : Handled Pipe File → Headers → Bytes → Bool → Mapped Pipe File
    map_handled body_too_large request_headers request_id verbose = record {
      code = 413;
      error_class = codes "request_body_too_large";
      headers = [];
      body = ready [];
      body_bytes = some 0;
    }
    map_handled (upload_failed failure) request_headers request_id verbose =
        upload_failed_mapped failure request_id verbose
    map_handled request_timeout request_headers request_id verbose =
        enveloped 408 (codes "request_timeout") (when verbose (codes "request body read timeout"))
          request_id
    map_handled not_found request_headers request_id verbose =
        enveloped 404 (codes "not_found") none request_id
    map_handled (script_failed error) request_headers request_id verbose =
        failed_mapped error request_id verbose
    map_handled (responded response) request_headers request_id verbose =
        map_responded response (response_headers http response.headers) request_headers request_id
          verbose
