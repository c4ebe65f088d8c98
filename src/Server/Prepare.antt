-- ===== src/Server/Prepare.antt =====
-- src/server.rs: `prepare_request`.
pub mod Prepared
mod Tests
use stuntdouble.Common.{
  ℕ, ◌*◌, Bool, true, false, Option, none, some, List, [], ◌∷◌, ◌++◌, ltb, if◌then◌else◌, length,
  get_elem?, Result, ok, err,
}
use stuntdouble.Common.Bytes.{Bytes, codes}
use stuntdouble.Common.Dict.{Dict, is_some}
use stuntdouble.Json.{Json, null, string, number, pos_int, json}
use stuntdouble.Files.{UploadFileMeta, UploadStore, metas}
use stuntdouble.Files.Multipart.{
  Storage, Parts, ParseFailure, too_large, failure_code, failure_files, counted_bytes,
  saturating_add, is_multipart, content_length, parse_multipart,
}
use stuntdouble.Matcher.{Route, Match, match_route}
use stuntdouble.Config.{Fallback}
use stuntdouble.Script.Protocol.{failed, capacity_exceeded}
use stuntdouble.Script.Record.{Outcome, outcome_failed}
use stuntdouble.Server.Response.{Handled, not_found, body_too_large, request_timeout, upload_failed}
use stuntdouble.Server.Fallback.{
  MatchKind, unknown_path, method_not_allowed, handled_of, handle_unmatched,
}

abbrev pub multipart_framing_allowance : ℕ
multipart_framing_allowance = 1024 * 1024

abbrev error_json : Option Bytes → Json
error_json none = null
error_json (some text) = string text

pub upload_log : ℕ → ℕ → Option Bytes → Json
upload_log files total_bytes error = json (
    (codes "files", number (pos_int files))
    ∷ (codes "total_bytes", number (pos_int total_bytes))
    ∷ (codes "error", error_json error)
    ∷ [])

-- A request: its method in upper case, its path, the texts of two headers, what the multipart parser
-- makes of its body, and what `to_bytes` makes of it under the limit of 2 MiB.
pub record Inbound : Type 0 where
  pub method : Bytes
  pub path : Bytes
  pub content_type : Option Bytes
  pub length_header : Option Bytes
  pub parts : Option Parts
  pub body : Option Bytes

-- `PreparedRequest`; of the snapshot, what depends on the body and the route: its bytes, the uploaded
-- files and the kind of match.
pub record PreparedRequest : Type 0 where
  pub body_bytes : Option Bytes
  pub files : List UploadFileMeta
  pub uploads : Option UploadStore
  pub upload : Json
  pub request_body_bytes : Option ℕ
  pub match_kind : Bytes
  pub match_allowed_methods : List Bytes

pub data PrepareError : Type 0 where
  -- `upload_error failure request_body_bytes`
  upload_error : ParseFailure → Option ℕ → PrepareError
  oversized : Option ℕ → PrepareError

-- `first.or(second)`
abbrev or_else : Option ℕ → Option ℕ → Option ℕ
or_else none second = second
or_else (some n) second = some n

-- Whether the declared length is beyond what the limit allows.
abbrev is_beyond : ℕ → Option ℕ → Bool
is_beyond most none = false
is_beyond most (some declared) = ltb (saturating_add most multipart_framing_allowance) declared

module _ (storage : Storage) (most : ℕ) where
  abbrev parsed :
      Option ℕ
      → Result UploadStore ParseFailure × storage.World
      → Result PreparedRequest PrepareError × storage.World
  parsed declared (err failure, w) =
      (err (upload_error failure (or_else declared (counted_bytes failure))), w)
  parsed declared (ok store, w) = (
    ok (record {
      body_bytes = none;
      files = metas store;
      uploads = some store;
      upload = upload_log (length (metas store)) store.total_bytes none;
      request_body_bytes = or_else declared (some store.total_bytes);
      match_kind = codes "route";
      match_allowed_methods = [];
    }),
    w,
  )

  abbrev buffered : Option ℕ → Option Bytes → Result PreparedRequest PrepareError
  buffered declared none = err (oversized declared)
  buffered declared (some bytes) = ok (record {
    body_bytes = some bytes;
    files = [];
    uploads = none;
    upload = upload_log 0 0 none;
    request_body_bytes = some (length bytes);
    match_kind = codes "route";
    match_allowed_methods = [];
  })

  pub prepare_request :
      Inbound → storage.World → Result PreparedRequest PrepareError × storage.World
  prepare_request request w =
      let declared = content_length request.length_header in
      if is_multipart request.content_type
      then if is_beyond most declared
        then (err (upload_error (too_large 0 none) declared), w)
        else parsed declared (parse_multipart storage request.parts most w)
      else (buffered declared request.body, w)
