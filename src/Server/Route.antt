-- ===== src/Server/Route.antt =====
-- src/server.rs: `route_request`, with the execution of scripts as a parameter.
pub mod Chosen
mod Tests
use stuntdouble.Common.{
  ℕ, ◌*◌, Bool, true, false, Option, none, some, List, [], ◌∷◌, ◌++◌, ltb, if◌then◌else◌, length,
  get_elem?, Result, ok, err,
}
use stuntdouble.Common.Bytes.{Bytes, codes}
use stuntdouble.Common.Dict.{Dict, is_some}
use stuntdouble.Json.{Json, null, string, number, pos_int, json}
use stuntdouble.Files.{UploadFileMeta, UploadStore, metas}
use stuntdouble.Files.Multipart.{
  Storage, Parts, ParseFailure, too_large, failure_code, failure_files, counted_bytes,
  saturating_add, is_multipart, content_length, parse_multipart,
}
use stuntdouble.Matcher.{Route, Match, match_route}
use stuntdouble.Config.{Fallback}
use stuntdouble.Script.Protocol.{failed, capacity_exceeded}
use stuntdouble.Script.Record.{Outcome, outcome_failed}
use stuntdouble.Server.Response.{Handled, not_found, body_too_large, request_timeout, upload_failed}
use stuntdouble.Server.Prepare.{
  upload_log, Inbound, PreparedRequest, PrepareError, upload_error, oversized, prepare_request,
}
use stuntdouble.Server.Fallback.{
  MatchKind, unknown_path, method_not_allowed, handled_of, handle_unmatched,
}

abbrev unwrap_or : Option ℕ → ℕ → ℕ
unwrap_or none n = n
unwrap_or (some m) n = m

-- `Routed`, without the logs and the chains of calls of the script.
pub record Routed (Pipe File : Type 0) : Type 0 where
  pub label : Bytes
  pub params : Dict Bytes
  pub handled : Handled Pipe File
  pub request_body_bytes : Option ℕ
  pub upload : Json

abbrev name_or_path : Option Bytes → Bytes → Bytes
name_or_path none path = path
name_or_path (some name) path = name

abbrev label_of : Route → Bytes
label_of route = name_or_path route.name route.path

abbrev fallback_label : Fallback → Bytes
fallback_label fallback = name_or_path fallback.name (codes "fallback")

abbrev kind_name : MatchKind → Bytes
kind_name unknown_path = codes "not_found"
kind_name method_not_allowed = codes "method_not_allowed"

abbrev fallback_prepared : MatchKind → List Bytes → PreparedRequest
fallback_prepared kind allowed = record {
  body_bytes = none;
  files = [];
  uploads = none;
  upload = upload_log 0 0 none;
  request_body_bytes = none;
  match_kind = kind_name kind;
  match_allowed_methods = allowed;
}

abbrev fallback_script : Option Fallback → Bytes
fallback_script none = []
fallback_script (some fallback) = fallback.script

abbrev unmatched_label : Option Fallback → Bytes
unmatched_label none = []
unmatched_label (some fallback) = fallback_label fallback

-- The scripts' files, with the message of an error; whether a worker is free; and the execution.
pub record Engine (Pipe File : Type 0) : Type 0 where
  pub read_to_string : Bytes → Result Bytes Bytes
  pub slot_free : Bool
  pub execute : Bytes → PreparedRequest → Outcome Pipe File

module _ {Pipe File : Type 0} where
  -- The outcome in `run_script_inner`.
  pub script_outcome : Engine Pipe File → Bytes → PreparedRequest → Outcome Pipe File
  script_outcome engine path prepared = elim (engine.read_to_string path) [
    | err message ↦
        outcome_failed (failed (codes "cannot read script " ++ path ++ codes ": " ++ message))
    | ok source ↦
        if engine.slot_free
        then engine.execute source prepared
        else outcome_failed capacity_exceeded
  ]

  -- `run_script_inner`
  pub run_script_inner :
      Engine Pipe File → Bytes → Dict Bytes → Bytes → PreparedRequest → Routed Pipe File
  run_script_inner engine label params path prepared = record {
    label = label;
    params = params;
    handled = handled_of (script_outcome engine path prepared);
    request_body_bytes = prepared.request_body_bytes;
    upload = prepared.upload;
  }

  -- `route_request` without a route. The script of the fallback is used only if there is one.
  pub route_unmatched : Engine Pipe File → List Route → Option Fallback → Bytes → Routed Pipe File
  route_unmatched engine routes fallback path = record {
    label = unmatched_label fallback;
    params = [];
    handled = handle_unmatched routes path (is_some fallback) (λ kind allowed.
        script_outcome engine (fallback_script fallback) (fallback_prepared kind allowed));
    request_body_bytes = none;
    upload = upload_log 0 0 none;
  }

  abbrev refused : Bytes → Dict Bytes → PrepareError → Routed Pipe File
  refused label params (upload_error failure n) = record {
    label = label;
    params = params;
    handled = upload_failed failure;
    request_body_bytes = n;
    upload =
        upload_log (failure_files failure) (unwrap_or (counted_bytes failure) 0)
          (some (failure_code failure));
  }
  refused label params (oversized n) = record {
    label = label;
    params = params;
    handled = body_too_large;
    request_body_bytes = n;
    upload = upload_log 0 0 none;
  }

  abbrev run_prepared :
      Engine Pipe File
      → Bytes
      → Dict Bytes
      → Bytes
      → Result PreparedRequest PrepareError
      → Routed Pipe File
  run_prepared engine label params script (err e) = refused label params e
  run_prepared engine label params script (ok prepared) =
      run_script_inner engine label params script prepared

module _ (storage : Storage) (most : ℕ) {Pipe File : Type 0} where
  -- A request with a route; `late` is the world in which the deadline cut the preparation off.
  pub route_matched :
      Engine Pipe File
      → Route
      → Dict Bytes
      → Inbound
      → Option storage.World
      → storage.World
      → Routed Pipe File × storage.World
  route_matched engine route params request late w =
      let (result, after) = prepare_request storage most request w in
      elim late [
        | none ↦ (run_prepared engine (label_of route) params route.script result, after)
        | some cut ↦ (
          record {
            label = label_of route;
            params = params;
            handled = request_timeout;
            request_body_bytes = content_length request.length_header;
            upload = upload_log 0 0 (some (codes "request_timeout"));
          },
          cut,
        )
      ]

  -- `route_request`; `none` is an index out of bounds.
  pub route_request :
      Engine Pipe File
      → List Route
      → Option Fallback
      → Inbound
      → Option storage.World
      → storage.World
      → Option (Routed Pipe File × storage.World)
  route_request engine routes fallback request late w =
      elim (match_route routes request.method request.path) [
        | none ↦ some (route_unmatched engine routes fallback request.path, w)
        | some found ↦ elim (get_elem? routes found.route_index) [
          | none ↦ none
          | some route ↦ some (route_matched engine route found.params request late w)
        ]
      ]
