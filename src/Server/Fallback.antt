-- ===== src/Server/Fallback.antt =====
-- src/server.rs: `run_script_inner` and `run_fallback`, from the outcome of the script on.
pub mod Checked
use stuntdouble.Common.{
  ℕ, Bool, true, false, not, ◌||◌, Option, none, some, List, [], ◌∷◌, ◌++◌, ◌==◌, if◌then◌else◌,
}
use stuntdouble.Common.Bytes.{Bytes, codes, eq_ignore_ascii_case}
use stuntdouble.Common.Text.{join_with}
use stuntdouble.Matcher.{Route, is_none_left, allowed_methods}
use stuntdouble.Script.Protocol.{Error, failed, no_response}
use stuntdouble.Script.Record.{ScriptResponse, ResponseBody, text, bytes, stream, file, Outcome}
use stuntdouble.Server.Response.{Handled, not_found, script_failed, responded}

-- `match_kind` of a request without a route.
pub data MatchKind : Type 0 where
  unknown_path : MatchKind
  method_not_allowed : MatchKind

pub classify : List Bytes → MatchKind
classify allowed = if is_none_left allowed then unknown_path else method_not_allowed

abbrev pub required_status : MatchKind → ℕ
required_status unknown_path = 404
required_status method_not_allowed = 405

-- `retain` of the headers that are not named `allow`.
abbrev pub without_allow : List (Bytes × Bytes) → List (Bytes × Bytes)
without_allow [] = []
without_allow ((name, value) ∷ headers) =
    let rest = without_allow headers in
    if eq_ignore_ascii_case name (codes "allow") then rest else (name, value) ∷ rest

module _ {Pipe File : Type 0} where
  abbrev pub is_streamed : ResponseBody Pipe File → Bool
  is_streamed (text _) = false
  is_streamed (bytes _) = false
  is_streamed (stream _) = true
  is_streamed (file _) = true

  abbrev reported : Option (ScriptResponse Pipe File) → Option Error → Handled Pipe File
  reported (some response) error = responded response
  reported none (some error) = script_failed error
  reported none none = script_failed no_response

  -- The end of `run_script_inner`.
  pub handled_of : Outcome Pipe File → Handled Pipe File
  handled_of outcome = reported outcome.response outcome.error

  with_allow : MatchKind → List Bytes → ScriptResponse Pipe File → ScriptResponse Pipe File
  with_allow unknown_path allowed response = response
  with_allow method_not_allowed allowed response = record {
    status = response.status;
    headers =
        without_allow response.headers ++ (codes "Allow", join_with (codes ", ") allowed) ∷ [];
    body = response.body;
  }

  -- The end of `run_fallback`.
  pub check_fallback : MatchKind → List Bytes → Handled Pipe File → Handled Pipe File
  check_fallback kind allowed (responded response) =
      if not (response.status == required_status kind) || is_streamed response.body
      then script_failed (failed (codes "fallback script produced an invalid response"))
      else responded (with_allow kind allowed response)
  check_fallback kind allowed handled = handled

  -- The branch of `route_request` without a route: whether there is a fallback, and the outcome of its
  -- script for a kind and the methods that the path allows.
  pub handle_unmatched :
      List Route → Bytes → Bool → (MatchKind → List Bytes → Outcome Pipe File) → Handled Pipe File
  handle_unmatched routes path has_fallback run =
      let allowed = allowed_methods routes path in
      if has_fallback
      then check_fallback (classify allowed) allowed (handled_of (run (classify allowed) allowed))
      else not_found
