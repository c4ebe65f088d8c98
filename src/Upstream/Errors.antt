-- ===== src/Upstream/Errors.antt =====
-- src/upstream.rs: why a call fails, and what its script is told.
use stuntdouble.Common.{ℕ, Option, none, some, ◌++◌}
use stuntdouble.Common.Bytes.{Bytes, codes}
use stuntdouble.Common.Text.{to_text}

pub data TransportKind : Type 0 where
  timeout : TransportKind
  dns : TransportKind
  other : TransportKind

abbrev kind_str : TransportKind → Bytes
kind_str timeout = codes "timeout"
kind_str dns = codes "dns"
kind_str other = codes "transport"

pub data Error : Type 0 where
  policy : Bytes → Error
  invalid_url : Bytes → Error
  redirect : Bytes → Error
  transport : TransportKind → Bytes → Error
  status : ℕ → Error

-- `Error::code`
abbrev pub code : Error → Bytes
code (policy _) = codes "script_error"
code (invalid_url _) = codes "upstream_url_invalid"
code (redirect _) = codes "upstream_redirect_error"
code (transport _ _) = codes "upstream_unreachable"
code (status _) = codes "upstream_http_error"

abbrev pub transport_kind : Error → Option Bytes
transport_kind (transport kind _) = some (kind_str kind)
transport_kind _ = none

-- `ureq::Error`, as far as `map_ureq_error` tells its cases apart; the texts are what they print.
pub data UreqError : Type 0 where
  bad_uri : Bytes → UreqError
  http : Bytes → UreqError
  timed_out : UreqError
  host_not_found : UreqError
  body_exceeds_limit : ℕ → UreqError
  any_other : Bytes → UreqError

abbrev pub timeout_error : Error
timeout_error = transport timeout (codes "ctx.http: upstream timeout")

pub map_ureq_error : UreqError → Error
map_ureq_error (bad_uri message) = policy (codes "ctx.http: invalid URL: " ++ message)
map_ureq_error (http error) = policy (codes "ctx.http: invalid request: " ++ error)
map_ureq_error timed_out = timeout_error
map_ureq_error host_not_found = transport dns (codes "ctx.http: upstream host not found")
map_ureq_error (body_exceeds_limit limit) = policy (
    codes "ctx.http.get: upstream response body exceeds the "
    ++ to_text limit
    ++ codes "-byte limit")
map_ureq_error (any_other error) = transport other (codes "ctx.http: " ++ error)
