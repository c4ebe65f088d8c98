-- ===== src/Upstream.antt =====
-- src/upstream.rs: the allowlist, the time budget, and the loop that follows redirects. What the url
-- and ureq crates do is a parameter.
mod Errors
pub mod Redirects
pub mod Budget
pub mod Allowed
pub mod Calls
mod Tests
pub use Errors.*
use stuntdouble.Common.{
  ℕ, zero, suc, ◌+◌, ◌-◌, ◌*◌, ◌/◌, ◌%◌, min, Bool, true, false, ◌||◌, ◌&&◌, not, Option, none,
  some, List, [], ◌∷◌, ◌++◌, leb, ltb, ◌==◌, if◌then◌else◌, any, Result, ok, err,
}
use stuntdouble.Common.Bytes.{Bytes, codes, ◌==ᵇ◌, eq_ignore_ascii_case}
use stuntdouble.Common.Text.{to_text}
use stuntdouble.RequestLog
use stuntdouble.RequestLog.{update}

abbrev pub max_redirects : ℕ
max_redirects = 3

-- The crates `url`, `http` and `ureq`, the clock, and `{:?}` of a text. `call` sends one GET with a
-- timeout and an optional `Range` header; times are in nanoseconds.
pub record Net : Type 1 where
  pub Url : Type 0
  pub Response : Type 0
  pub HeaderValue : Type 0
  pub World : Type 0
  pub Duration : Type 0
  pub join : Url → Bytes → Result Url Bytes
  pub scheme : Url → Bytes
  pub host : Url → Option Bytes
  pub host_str : Url → Option Bytes
  pub path : Url → Bytes
  pub now : World → ℕ × World
  pub call : Url → ℕ → Option Bytes → World → Result Response UreqError × World
  pub response_status : Response → ℕ
  pub location : Response → Option HeaderValue
  pub to_str : HeaderValue → Option Bytes
  pub debug : Bytes → Bytes
  pub elapsed_ms : ℕ → Duration

pub record CallRecord (Duration : Type 0) : Type 0 where
  pub api : Bytes
  pub call_host : Option Bytes
  pub call_path : Option Bytes
  pub call_status : Option ℕ
  pub response_bytes : Option ℕ
  pub duration_ms : Option Duration
  pub redirects : ℕ
  pub error : Option Bytes
  pub kind : Option Bytes

-- `UpstreamAccess`. Its client range is an argument of the loop, and its log is part of the session.
pub record Access : Type 0 where
  pub allow_hosts : List Bytes
  pub default_timeout : ℕ
  pub script_deadline : ℕ

abbrev is_redirect : ℕ → Bool
is_redirect n = n == 301 || n == 302 || n == 303 || n == 307 || n == 308

abbrev pub reply_margin : ℕ → ℕ
reply_margin remaining = min (remaining / 10) 100000000

-- `budget`, at a time of the clock.
pub budget : Access → Option ℕ → ℕ → Result ℕ Error
budget access requested now =
    let remaining = access.script_deadline - now in
    let wanted : ℕ = elim requested [ none ↦ access.default_timeout | some duration ↦ duration ] in
    let cut = if leb remaining wanted then remaining - reply_margin remaining else wanted in
    if cut == 0 then err timeout_error else ok cut

module _ (net : Net) where
  -- The program's side of the world, the log of the request, and the urls that have been sent.
  pub record Session : Type 0 where
    pub world : net.World
    pub calls : List (CallRecord net.Duration)
    pub sent : List net.Url

  -- What one answer of the loop of `send_following_redirects` leads to.
  pub data Hop : Type 0 where
    final : net.Response → Hop
    next : net.Url → Hop

module _ (net : Net) (access : Access) where
  validate_host : net.Url → Result (Unit {0}) Error
  validate_host url = elim (net.host url) [
    | none ↦ err (policy (codes "ctx.http.get: URL has no host"))
    | some host ↦
        if any (λ allowed. eq_ignore_ascii_case allowed host) access.allow_hosts
        then ok tt
        else err (
            policy
              (codes "upstream host " ++ net.debug host ++ codes " is not in upstream.allow_hosts"))
  ]

  pub validate : net.Url → (Bytes → Error) → Result (Unit {0}) Error
  validate url url_error =
      if net.scheme url ==ᵇ codes "http" || net.scheme url ==ᵇ codes "https"
      then validate_host url
      else err (
          url_error (
            codes "upstream protocol "
            ++ net.debug (net.scheme url)
            ++ codes " is not allowed (use http or https)"))

  -- A `Location` header: the url that it leads to, once it is validated.
  locate : net.Url → net.HeaderValue → Bytes → (Bytes → Error) → Result net.Url Error
  locate url location call redirect_error = elim (net.to_str location) [
    | none ↦ err (redirect_error (call ++ codes ": redirect Location is not a valid string"))
    | some text ↦ elim (net.join url text) [
      | err error ↦ err (redirect_error (call ++ codes ": invalid redirect Location: " ++ error))
      | ok next_url ↦ elim (validate next_url redirect_error) [ err e ↦ err e | ok _ ↦ ok next_url ]
    ]
  ]

  -- The loop's body between the answer and the next round.
  pub decide_hop :
      net.Url → net.Response → ℕ → Bytes → (Bytes → Error) → Bool → Result (Hop net) Error
  decide_hop url response redirects call redirect_error missing_location_is_error =
      if not (is_redirect (net.response_status response))
      then ok (final response)
      else elim (net.location response) [
        | none ↦
            if missing_location_is_error
            then err (
                redirect_error (
                  call
                  ++ codes ": redirect status "
                  ++ to_text (net.response_status response)
                  ++ codes " has no Location header"))
            else ok (final response)
        | some location ↦
            if leb max_redirects redirects
            then err (redirect_error (call ++ codes ": redirect limit exceeded (max 3 hops)"))
            else elim (locate url location call redirect_error) [
              | err e ↦ err e
              | ok to ↦ ok (next to)
            ]
      ]

  record_url : ℕ → net.Url → List (CallRecord net.Duration) → List (CallRecord net.Duration)
  record_url index url calls =
      update index
        (λ c. record {
          api = c.api;
          call_host = net.host_str url;
          call_path = some (net.path url);
          call_status = c.call_status;
          response_bytes = c.response_bytes;
          duration_ms = c.duration_ms;
          redirects = c.redirects;
          error = c.error;
          kind = c.kind;
        })
        calls

  record_redirects : ℕ → ℕ → List (CallRecord net.Duration) → List (CallRecord net.Duration)
  record_redirects index count calls =
      update index
        (λ c. record {
          api = c.api;
          call_host = c.call_host;
          call_path = c.call_path;
          call_status = c.call_status;
          response_bytes = c.response_bytes;
          duration_ms = c.duration_ms;
          redirects = count;
          error = c.error;
          kind = c.kind;
        })
        calls

  -- `fetch`
  pub fetch : net.Url → ℕ → Option Bytes → Session net → Result net.Response Error × Session net
  fetch url left range s =
      let (answer, world) = net.call url left range s.world in
      (
        elim answer [ ok response ↦ ok response | err error ↦ err (map_ureq_error error) ],
        record { world = world; calls = s.calls; sent = s.sent ++ url ∷ [] },
      )

  -- The loop on fuel; `none` is the lack of it.
  pub follow :
      ℕ
      → net.Url
      → ℕ
      → Option Bytes
      → Bytes
      → (Bytes → Error)
      → Bool
      → ℕ
      → ℕ
      → Session net
      → Option (Result net.Response Error × Session net)
  follow zero url deadline range call redirect_error missing index redirects s = none
  follow (suc fuel) url deadline range call redirect_error missing index redirects s =
      let (time, world) = net.now s.world in
      let clocked : Session net = record { world = world; calls = s.calls; sent = s.sent } in
      let (answer, after) = fetch url (deadline - time) range clocked in
      if deadline - time == 0 then some (err timeout_error, clocked) else elim answer [
        | err e ↦ some (err e, after)
        | ok response ↦ elim (decide_hop url response redirects call redirect_error missing) [
          | err e ↦ some (err e, after)
          | ok (final response) ↦ some (ok response, after)
          | ok (next to) ↦
              follow fuel to deadline range call redirect_error missing index (suc redirects)
                (record {
                  world = after.world;
                  calls = record_url index to (record_redirects index (suc redirects) after.calls);
                  sent = after.sent;
                })
        ]
      ]

  -- The fuel of `send_following_redirects`: one round for each redirect, and one more.
  abbrev pub rounds : ℕ
  rounds = suc max_redirects

  pub send_following_redirects :
      net.Url
      → ℕ
      → Option Bytes
      → Bytes
      → (Bytes → Error)
      → Bool
      → ℕ
      → Session net
      → Option (Result net.Response Error × Session net)
  send_following_redirects url deadline range call redirect_error missing index s =
      follow rounds url deadline range call redirect_error missing index 0 s
