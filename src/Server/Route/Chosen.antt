-- ===== src/Server/Route/Chosen.antt =====
-- src/server.rs: which script answers a request, and which requests no script sees.
use stuntdouble.Common.{
  ℕ, ◌≡◌, ◌⊎◌, refl, inl, inr, Option, none, some, List, Result, ok, err, Option-cases, All,
}
use stuntdouble.Common.Bytes.{Bytes, to_ascii_uppercase}
use stuntdouble.Common.Dict.{Dict}
use stuntdouble.Files.Multipart.{Storage, content_length}
use stuntdouble.Config.{Fallback}
use stuntdouble.Matcher.{Route, split, match_route}
use stuntdouble.Matcher.Routes.{Answers, IsFirst, match_route-IsFirst, match_route-none_iff}
use stuntdouble.Server.Response.{body_too_large, request_timeout, upload_failed}
use stuntdouble.Server.Fallback.{handled_of}
use stuntdouble.Server.Prepare.{
  Inbound, PreparedRequest, PrepareError, upload_error, oversized, prepare_request,
}
use stuntdouble.Server.Route.{
  Engine, Routed, script_outcome, run_script_inner, run_prepared, label_of, route_unmatched,
  route_matched, route_request,
}

module _ {Pipe File : Type 0} (engine : Engine Pipe File) where
  -- What is answered for a route: without its script if the body was late or not prepared, and
  -- otherwise from the outcome of its script on the prepared request.
  abbrev pub IsHandled :
      Route → Inbound → Result PreparedRequest PrepareError → Routed Pipe File → Type 0
  IsHandled route request (err (upload_error failure n)) routed =
      (routed.handled ≡ upload_failed failure) × (routed.request_body_bytes ≡ n)
  IsHandled route request (err (oversized n)) routed =
      (routed.handled ≡ body_too_large) × (routed.request_body_bytes ≡ n)
  IsHandled route request (ok prepared) routed =
      (routed.handled ≡ handled_of (script_outcome engine route.script prepared))
      × (routed.request_body_bytes ≡ prepared.request_body_bytes)
      × (routed.upload ≡ prepared.upload)

  run_prepared-IsHandled :
      (route : Route) (params : Dict Bytes) (request : Inbound)
      (result : Result PreparedRequest PrepareError)
      → let routed = run_prepared engine (label_of route) params route.script result in
        (routed.label ≡ label_of route)
        × (routed.params ≡ params)
        × IsHandled route request result routed
  unfolding run_script_inner
  run_prepared-IsHandled route params request (err (upload_error failure n)) =
      (refl, refl, (refl, refl))
  run_prepared-IsHandled route params request (err (oversized n)) = (refl, refl, (refl, refl))
  run_prepared-IsHandled route params request (ok prepared) = (refl, refl, (refl, refl, refl))

  module _ (storage : Storage) (most : ℕ) where
    abbrev pub IsTimely :
        Route
        → Inbound
        → Option storage.World
        → storage.World
        → Routed Pipe File
        → storage.World
        → Type 0
    IsTimely route request none w routed after =
        (after ≡ (prepare_request storage most request w).1)
        × IsHandled route request (prepare_request storage most request w).0 routed
    IsTimely route request (some cut) w routed after =
        (after ≡ cut)
        × (routed.handled ≡ request_timeout)
        × (routed.request_body_bytes ≡ content_length request.length_header)

    route_matched-IsTimely :
        (route : Route) (params : Dict Bytes) (request : Inbound) (late : Option storage.World)
        (w : storage.World)
        → let done = route_matched storage most engine route params request late w in
          (done.0.label ≡ label_of route)
          × (done.0.params ≡ params)
          × IsTimely route request late w done.0 done.1
    unfolding route_matched
    route_matched-IsTimely route params request (some cut) w = (refl, refl, (refl, refl, refl))
    route_matched-IsTimely route params request none w =
        let (result, after) = prepare_request storage most request w in
        let (label, params_are, handled) = run_prepared-IsHandled route params request result in
        (label, params_are, (refl, handled))

    -- Every request is routed: no index of a route is out of bounds. If no route has its method and a
    -- path that fits, it is answered without a route, which leaves the storage as it is. Otherwise its
    -- parameters are those of the first such route, and the answer is of that route: without the script
    -- if the body was late or not prepared, and otherwise from the outcome of its script.
    pub route_request-IsRouted :
        (routes : List Route) (fallback : Option Fallback) (request : Inbound)
        (late : Option storage.World) (w : storage.World)
        → let method = to_ascii_uppercase request.method in
          let segments = split request.path in
          (routed : Routed Pipe File) × (after : storage.World) × (route_request storage most engine
              routes fallback request late w
            ≡ some (routed, after))
          × ((All (λ route. ¬ Answers method segments route) routes
                × (routed ≡ route_unmatched engine routes fallback request.path)
                × (after ≡ w))
              ⊎ ((n : ℕ) × (first : IsFirst method segments routes n routed.params) × (routed.label
                    ≡ label_of first.route)
                  × IsTimely first.route request late w routed after))
    unfolding route_request
    route_request-IsRouted routes fallback request late w =
        elim (Option-cases (match_route routes request.method request.path)) [
          | inl missed ↦ (
            route_unmatched engine routes fallback request.path,
            w,
            rw (route_request, missed) refl,
            inl ((match_route-none_iff routes request.method request.path).0 missed, refl, refl),
          )
          | inr (found, hit) ↦
              let first = match_route-IsFirst routes request.method request.path found hit in
              let done =
                route_matched storage most engine first.route found.params request late w in
              let (label, params_are, timely) =
                route_matched-IsTimely first.route found.params request late w in
              (
                done.0,
                done.1,
                rw (route_request, hit, first.declared) refl,
                inr (
                  found.route_index,
                  record {
                    route = first.route;
                    declared = first.declared;
                    answers = first.answers;
                    first = first.first;
                    captured = λ name. rw params_are (first.captured name);
                  },
                  label,
                  timely,
                ),
              )
        ]
