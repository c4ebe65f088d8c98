-- ===== src/Server/Fallback/Checked.antt =====
-- src/server.rs: what a fallback script may answer.
use stuntdouble.Common.{
  ℕ, ◌≡◌, ◌↔◌, refl, ap, ◌∙◌, inl, inr, true, false, not, ◌||◌, Option, none, some, List, [], ◌∷◌,
  ◌++◌, ◌==◌, ==_iff, if◌then◌else◌, arith, Bool-cases,
}
use stuntdouble.Common.Bytes.{Bytes, codes, eq_ignore_ascii_case, to_ascii_lowercase}
use stuntdouble.Common.Text.{join_with}
use stuntdouble.Matcher
use stuntdouble.Matcher.{Route, is_none_left, allowed_methods, has_path_match, split}
use stuntdouble.Matcher.Methods.{FitsSome, has_path_match_iff}
use stuntdouble.Script.Protocol.{Error, no_response}
use stuntdouble.Script.Record.{ScriptResponse, ResponseBody, text, bytes, stream, file, Outcome}
use stuntdouble.Server.Response.{Handled, not_found, script_failed, responded}
use stuntdouble.Server.Fallback.{
  MatchKind, unknown_path, method_not_allowed, classify, required_status, is_streamed, handled_of,
  reported, without_allow, with_allow, check_fallback, handle_unmatched,
}

-- The values of the headers that are named `allow`, letter case aside.
abbrev pub allow_values : List (Bytes × Bytes) → List Bytes
allow_values [] = []
allow_values ((name, value) ∷ headers) =
    let rest = allow_values headers in
    if eq_ignore_ascii_case name (codes "allow") then value ∷ rest else rest

allow_values-append :
    (xs ys : List (Bytes × Bytes)) → allow_values (xs ++ ys) ≡ allow_values xs ++ allow_values ys
allow_values-append [] ys = refl
allow_values-append ((name, value) ∷ xs) ys =
    elim (Bool-cases (eq_ignore_ascii_case name (codes "allow"))) [
      | inl e ↦ rw e (ap (λ t. value ∷ t) (allow_values-append xs ys))
      | inr e ↦ rw e (allow_values-append xs ys)
    ]

allow_values-without_allow :
    (headers : List (Bytes × Bytes)) → allow_values (without_allow headers) ≡ []
allow_values-without_allow [] = refl
allow_values-without_allow ((name, value) ∷ headers) =
    elim (Bool-cases (eq_ignore_ascii_case name (codes "allow"))) [
      | inl e ↦ rw e (allow_values-without_allow headers)
      | inr e ↦ rw (e, allow_values, e) (allow_values-without_allow headers)
    ]

-- The headers of an answer, from those of the script.
abbrev pub Heads : MatchKind → List Bytes → List (Bytes × Bytes) → List (Bytes × Bytes) → Type 0
Heads unknown_path allowed theirs headers = headers ≡ theirs
Heads method_not_allowed allowed theirs headers =
    (allow_values headers ≡ join_with (codes ", ") allowed ∷ [])
    × (without_allow headers ≡ without_allow theirs)

without_allow-append :
    (xs : List (Bytes × Bytes)) (value : Bytes)
    → without_allow (without_allow xs ++ (codes "Allow", value) ∷ []) ≡ without_allow xs
unfolding eq_ignore_ascii_case to_ascii_lowercase
without_allow-append [] value = refl
without_allow-append ((name, v) ∷ xs) value =
    elim (Bool-cases (eq_ignore_ascii_case name (codes "allow"))) [
      | inl e ↦ rw e (without_allow-append xs value)
      | inr e ↦
          rw e (rw (without_allow, e) (ap (λ t. (name, v) ∷ t) (without_allow-append xs value)))
    ]

-- The status that a kind of match requires.
abbrev pub IsWanted : MatchKind → ℕ → Type 0
IsWanted unknown_path n = n ≡ 404
IsWanted method_not_allowed n = n ≡ 405

required_status-IsWanted : (kind : MatchKind) (n : ℕ) → (n ≡ required_status kind) ↔ IsWanted kind n
required_status-IsWanted unknown_path n = (λ e. e, λ e. e)
required_status-IsWanted method_not_allowed n = (λ e. e, λ e. e)

classify-known :
    (allowed : List Bytes)
    → (classify allowed ≡ method_not_allowed) ↔ (not (is_none_left allowed) ≡ true)
unfolding classify
classify-known [] = (λ e. absurd (ground arith), λ e. absurd (ground arith))
classify-known (m ∷ ms) = (λ e. refl, λ e. refl)

classify-fits :
    (routes : List Route) (path : Bytes)
    → (classify (allowed_methods routes path) ≡ method_not_allowed) ↔ FitsSome routes (split path)
unfolding Matcher.has_path_match
classify-fits routes path =
    let (to_known, from_known) = classify-known (allowed_methods routes path) in
    let (to_fits, from_fits) = has_path_match_iff routes path in
    (λ e. to_fits (to_known e), λ f. from_known (from_fits f))

allow_one : (value : Bytes) → allow_values ((codes "Allow", value) ∷ []) ≡ value ∷ []
unfolding eq_ignore_ascii_case to_ascii_lowercase
allow_one value = refl

module _ {Pipe File : Type 0} where
  -- A body that is sent from memory.
  abbrev pub IsInMemory : ResponseBody Pipe File → Type 0
  IsInMemory (text s) = Unit
  IsInMemory (bytes s) = Unit
  IsInMemory (stream pipe) = ⊥
  IsInMemory (file body) = ⊥

  is_streamed-IsInMemory :
      (body : ResponseBody Pipe File) → (is_streamed body ≡ false) ↔ IsInMemory body
  is_streamed-IsInMemory (text s) = (λ e. tt, λ u. refl)
  is_streamed-IsInMemory (bytes s) = (λ e. tt, λ u. refl)
  is_streamed-IsInMemory (stream pipe) = (λ e. absurd (cc e), λ u. absurd u)
  is_streamed-IsInMemory (file body) = (λ e. absurd (cc e), λ u. absurd u)

  -- A response that a fallback may give.
  abbrev pub IsFit : MatchKind → ScriptResponse Pipe File → Type 0
  IsFit kind r = IsWanted kind r.status × IsInMemory r.body

  -- Why a fallback has failed: its response is not fit, or it has none, for its own reason if it tells
  -- one.
  abbrev pub IsReason :
      MatchKind → Option (ScriptResponse Pipe File) → Option Error → Error → Type 0
  IsReason kind (some theirs) error e = ¬ IsFit kind theirs
  IsReason kind none (some error) e = e ≡ error
  IsReason kind none none e = e ≡ no_response

  -- What a fallback may answer: a script error, for a reason, or a fit response. Where the method is
  -- not allowed, one header tells the methods that are, and the script's other headers stay as they
  -- are; the response is the script's but for that.
  abbrev pub IsChecked :
      MatchKind
      → List Bytes
      → Option (ScriptResponse Pipe File)
      → Option Error
      → Handled Pipe File
      → Type 0
  IsChecked kind allowed given error (responded r) =
      IsFit kind r
      × (theirs : ScriptResponse Pipe File) × (given ≡ some theirs)
      × (r.status ≡ theirs.status)
      × (r.body ≡ theirs.body)
      × Heads kind allowed theirs.headers r.headers
  IsChecked kind allowed given error (script_failed e) = IsReason kind given error e
  IsChecked kind allowed given error _ = ⊥

  with_allow-IsChecked :
      (kind : MatchKind) (allowed : List Bytes) (r : ScriptResponse Pipe File)
      (error : Option Error)
      → IsFit kind r
      → IsChecked kind allowed (some r) error (responded (with_allow kind allowed r))
  unfolding with_allow
  with_allow-IsChecked unknown_path allowed r error fit = (fit, r, refl, refl, refl, refl)
  with_allow-IsChecked method_not_allowed allowed r error fit =
      let value = join_with (codes ", ") allowed in
      (
        fit,
        r,
        refl,
        refl,
        refl,
        (
          allow_values-append (without_allow r.headers) ((codes "Allow", value) ∷ [])
              ∙ rw (allow_values-without_allow r.headers) (allow_one value),
          without_allow-append r.headers value,
        ),
      )

  -- The test of the code and its meaning.
  test-IsFit :
      (kind : MatchKind) (r : ScriptResponse Pipe File)
      → ((not (r.status == required_status kind) || is_streamed r.body) ≡ false) ↔ IsFit kind r
  test-IsFit kind r =
      let status_iff = required_status-IsWanted kind r.status in
      let body_iff = is_streamed-IsInMemory r.body in
      let eq_iff = ==_iff r.status (required_status kind) in
      (
        λ good. (status_iff.0 (eq_iff.0 (ground (arith, good))), body_iff.0 (ground (arith, good))),
        λ fit.
            let same = eq_iff.1 (status_iff.1 fit.0) in
            let whole = body_iff.1 fit.1 in ground (arith, same, whole),
      )

  reported-IsChecked :
      (kind : MatchKind) (allowed : List Bytes) (given : Option (ScriptResponse Pipe File))
      (error : Option Error)
      → IsChecked kind allowed given error (check_fallback kind allowed (reported given error))
  unfolding check_fallback
  reported-IsChecked kind allowed none none = refl
  reported-IsChecked kind allowed none (some error) = refl
  reported-IsChecked kind allowed (some r) error =
      elim (Bool-cases (not (r.status == required_status kind) || is_streamed r.body)) [
        | inl bad ↦ rw (check_fallback, bad) (λ fit. cc (bad, (test-IsFit kind r).1 fit))
        | inr good ↦
            rw (check_fallback, good)
              (with_allow-IsChecked kind allowed r error ((test-IsFit kind r).0 good))
      ]

  -- A request without a route is answered by the fallback, if there is one. A response of its script
  -- is kept if its body is sent from memory and its status is 404 where no route's path fits, and 405
  -- otherwise. On a 405 one `Allow` header tells the methods that the path allows, and the other
  -- headers of the script stay; on a 404 all of them do. Any other response, and no response, is
  -- answered as a script error. Without a fallback the answer is the host's.
  pub handle_unmatched-IsChecked :
      (routes : List Route) (path : Bytes) (run : MatchKind → List Bytes → Outcome Pipe File)
      → let allowed = allowed_methods routes path in
        let kind = classify allowed in
        ((kind ≡ method_not_allowed) ↔ FitsSome routes (split path))
        × IsChecked kind allowed
            (run kind allowed).response
            (run kind allowed).error
            (handle_unmatched routes path true run)
        × (handle_unmatched routes path false run ≡ not_found)
  unfolding handle_unmatched handled_of
  handle_unmatched-IsChecked routes path run =
      let allowed = allowed_methods routes path in
      (
        classify-fits routes path,
        reported-IsChecked (classify allowed) allowed (run (classify allowed) allowed).response
            (run (classify allowed) allowed).error,
        refl,
      )
