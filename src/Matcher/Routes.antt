-- ===== src/Matcher/Routes.antt =====
-- src/matcher.rs: the first declared route that fits answers.
use stuntdouble.Common.{
  ℕ, zero, suc, ◌+◌, ◌≡◌, ◌↔◌, refl, sym, ap, ◌∙◌, none, some, List, [], ◌∷◌, get_elem?, arith, All,
  inl, inr, ◌⊎◌, Bool-cases, Option-cases,
}
use mathlib.Core.Path.{subst}
use stuntdouble.Common.Bytes.{Bytes, ◌==ᵇ◌, ==ᵇ_iff, to_ascii_uppercase}
use stuntdouble.Common.Dict.{Dict, lookup}
use stuntdouble.Matcher.{Route, Match, split, match_segments, find_route, match_route}
use stuntdouble.Matcher.Segments.{FitAll, param, match_segments-FitAll, match_segments-param}

-- The route answers: its method is this one, and its path fits.
abbrev pub Answers : Bytes → List Bytes → Route → Type 0
Answers method segments route = (route.method ≡ method) × FitAll (split route.path) segments

-- None of the first `n` routes answers.
abbrev pub NoneBefore : Bytes → List Bytes → ℕ → List Route → Type 0
NoneBefore method segments zero routes = Unit
NoneBefore method segments (suc n) [] = Unit
NoneBefore method segments (suc n) (route ∷ routes) =
    (¬ Answers method segments route) × NoneBefore method segments n routes

-- The n-th route is the first that answers.
pub record IsFirst (method : Bytes) (segments : List Bytes) (routes : List Route) (n : ℕ)
    (params : Dict Bytes) : Type 0 where
  pub route : Route
  pub declared : get_elem? routes n ≡ some route
  pub answers : Answers method segments route
  pub first : NoneBefore method segments n routes
  pub captured : (name : Bytes) → lookup name params ≡ param name (split route.path) segments none

module _ (method : Bytes) (segments : List Bytes) where
  -- What one route does to the search.
  Answers-dec : (route : Route) → Answers method segments route ⊎ (¬ Answers method segments route)
  Answers-dec route = elim (Bool-cases (route.method ==ᵇ method)) [
    | inr other ↦ inr (λ a. cc ((==ᵇ_iff route.method method).1 a.0))
    | inl same ↦ elim (Option-cases (match_segments route.path segments)) [
      | inl missed ↦
          inr (λ a. let (found, ok, names) = match_segments-FitAll route.path segments a.1 in cc ok)
      | inr (params, ok) ↦ inl (
        (==ᵇ_iff route.method method).0 same,
        (match_segments-param route.path segments params ok).0,
      )
    ]
  ]

  find_route-skip :
      (index : ℕ) (route : Route) (routes : List Route)
      → ¬ Answers method segments route
      → find_route index (route ∷ routes) method segments
        ≡ find_route (suc index) routes method segments
  unfolding find_route
  find_route-skip index route routes other = elim (Bool-cases (route.method ==ᵇ method)) [
    | inr differs ↦ rw (differs, find_route)
    | inl same ↦ elim (Option-cases (match_segments route.path segments)) [
      | inl missed ↦ rw (same, find_route, missed)
      | inr (params, ok) ↦ absurd (
          other (
            (==ᵇ_iff route.method method).0 same,
            (match_segments-param route.path segments params ok).0,
          ))
    ]
  ]

  find_route-hit :
      (index : ℕ) (route : Route) (routes : List Route)
      → Answers method segments route
      → (params : Dict Bytes) × (match_segments route.path segments ≡ some params)
        × (find_route index (route ∷ routes) method segments
            ≡ some (record { route_index = index; params = params }))
  unfolding find_route
  find_route-hit index route routes (same, fits) =
      let (params, ok, names) = match_segments-FitAll route.path segments fits in
      (params, ok, rw ((==ᵇ_iff route.method method).1 same, find_route, ok))

  -- A later route that is first among its own, behind one that does not answer.
  IsFirst-later :
      {route : Route} {routes : List Route} {n : ℕ} {params : Dict Bytes}
      → ¬ Answers method segments route
      → IsFirst method segments routes n params
      → IsFirst method segments (route ∷ routes) (suc n) params
  IsFirst-later other f = record {
    route = f.route;
    declared = f.declared;
    answers = f.answers;
    first = (other, f.first);
    captured = f.captured;
  }

  find_route-IsFirst :
      (index : ℕ) (routes : List Route) (found : Match)
      → find_route index routes method segments ≡ some found
      → (n : ℕ) × (found.route_index ≡ index + n) × IsFirst method segments routes n found.params
  find_route-IsFirst index [] found e = unfold find_route in cc
  find_route-IsFirst index (route ∷ routes) found e = elim (Answers-dec route) [
    | inr other ↦
        let (n, at, f) =
          find_route-IsFirst (suc index) routes found
            (sym (find_route-skip index route routes other) ∙ e) in
        (suc n, omega arith, IsFirst-later other f)
    | inl answers ↦
        let (params, ok, hit) = find_route-hit index route routes answers in
        let same : record { route_index = index; params = params } ≡ found = cc in
        (
          0,
          omega (arith, ap (λ (m : Match). m.route_index) same),
          subst (λ p. IsFirst method segments (route ∷ routes) 0 p)
              (ap (λ (m : Match). m.params) same)
              (record {
                route = route;
                declared = refl;
                answers = answers;
                first = tt;
                captured = (match_segments-param route.path segments params ok).1;
              }),
        )
  ]

  find_route-none_iff :
      (index : ℕ) (routes : List Route)
      → (find_route index routes method segments ≡ none)
        ↔ All (λ route. ¬ Answers method segments route) routes
  find_route-none_iff index [] = (λ _. tt, λ _. unfold find_route in refl)
  find_route-none_iff index (route ∷ routes) = elim (Answers-dec route) [
    | inr other ↦
        let (to, from) = find_route-none_iff (suc index) routes in
        let skip = find_route-skip index route routes other in
        (λ e. (other, to (sym skip ∙ e)), λ a. skip ∙ from a.1)
    | inl answers ↦
        let (params, ok, hit) = find_route-hit index route routes answers in
        (λ e. absurd (cc hit), λ a. absurd (a.0 answers))
  ]

-- The route that is chosen is the first declared one whose method is the request's in upper case and
-- whose path fits, and its parameters are the decoded segments that its path names.
pub match_route-IsFirst :
    (routes : List Route) (method path : Bytes) (found : Match)
    → match_route routes method path ≡ some found
    → IsFirst (to_ascii_uppercase method) (split path) routes found.route_index found.params
match_route-IsFirst routes method path found e =
    let (n, at, f) =
      find_route-IsFirst (to_ascii_uppercase method) (split path) 0 routes found
        (unfold match_route in e) in
    let same : found.route_index ≡ n = omega arith in rw same f

-- No route is chosen exactly when none has the method and a path that fits.
pub match_route-none_iff :
    (routes : List Route) (method path : Bytes)
    → (match_route routes method path ≡ none)
      ↔ All (λ route. ¬ Answers (to_ascii_uppercase method) (split path) route) routes
unfolding match_route
match_route-none_iff routes method path =
    find_route-none_iff (to_ascii_uppercase method) (split path) 0 routes
