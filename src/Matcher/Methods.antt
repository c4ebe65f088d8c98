-- ===== src/Matcher/Methods.antt =====
-- src/matcher.rs: the methods that a path allows.
use stuntdouble.Common.{
  ◌≡◌, ◌↔◌, ◌⊎◌, refl, sym, ap, ◌∙◌, true, false, ◌||◌, not, none, some, List, [], ◌∷◌, ◌++◌, arith,
  inl, inr, if◌then◌else◌, Bool-cases, Option-cases,
}
use mathlib.Core.List.{append_assoc, append-nil}
use stuntdouble.Common.Bytes.{Bytes, ◌==ᵇ◌, ==ᵇ_iff, to_ascii_uppercase}
use stuntdouble.Matcher.{
  Route, split, contains, is_none_left, match_segments, collect_methods, allowed_methods,
  has_path_match,
}
use stuntdouble.Matcher.Segments.{FitAll, match_segments-FitAll, match_segments-misfits}

-- The methods of the routes that the path fits, one for each, in declaration order.
pub fitting_methods : List Route → List Bytes → List Bytes
fitting_methods [] segments = []
fitting_methods (route ∷ routes) segments =
    let rest = fitting_methods routes segments in
    elim (match_segments route.path segments) [
      | none ↦ rest
      | some _ ↦ to_ascii_uppercase route.method ∷ rest
    ]

pub without : Bytes → List Bytes → List Bytes
without m [] = []
without m (x ∷ xs) = let rest = without m xs in if x ==ᵇ m then rest else x ∷ rest

-- Each text once, where it first stands.
pub nub : List Bytes → List Bytes
unfolding without
nub [] = []
nub (m ∷ ms) = m ∷ without m (nub ms)

-- The texts that are not yet seen, each once.
fresh : List Bytes → List Bytes → List Bytes
fresh seen [] = []
fresh seen (m ∷ ms) =
    let skip = fresh seen ms in
    let add = m ∷ fresh (m ∷ seen) ms in if contains seen m then skip else add

collect_methods-fresh :
    (routes : List Route) (segments seen methods : List Bytes)
    → collect_methods routes segments seen methods
      ≡ methods ++ fresh seen (fitting_methods routes segments)
unfolding collect_methods fresh fitting_methods
collect_methods-fresh [] segments seen methods = sym (append-nil methods)
collect_methods-fresh (route ∷ routes) segments seen methods =
    elim (Option-cases (match_segments route.path segments)) [
      | inl missed ↦
          rw (missed, collect_methods, fitting_methods)
            (collect_methods-fresh routes segments seen methods)
      | inr (params, ok) ↦ elim (Bool-cases (contains seen (to_ascii_uppercase route.method))) [
        | inl old ↦
            rw (ok, collect_methods, fitting_methods, fresh, old)
              (collect_methods-fresh routes segments seen methods)
        | inr new ↦
            rw (ok, collect_methods, fitting_methods, fresh, new)
              (collect_methods-fresh routes segments (to_ascii_uppercase route.method ∷ seen)
                  (methods ++ to_ascii_uppercase route.method ∷ [])
                ∙ append_assoc methods (to_ascii_uppercase route.method ∷ []) _)
      ]
    ]

fresh_same :
    (ms a b : List Bytes) → ((y : Bytes) → contains a y ≡ contains b y) → fresh a ms ≡ fresh b ms
unfolding fresh
fresh_same [] a b h = refl
fresh_same (m ∷ ms) a b h = ground (
  arith,
  h m,
  fresh_same ms a b h,
  fresh_same ms (m ∷ a) (m ∷ b) (λ y. ap (λ t. m ==ᵇ y || t) (h y)),
)

without_idem : (m : Bytes) (xs : List Bytes) → without m (without m xs) ≡ without m xs
unfolding without
without_idem m [] = refl
without_idem m (x ∷ xs) = ground (arith, without_idem m xs)

contains_swap :
    (a b y : Bytes) (xs : List Bytes) → contains (a ∷ b ∷ xs) y ≡ contains (b ∷ a ∷ xs) y
contains_swap a b y xs = ground arith

contains_later :
    (m : Bytes) (xs : List Bytes) (x : Bytes) → contains xs x ≡ true → contains (m ∷ xs) x ≡ true
contains_later m xs x h = ground arith

fresh-cons : (m : Bytes) (seen ms : List Bytes) → fresh (m ∷ seen) ms ≡ without m (fresh seen ms)
unfolding fresh without
fresh-cons m seen [] = refl
fresh-cons m seen (x ∷ ms) = elim (Bool-cases (contains seen x)) [
  | inl old ↦ ground (arith, old, fresh-cons m seen ms)
  | inr new ↦ elim (Bool-cases (m ==ᵇ x)) [
    | inl same ↦
        let e : m ≡ x = (==ᵇ_iff m x).0 same in
        let ih = fresh-cons m seen ms in
        rw (same, new, (==ᵇ_iff x m).1 (sym e), ← e)
          (ih ∙ sym (ap (without m) ih ∙ without_idem m (fresh seen ms)))
    | inr other ↦
        let differs : (x ==ᵇ m) ≡ false = ground (arith, ==ᵇ_iff x m, ==ᵇ_iff m x) in
        rw (other, new, differs)
          (ap (λ t. x ∷ t)
            (fresh_same ms (x ∷ m ∷ seen) (m ∷ x ∷ seen) (λ y. contains_swap x m y seen)
              ∙ fresh-cons m (x ∷ seen) ms))
  ]
]

fresh-nub : (ms : List Bytes) → fresh [] ms ≡ nub ms
unfolding fresh nub
fresh-nub [] = refl
fresh-nub (m ∷ ms) = ap (λ t. m ∷ t) (fresh-cons m [] ms ∙ ap (without m) (fresh-nub ms))

-- The allowed methods are the upper-case methods of the routes that the path fits, each once, in the
-- order in which they are first declared.
pub allowed_methods-nub :
    (routes : List Route) (path : Bytes)
    → allowed_methods routes path ≡ nub (fitting_methods routes (split path))
unfolding allowed_methods
allowed_methods-nub routes path =
    collect_methods-fresh routes (split path) [] []
    ∙ fresh-nub (fitting_methods routes (split path))

-- Some route's path fits.
abbrev pub FitsSome : List Route → List Bytes → Type 0
FitsSome [] segments = ⊥
FitsSome (route ∷ routes) segments = FitAll (split route.path) segments ⊎ FitsSome routes segments

fitting_methods-nonempty :
    (routes : List Route) (segments : List Bytes)
    → (not (is_none_left (fitting_methods routes segments)) ≡ true) ↔ FitsSome routes segments
unfolding fitting_methods
fitting_methods-nonempty [] segments = (λ e. cc, λ f. absurd f)
fitting_methods-nonempty (route ∷ routes) segments =
    elim (Option-cases (match_segments route.path segments)) [
      | inl missed ↦
          rw (missed, fitting_methods)
            (
              λ e. inr ((fitting_methods-nonempty routes segments).0 e),
              λ f. elim f [
                | inl here ↦
                    let (found, ok, names) = match_segments-FitAll route.path segments here in
                    cc (ok, missed)
                | inr later ↦ (fitting_methods-nonempty routes segments).1 later
              ],
            )
      | inr (params, ok) ↦
          rw (ok, fitting_methods)
            (λ _. inl (match_segments-misfits route.path segments ok), λ _. refl)
    ]

nub-nonempty : (ms : List Bytes) → is_none_left (nub ms) ≡ is_none_left ms
unfolding nub
nub-nonempty [] = refl
nub-nonempty (m ∷ ms) = refl

-- A path is known, so that its answer is not 404, exactly when some route's path fits it.
pub has_path_match_iff :
    (routes : List Route) (path : Bytes)
    → (has_path_match routes path ≡ true) ↔ FitsSome routes (split path)
unfolding has_path_match
has_path_match_iff routes path =
    let one = fitting_methods-nonempty routes (split path) in
    let same = allowed_methods-nub routes path in
    rw (same, nub-nonempty (fitting_methods routes (split path))) one
