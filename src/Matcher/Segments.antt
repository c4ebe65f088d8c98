-- ===== src/Matcher/Segments.antt =====
-- src/matcher.rs: one pattern against one path, and what the parameters are.
use stuntdouble.Common.{
  suc, ◌≡◌, ◌≢◌, ◌↔◌, refl, ap, ◌∙◌, false, Option, none, some, List, [], ◌∷◌, ◌==◌, if◌then◌else◌,
  length, arith, inl, inr, Bool-cases, Option-cases, ==_iff,
}
use stuntdouble.Common.Bytes.{Bytes, ◌==ᵇ◌, ==ᵇ_iff, is_empty, strip_prefix}
use stuntdouble.Common.Dict.{Dict, lookup, insert, lookup-insert}
use stuntdouble.Matcher.{split, percent_decode, match_one, match_each, match_segments}

-- A pattern segment fits a path segment: it is `:name` with a name, or the same text.
abbrev pub Fits : Bytes → Bytes → Type 0
Fits expected actual = elim (strip_prefix b':' expected) [
  | some name ↦ name ≢ []
  | none ↦ expected ≡ actual
]

abbrev pub FitAll : List Bytes → List Bytes → Type 0
FitAll [] [] = Unit
FitAll (expected ∷ pattern) (actual ∷ segments) = Fits expected actual × FitAll pattern segments
FitAll _ _ = ⊥

-- What a parameter is after one segment: its decoded text, if the segment names it.
abbrev pub param_after : Bytes → Bytes → Bytes → Option Bytes → Option Bytes
param_after name expected actual before = elim (strip_prefix b':' expected) [
  | some named ↦ if named ==ᵇ name then some (percent_decode actual) else before
  | none ↦ before
]

-- The decoded value of the last segment that a parameter names, or what it was before.
abbrev pub param : Bytes → List Bytes → List Bytes → Option Bytes → Option Bytes
param name (expected ∷ pattern) (actual ∷ segments) before =
    param name pattern segments (param_after name expected actual before)
param name _ _ before = before

is_empty_iff : (s : Bytes) → (is_empty s ≡ false) ↔ (s ≢ [])
is_empty_iff [] = ground arith
is_empty_iff (c ∷ s) = ground arith

match_one-Fits :
    (x a : Bytes) (params : Dict Bytes)
    → Fits x a
    → (found : Dict Bytes) × (match_one x a params ≡ some found)
      × ((name : Bytes) → lookup name found ≡ param_after name x a (lookup name params))
unfolding match_one
match_one-Fits x a params f = elim (Option-cases (strip_prefix b':' x)) [
  | inl literal ↦
      let same : x ≡ a = rw (literal, Fits) at f in
      (params, rw (literal, match_one, (==ᵇ_iff x a).1 same), λ name. rw (literal, param_after))
  | inr (named, captures) ↦
      let ne : named ≢ [] = rw (captures, Fits) at f in
      (
        insert named (percent_decode a) params,
        rw (captures, match_one, (is_empty_iff named).1 ne),
        λ name. rw (captures, param_after) (lookup-insert named name (percent_decode a) params),
      )
]

match_one-misfits :
    (x a : Bytes) (params found : Dict Bytes) → match_one x a params ≡ some found → Fits x a
unfolding match_one
match_one-misfits x a params found m =
    ground (arith, ==ᵇ_iff x a, λ (named : Bytes). is_empty_iff named)

match_each-FitAll :
    (pattern segments : List Bytes) (params : Dict Bytes)
    → FitAll pattern segments
    → (found : Dict Bytes) × (match_each pattern segments params ≡ some found)
      × ((name : Bytes) → lookup name found ≡ param name pattern segments (lookup name params))
unfolding match_each
match_each-FitAll [] [] params f = (params, unfold match_each in refl, λ name. refl)
match_each-FitAll [] (a ∷ segments) params f = absurd f
match_each-FitAll (x ∷ pattern) [] params f = absurd f
match_each-FitAll (x ∷ pattern) (a ∷ segments) params (f, fs) =
    let (next, taken, after) = match_one-Fits x a params f in
    let (found, ok, names) = match_each-FitAll pattern segments next fs in
    (
      found,
      rw (match_each, taken) ok,
      λ name. names name ∙ ap (param name pattern segments) (after name),
    )

match_each-misfits :
    (pattern segments : List Bytes) (params found : Dict Bytes)
    → length pattern ≡ length segments
    → match_each pattern segments params ≡ some found
    → FitAll pattern segments
unfolding match_each
match_each-misfits [] [] params found e m = tt
match_each-misfits [] (a ∷ segments) params found e m = absurd (omega arith)
match_each-misfits (x ∷ pattern) [] params found e m = absurd (omega arith)
match_each-misfits (x ∷ pattern) (a ∷ segments) params found e m =
    elim (Option-cases (match_one x a params)) [
      | inl refused ↦ cc (rw (match_each, refused) at m)
      | inr (next, taken) ↦ (
        match_one-misfits x a params next taken,
        match_each-misfits pattern segments next found (omega arith) (rw (match_each, taken) at m),
      )
    ]

FitAll-length :
    (pattern segments : List Bytes) → FitAll pattern segments → length pattern ≡ length segments
FitAll-length [] [] f = refl
FitAll-length [] (a ∷ segments) f = absurd f
FitAll-length (x ∷ pattern) [] f = absurd f
FitAll-length (x ∷ pattern) (a ∷ segments) (f, fs) = ap suc (FitAll-length pattern segments fs)

-- A path that fits has a match, whose parameters are known.
pub match_segments-FitAll :
    (pattern : Bytes) (segments : List Bytes)
    → FitAll (split pattern) segments
    → (found : Dict Bytes) × (match_segments pattern segments ≡ some found)
      × ((name : Bytes) → lookup name found ≡ param name (split pattern) segments none)
unfolding lookup match_segments
match_segments-FitAll pattern segments f =
    let same = FitAll-length (split pattern) segments f in
    let (found, ok, names) = match_each-FitAll (split pattern) segments [] f in
    (
      found,
      rw (match_segments, (==_iff (length (split pattern)) (length segments)).1 same) ok,
      names,
    )

pub match_segments-misfits :
    (pattern : Bytes) (segments : List Bytes) {found : Dict Bytes}
    → match_segments pattern segments ≡ some found
    → FitAll (split pattern) segments
unfolding match_segments
match_segments-misfits pattern segments {found} m =
    elim (Bool-cases (length (split pattern) == length segments)) [
      | inl same ↦
          match_each-misfits (split pattern) segments [] found
            ((==_iff (length (split pattern)) (length segments)).0 same)
            (rw (match_segments, same) at m)
      | inr other ↦ cc (rw (match_segments, other) at m)
    ]

-- The parameters of a match: a name stands for the decoded text of the last segment that it names.
pub match_segments-param :
    (pattern : Bytes) (segments : List Bytes) (params : Dict Bytes)
    → match_segments pattern segments ≡ some params
    → FitAll (split pattern) segments
      × ((name : Bytes) → lookup name params ≡ param name (split pattern) segments none)
match_segments-param pattern segments params m =
    let f = match_segments-misfits pattern segments m in
    let (found, ok, names) = match_segments-FitAll pattern segments f in
    let same : found ≡ params = ground (arith, ok, m) in (f, rw (← same) names)
