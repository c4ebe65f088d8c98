-- ===== src/Server/Response/Requested.antt =====
-- src/server.rs: which range of a file a request asks for, and which headers a script may not set.
use stuntdouble.Common.{
  ℕ, ◌≡◌, ◌≢◌, ◌⊎◌, ◌↔◌, refl, inl, inr, none, some, List, [], ◌∷◌, ◌++◌, arith, Bool-cases,
}
use stuntdouble.Common.Bytes.{Bytes, codes}
use stuntdouble.Json.{Json}
use stuntdouble.Files.Range
use stuntdouble.Files.Range.{RangeDecision, full, unsatisfiable, decide_range}
use stuntdouble.Files.Range.Selects.{Spec, spec_text, AreIndices, Asks, Carries, decide_range-Asks}
use stuntdouble.Server.Headers.{
  Http, Headers, get_all, has, get_all-lacks, get_all-has, has-get_all, lacks-get_all,
}
use stuntdouble.Server.Response.{decide, framing_header, range_of, range_request}

module _ (http : Http) where
  -- What the header fields of a request say of the range. A field that is repeated or no text cannot
  -- be met, and a well-formed one selects the bytes that it asks for.
  pub record IsRequested (request : Headers) (size : ℕ) (decision : RangeDecision) : Type 0 where
    pub conditional : get_all (codes "if-range") request ≢ [] → decision ≡ full
    pub absent : get_all (codes "range") request ≡ [] → decision ≡ full
    pub repeated :
        (v w : Bytes) (vs : List Bytes)
        → get_all (codes "if-range") request ≡ []
        → get_all (codes "range") request ≡ v ∷ w ∷ vs
        → decision ≡ unsatisfiable
    pub unreadable :
        (v : Bytes)
        → get_all (codes "if-range") request ≡ []
        → get_all (codes "range") request ≡ v ∷ []
        → http.to_str v ≡ none
        → decision ≡ unsatisfiable
    pub single :
        (v text : Bytes)
        → get_all (codes "if-range") request ≡ []
        → get_all (codes "range") request ≡ v ∷ []
        → http.to_str v ≡ some text
        → decision ≡ decide_range size (some text)
    pub selected :
        (v : Bytes) (spec : Spec) (i : ℕ)
        → get_all (codes "if-range") request ≡ []
        → get_all (codes "range") request ≡ v ∷ []
        → AreIndices spec
        → http.to_str v ≡ some (codes "bytes=" ++ spec_text spec)
        → Carries size decision i ↔ Asks size spec i

  module _ (to_vec : Json → Bytes) where
    pub range_request-IsRequested :
        (request : Headers) (size : ℕ)
        → IsRequested request size (decide size (range_request http to_vec request))
    unfolding range_request decide Range.decide_range
    range_request-IsRequested request size = record {
      conditional = λ h. rw (range_request, has-get_all (codes "if-range") request h) refl;
      absent = λ h. elim (Bool-cases (has (codes "if-range") request)) [
        | inl there ↦ rw (range_request, there) refl
        | inr gone ↦ rw (range_request, gone, h) refl
      ];
      repeated =
          λ v w vs h k. rw (range_request, lacks-get_all (codes "if-range") request h, k) refl;
      unreadable = λ v h k e.
          rw (range_request, lacks-get_all (codes "if-range") request h, k, range_of, e) refl;
      single = λ v text h k e.
          rw (range_request, lacks-get_all (codes "if-range") request h, k, range_of, e) refl;
      selected = λ v spec i h k good e.
          rw (range_request, lacks-get_all (codes "if-range") request h, k, range_of, e)
            (decide_range-Asks size i spec good);
    }

abbrev pub length_name : Bytes
length_name = codes "content-length"

abbrev pub range_name : Bytes
range_name = codes "content-range"

abbrev pub accept_name : Bytes
accept_name = codes "accept-ranges"

-- A script sets none of the headers that the host owns.
abbrev pub IsBare : Headers → Type 0
IsBare headers =
    (get_all length_name headers ≡ [])
    × (get_all range_name headers ≡ [])
    × (get_all accept_name headers ≡ [])

-- A script sets one of them.
abbrev pub IsFramed : Headers → Type 0
IsFramed headers =
    (get_all length_name headers ≢ [])
    ⊎ (get_all range_name headers ≢ [])
    ⊎ (get_all accept_name headers ≢ [])

pub framing_header-none : (headers : Headers) → framing_header headers ≡ none → IsBare headers
unfolding framing_header
framing_header-none headers e = (
  get_all-lacks length_name headers (ground arith),
  get_all-lacks range_name headers (ground arith),
  get_all-lacks accept_name headers (ground arith),
)

pub framing_header-some :
    (headers : Headers) (name : Bytes) → framing_header headers ≡ some name → IsFramed headers
unfolding framing_header
framing_header-some headers name e = elim (Bool-cases (has length_name headers)) [
  | inl there ↦ inl (get_all-has length_name headers there)
  | inr a ↦ elim (Bool-cases (has range_name headers)) [
    | inl there ↦ inr (inl (get_all-has range_name headers there))
    | inr b ↦ elim (Bool-cases (has accept_name headers)) [
      | inl there ↦ inr (inr (get_all-has accept_name headers there))
      | inr c ↦ absurd (cc (rw (framing_header, a, b, c) at e))
    ]
  ]
]
