-- ===== src/Server/Headers.antt =====
-- The header maps of the crate http, as far as src/server.rs uses them, with what it does to them.
use stuntdouble.Common.{
  ℕ, ◌≡◌, ◌≢◌, refl, inl, inr, Bool, true, false, ◌&&◌, Option, none, some, List, [], ◌∷◌, ◌++◌,
  leb, ltb, if◌then◌else◌, all, Result, ok, err, arith, Bool-cases,
}
use stuntdouble.Common.Bytes.{Bytes, codes, ◌==ᵇ◌, ==ᵇ_iff}
use stuntdouble.Common.Text.{to_text}

-- `HeaderName::from_bytes` gives the name in lower case, `HeaderValue::from_str` the value, or none;
-- `to_str` is none on bytes that are no visible ASCII; `debug` is `{:?}`.
pub record Http : Type 0 where
  pub header_name : Bytes → Option Bytes
  pub header_value : Bytes → Option Bytes
  pub to_str : Bytes → Option Bytes
  pub debug : Bytes → Bytes

-- The fields in order; the names are in lower case.
abbrev pub Headers : Type 0
Headers = List (Bytes × Bytes)

-- `get_all`
abbrev pub get_all : Bytes → Headers → List Bytes
get_all name [] = []
get_all name ((n, v) ∷ headers) =
    let rest = get_all name headers in if n ==ᵇ name then v ∷ rest else rest

abbrev pub remove_all : Bytes → Headers → Headers
remove_all name [] = []
remove_all name ((n, v) ∷ headers) =
    let rest = remove_all name headers in if n ==ᵇ name then rest else (n, v) ∷ rest

-- `insert` takes the place of every value of the name.
abbrev pub put : Bytes → Bytes → Headers → Headers
put name value headers = (name, value) ∷ remove_all name headers

abbrev pub has : Bytes → Headers → Bool
has name [] = false
has name ((n, v) ∷ headers) = if n ==ᵇ name then true else has name headers

get_all-remove_all :
    (k name : Bytes) (headers : Headers)
    → get_all k (remove_all name headers) ≡ (if name ==ᵇ k then [] else get_all k headers)
get_all-remove_all k name [] = ground arith
get_all-remove_all k name ((n, v) ∷ headers) =
    ground (arith, get_all-remove_all k name headers, ==ᵇ_iff n name, ==ᵇ_iff n k, ==ᵇ_iff name k)

pub get_all-put :
    (k name value : Bytes) (headers : Headers)
    → get_all k (put name value headers) ≡ (if name ==ᵇ k then value ∷ [] else get_all k headers)
get_all-put k name value headers = ground (arith, get_all-remove_all k name headers)

pub get_all-lacks :
    (name : Bytes) (headers : Headers) → has name headers ≡ false → get_all name headers ≡ []
get_all-lacks name [] h = refl
get_all-lacks name ((n, v) ∷ headers) h = elim (Bool-cases (n ==ᵇ name)) [
  | inl e ↦ absurd (ground (arith, rw (has, e) at h))
  | inr e ↦ rw (get_all, e) (get_all-lacks name headers (rw (has, e) at h))
]

pub get_all-has :
    (name : Bytes) (headers : Headers) → has name headers ≡ true → get_all name headers ≢ []
get_all-has name [] h = cc
get_all-has name ((n, v) ∷ headers) h = elim (Bool-cases (n ==ᵇ name)) [
  | inl e ↦ λ gone. cc (rw (get_all, e) at gone)
  | inr e ↦ λ gone. get_all-has name headers (rw (has, e) at h) (rw (get_all, e) at gone)
]

-- Whether a name is there, by the values that it has.
pub has-get_all :
    (name : Bytes) (headers : Headers) → get_all name headers ≢ [] → has name headers ≡ true
has-get_all name headers h = elim (Bool-cases (has name headers)) [
  | inl there ↦ there
  | inr gone ↦ absurd (h (get_all-lacks name headers gone))
]

pub lacks-get_all :
    (name : Bytes) (headers : Headers) → get_all name headers ≡ [] → has name headers ≡ false
lacks-get_all name headers h = elim (Bool-cases (has name headers)) [
  | inl there ↦ absurd (get_all-has name headers there h)
  | inr gone ↦ gone
]

-- Visible ASCII and spaces.
abbrev pub is_plain : ℕ → Bool
is_plain c = leb 32 c && ltb c 127

module _ (http : Http) where
  -- `headers.insert(name, value)` for a value that is made as a text; a bad one is left out.
  unfoldable pub put_text : Bytes → Bytes → Headers → Headers
  put_text name text headers = elim (http.header_value text) [
    | none ↦ headers
    | some value ↦ put name value headers
  ]

  unfoldable pub set_content_length : ℕ → Headers → Headers
  set_content_length len headers = put_text (codes "content-length") (to_text len) headers

  -- `validated_header_pairs` of src/script.rs
  pub validated_header_pairs : List (Bytes × Bytes) → Result Headers Bytes
  validated_header_pairs [] = ok []
  validated_header_pairs ((name, value) ∷ pairs) = elim (http.header_name name) [
    | none ↦ err (codes "invalid header name " ++ http.debug name)
    | some n ↦ elim (http.header_value value) [
      | none ↦ err (codes "invalid value for header " ++ http.debug name)
      | some v ↦ elim (validated_header_pairs pairs) [
        | err e ↦ err e
        | ok rest ↦ ok ((n, v) ∷ rest)
      ]
    ]
  ]

  -- `response_headers` appends the pairs in order.
  pub response_headers : List (Bytes × Bytes) → Result Headers Bytes
  response_headers pairs = validated_header_pairs pairs

  -- The documented promise of `HeaderValue::from_str` that the code relies on.
  abbrev pub IsAccepting : Type 0
  IsAccepting = (s : Bytes) → all is_plain s ≡ true → http.header_value s ≡ some s
