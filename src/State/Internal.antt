-- ===== src/State/Internal.antt =====
-- src/state.rs: which errors a valid store returns.
use stuntdouble.Common.{
  ℕ, ◌≡◌, ◌≢◌, inl, inr, true, Option, none, some, ◌∷◌, [], arith, if◌then◌else◌, ok, err,
  Bool-cases, Option-cases,
}
use stuntdouble.Common.Bytes.{Bytes}
use stuntdouble.Common.Dict.{contains_key}
use stuntdouble.Json.{Json}
use stuntdouble.State.{
  Host, Store, StateError, invalid_input, capacity_exceeded, internal, validate_key, validate_value,
  validate_ttl, continue, pure, get, take, set, set_if_absent,
}
use stuntdouble.State.Accounting.{IsValid, swept}
use stuntdouble.State.Writes.{has_room, validate_json_value-height}
use stuntdouble.State.Steps.{
  validated, stored, full, unscheduled, landed, Stored-cases, Result-cases, get_lem, take_lem,
  set_lem, set_if_absent_lem, get-invalid, take-invalid, set-invalid, set_if_absent-invalid,
}
use stuntdouble.State.Invariant.{IsSchedulable, deadline-ne-err}

validate_key-err : (key : Bytes) {e : StateError} → validate_key key ≡ err e → e ≡ invalid_input
unfolding validate_key
validate_key-err [] h = ground arith
validate_key-err (c ∷ key) h = ground arith

validate_value-err :
    (host : Host) (value : Json) {e : StateError}
    → validate_value host value ≡ err e
    → e ≡ invalid_input
unfolding validate_value
validate_value-err host value h = elim (Option-cases (host.to_vec value)) [
  | inl failed ↦ ground (arith, validate_json_value-height value)
  | inr (compact, printed) ↦ ground (arith, validate_json_value-height value)
]

validate_ttl-err : (ttl : Option ℕ) {e : StateError} → validate_ttl ttl ≡ err e → e ≡ invalid_input
unfolding validate_ttl
validate_ttl-err none h = cc
validate_ttl-err (some t) h = ground arith

-- What the checks refuse is invalid input.
pub validated-err :
    (host : Host) (key : Bytes) (value : Json) (ttl : Option ℕ) {e : StateError}
    → validated host key value ttl ≡ err e
    → e ≡ invalid_input
validated-err host key value ttl {e} h = ground (
  arith,
  validate_key-err key {e = e},
  validate_value-err host value {e = e},
  validate_ttl-err ttl {e = e},
)

module _ (host : Host) (now : ℕ) (s : Store) (v : IsValid host s) where
  get-ne-internal : (key : Bytes) → (get key now s).0 ≢ err internal
  get-ne-internal key = elim (Result-cases (validate_key key)) [
    | inl (_, e) ↦ rw (get_lem host now s v key e) (λ p. cc)
    | inr (x, e) ↦ rw (get-invalid host now s v key e) (λ p. cc (validate_key-err key e))
  ]

  take-ne-internal : (key : Bytes) → (take key now s).0 ≢ err internal
  take-ne-internal key = elim (Result-cases (validate_key key)) [
    | inl (_, e) ↦ rw (take_lem host now s v key e) (λ p. cc)
    | inr (x, e) ↦ rw (take-invalid host now s v key e) (λ p. cc (validate_key-err key e))
  ]

  module _ (key : Bytes) (value : Json) (ttl : Option ℕ) (fits : IsSchedulable host now ttl) where
    set-ne-internal : (set host key value ttl now s).0 ≢ err internal
    set-ne-internal = elim (Result-cases (validated host key value ttl)) [
      | inr (x, e) ↦
          rw (set-invalid host now s v key value ttl e)
            (λ p. cc (validated-err host key value ttl e))
      | inl (n, e) ↦
          rw (set_lem host now s v key value ttl e)
            elim (Stored-cases host key value n ttl now (swept now s)) [
              | full room q ↦ rw q (λ p. cc)
              | unscheduled x room d q ↦ absurd (deadline-ne-err host now ttl fits d)
              | landed d room p q ↦ rw q (λ r. cc)
            ]
    ]

    unless-ne-internal :
        (n : ℕ)
        → (continue (λ _. pure true) (stored host key value n ttl now (swept now s))).0
          ≢ err internal
    unless-ne-internal n = elim (Stored-cases host key value n ttl now (swept now s)) [
      | full room q ↦ rw q (λ p. cc)
      | unscheduled x room d q ↦ absurd (deadline-ne-err host now ttl fits d)
      | landed d room p q ↦ rw q (λ r. cc)
    ]

    set_if_absent-ne-internal : (set_if_absent host key value ttl now s).0 ≢ err internal
    set_if_absent-ne-internal = elim (Result-cases (validated host key value ttl)) [
      | inr (x, e) ↦
          rw (set_if_absent-invalid host now s v key value ttl e)
            (λ p. cc (validated-err host key value ttl e))
      | inl (n, e) ↦
          rw (set_if_absent_lem host now s v key value ttl e)
            elim (Bool-cases (contains_key key (swept now s).entries)) [
              | inl there ↦ rw there (λ p. cc)
              | inr absent ↦ rw absent (unless-ne-internal n)
            ]
    ]

-- On a valid store no method returns the internal error, unless the deadline of a ttl would pass the
-- platform's last instant.
pub ne-internal :
    (host : Host) (now : ℕ) (s : Store)
    → IsValid host s
    → (key : Bytes) (value : Json) (ttl : Option ℕ) → IsSchedulable host now ttl
    → ((get key now s).0 ≢ err internal)
      × ((take key now s).0 ≢ err internal)
      × ((set host key value ttl now s).0 ≢ err internal)
      × ((set_if_absent host key value ttl now s).0 ≢ err internal)
ne-internal host now s v key value ttl fits = (
  get-ne-internal host now s v key,
  take-ne-internal host now s v key,
  set-ne-internal host now s v key value ttl fits,
  set_if_absent-ne-internal host now s v key value ttl fits,
)

-- A set whose key, value and ttl are in order, and whose deadline is an instant, succeeds exactly
-- when what has not expired leaves room for it, and otherwise reports that the capacity is exceeded.
pub set-has_room :
    (host : Host) (now : ℕ) (s : Store)
    → IsValid host s
    → (key : Bytes) (value : Json) (ttl : Option ℕ) (n : ℕ) → validated host key value ttl ≡ ok n
    → IsSchedulable host now ttl
    → (set host key value ttl now s).0
      ≡ (if has_room key n (swept now s) then ok tt else err capacity_exceeded)
set-has_room host now s v key value ttl n h fits =
    rw (set_lem host now s v key value ttl h)
      elim (Stored-cases host key value n ttl now (swept now s)) [
        | full room q ↦ rw (q, room)
        | unscheduled x room d q ↦ absurd (deadline-ne-err host now ttl fits d)
        | landed d room p q ↦ rw (q, room)
      ]
