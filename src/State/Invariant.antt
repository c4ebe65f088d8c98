-- ===== src/State/Invariant.antt =====
-- src/state.rs: every method keeps the store valid, and a valid store meets no internal error.
use stuntdouble.Common.{
  ℕ, ◌+◌, ◌≤◌, ◌≡◌, ◌≢◌, refl, inl, inr, Bool, true, false, Option, none, some, arith,
  if◌then◌else◌, ok, err, Bool-cases,
}
use stuntdouble.Common.Bytes.{Bytes}
use stuntdouble.Common.Dict.{contains_key}
use stuntdouble.Json.{Json}
use stuntdouble.State.{
  Host, Store, StateError, new, deadline, validate_key, continue, pure, get, take, set,
  set_if_absent,
}
use stuntdouble.State.Accounting.{IsValid, without-IsValid, swept, remove_all_expired_lem}
use stuntdouble.State.Writes.{written-IsValid}
use stuntdouble.State.Steps.{
  validated, validated-eq-ok, validate_key-fits, validate_value-fits, stored, full, unscheduled,
  landed, Stored-cases, Result-cases, get_lem, take_lem, set_lem, set_if_absent_lem, get-invalid,
  take-invalid, set-invalid, set_if_absent-invalid,
}

pub new-IsValid : (host : Host) → IsValid host new
unfolding new
new-IsValid host = record {
  distinct = tt;
  accounted = refl;
  within = omega arith;
  few = omega arith;
  stored = tt;
}

-- The deadline of a ttl is a value of `Instant`.
abbrev pub IsSchedulable : Host → ℕ → Option ℕ → Type 0
IsSchedulable host now none = Unit
IsSchedulable host now (some ttl) = now + ttl ≤ host.instant_max

pub deadline-ne-err :
    (host : Host) (now : ℕ) (ttl : Option ℕ) {e : StateError}
    → IsSchedulable host now ttl
    → deadline host now ttl ≢ err e
unfolding deadline
deadline-ne-err host now none fits = λ p. cc
deadline-ne-err host now (some ttl) fits = ground arith

module _ (host : Host) (now : ℕ) (s : Store) (v : IsValid host s) where
  stored-IsValid :
      (key : Bytes) (value : Json) (n : ℕ) (ttl : Option ℕ)
      → validated host key value ttl ≡ ok n
      → IsValid host (stored host key value n ttl now s).1
  stored-IsValid key value n ttl h = elim (Stored-cases host key value n ttl now s) [
    | full room e ↦ rw e v
    | unscheduled x room d e ↦ rw e v
    | landed d room p e ↦
        let (k, w, t) = validated-eq-ok host key value ttl h in
        let (small, shallow, (compact, printed, measured)) = validate_value-fits host value n w in
        let fits = validate_key-fits key k in
        rw e (
          written-IsValid host s v key n value d
            (record {
              key_nonempty = fits.0;
              key_fits = fits.1;
              value_fits = small;
              shallow = shallow;
              compact = compact;
              printed = printed;
              measured = measured;
            })
            room)
  ]

  if-IsValid :
      (b : Bool) {t u : Store} → IsValid host t → IsValid host u → IsValid host (if b then t else u)
  if-IsValid true p q = p
  if-IsValid false p q = q

  pub get-IsValid : (key : Bytes) → IsValid host (get key now s).1
  get-IsValid key = elim (Result-cases (validate_key key)) [
    | inr (x, e) ↦ rw (get-invalid host now s v key e) v
    | inl (_, e) ↦ rw (get_lem host now s v key e) (if-IsValid _ (without-IsValid host key s v) v)
  ]

  pub take-IsValid : (key : Bytes) → IsValid host (take key now s).1
  take-IsValid key = elim (Result-cases (validate_key key)) [
    | inr (x, e) ↦ rw (take-invalid host now s v key e) v
    | inl (_, e) ↦ rw (take_lem host now s v key e) (if-IsValid _ (without-IsValid host key s v) v)
  ]

module _ (host : Host) (now : ℕ) (s : Store) (v : IsValid host s) where
  swept-IsValid : IsValid host (swept now s)
  swept-IsValid = (remove_all_expired_lem host now s v).1

  pub set-IsValid :
      (key : Bytes) (value : Json) (ttl : Option ℕ) → IsValid host (set host key value ttl now s).1
  set-IsValid key value ttl = elim (Result-cases (validated host key value ttl)) [
    | inr (x, e) ↦ rw (set-invalid host now s v key value ttl e) v
    | inl (n, e) ↦
        rw (set_lem host now s v key value ttl e)
          (stored-IsValid host now (swept now s) swept-IsValid key value n ttl e)
  ]

  unless-IsValid :
      (key : Bytes) (value : Json) (n : ℕ) (ttl : Option ℕ)
      → validated host key value ttl ≡ ok n
      → IsValid host (continue (λ _. pure true) (stored host key value n ttl now (swept now s))).1
  unless-IsValid key value n ttl h =
      let kept = stored-IsValid host now (swept now s) swept-IsValid key value n ttl h in
      elim (Stored-cases host key value n ttl now (swept now s)) [
        | full room e ↦ rw e swept-IsValid
        | unscheduled x room d e ↦ rw e swept-IsValid
        | landed d room p e ↦ rw e (rw e at kept)
      ]

  pub set_if_absent-IsValid :
      (key : Bytes) (value : Json) (ttl : Option ℕ)
      → IsValid host (set_if_absent host key value ttl now s).1
  set_if_absent-IsValid key value ttl = elim (Result-cases (validated host key value ttl)) [
    | inr (x, e) ↦ rw (set_if_absent-invalid host now s v key value ttl e) v
    | inl (n, e) ↦
        rw (set_if_absent_lem host now s v key value ttl e)
          elim (Bool-cases (contains_key key (swept now s).entries)) [
            | inl there ↦ rw there swept-IsValid
            | inr absent ↦ rw absent (unless-IsValid key value n ttl e)
          ]
  ]
